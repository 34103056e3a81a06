-- ===== src/Store/World/Frames.antt =====
-- What holds of every call, whatever fault it meets.
use trade_journal.Prelude.{
  ◌≡◌, ◌≢◌, refl, sym, ap, ◌∙◌, ◌⊎◌, inl, inr, Option, none, some, List, [], ◌∷◌, Error, Result, ok,
  err, not_found, unavailable,
}
use trade_journal.Prelude.Time.{Time}
use trade_journal.Platform.{Platform}
use trade_journal.Store.Tables.{Db}
use trade_journal.Store.World
use trade_journal.Store.World.{
  Fault, answered, refused, lost, World, Call, call, statement, command, continue_with, ◌>>=◌,
  query, returning, found_or_missing, lookup,
}

module _ {p : Platform} {A : Type 0} (Q : World p → Type 0) (f : Call p A) where
  -- A call keeps what its body keeps, if that does not depend on the schedule.
  pub call_keeps :
      ((w : World p) → Q w → Q (f w).1)
      → ((w : World p) (s : List Fault) → Q w → Q (record w { schedule = s }))
      → (w : World p) → Q w
      → Q (call f w).1
  unfolding call
  call_keeps body free w h = by_schedule w.schedule
    where
      by_schedule : (s : List Fault) → Q (World.call_with s f w).1
      by_schedule [] = body w h
      by_schedule (answered ∷ s) = body _ (free w s h)
      by_schedule (refused ∷ s) = free w s h
      by_schedule (lost ∷ s) = body _ (free w s h)

-- A call keeps what its statement keeps of the tables.
pub statement_keeps :
    {p : Platform} {A : Type 0} (P : Db p → Type 0) (f : Time → Db p → Result A × Db p)
    → ((t : Time) (d : Db p) → P d → P (f t d).1)
    → (w : World p) → P w.db
    → P (call (statement f) w).1.db
statement_keeps P f keeps =
    call_keeps (λ w. P w.db) (statement f) (λ w. keeps w.now w.db) (λ w s h. h)

-- A command leaves the tables alone.
pub command_frame :
    {p : Platform} {A : Type 0} (f : Time → p.Redis → A × p.Redis) (w : World p)
    → (call (command f) w).1.db ≡ w.db
command_frame f w = call_keeps (λ v. v.db ≡ w.db) (command f) (λ v h. h) (λ v s h. h) w refl

-- A statement leaves the Redis data alone.
pub statement_frame :
    {p : Platform} {A : Type 0} (f : Time → Db p → Result A × Db p) (w : World p)
    → (call (statement f) w).1.redis ≡ w.redis
statement_frame f w =
    call_keeps (λ v. v.redis ≡ w.redis) (statement f) (λ v h. h) (λ v s h. h) w refl

-- With no fault ahead a call is carried out and answered.
pub call_answered :
    {p : Platform} {A : Type 0} (f : Call p A) (w : World p) → w.schedule ≡ [] → call f w ≡ f w
unfolding call
call_answered f w e = rw e

-- With no fault ahead, what a statement returns depends on the tables alone, if not on the time.
pub statement_same :
    {p : Platform} {A : Type 0} (f : Db p → Result A × Db p) (v w : World p)
    → v.schedule ≡ []
    → w.schedule ≡ []
    → v.db ≡ w.db
    → (call (statement (λ _ d. f d)) v).0 ≡ (call (statement (λ _ d. f d)) w).0
statement_same f v w qv qw same =
    ap (λ x. x.0) (call_answered (statement (λ _ d. f d)) v qv)
    ∙ ap (λ d. (f d).0) same
    ∙ ap (λ x. x.0) (sym (call_answered (statement (λ _ d. f d)) w qw))

-- What a statement establishes of its result and the tables holds of the call, if it also holds of
-- a call that is refused or whose reply is lost.
pub statement_post :
    {p : Platform} {A : Type 0} (R : Result A → Db p → Type 0) (f : Time → Db p → Result A × Db p)
    (w : World p)
    → R (f w.now w.db).0 (f w.now w.db).1
    → R (err unavailable) w.db
    → R (err unavailable) (f w.now w.db).1
    → R (call (statement f) w).0 (call (statement f) w).1.db
unfolding call
statement_post {p} {A} R f w done none_at_all no_reply = by_schedule w.schedule
  where
    by_schedule :
        (s : List Fault)
        → R (World.call_with s (statement f) w).0 (World.call_with s (statement f) w).1.db
    by_schedule [] = done
    by_schedule (answered ∷ s) = done
    by_schedule (refused ∷ s) = none_at_all
    by_schedule (lost ∷ s) = no_reply

module _ {p : Platform} {A B : Type 0} (m : Call p A) (f : A → Call p B) (w : World p) where
  -- A sequence of calls keeps what its parts keep.
  pub bind_keeps :
      (Q : World p → Type 0)
      → Q (m w).1
      → ((a : A) (v : World p) → Q v → Q (f a v).1)
      → Q ((m >>= f) w).1
  bind_keeps Q h keeps = by_result (m w) h
    where
      by_result : (x : Result A × World p) → Q x.1 → Q (continue_with f x).1
      by_result (ok a, v) h = keeps a v h
      by_result (err e, v) h = h

  -- A sequence that succeeds is two successes.
  pub bind_ok :
      {b : B} → ((m >>= f) w).0 ≡ ok b → (a : A) × ((m w).0 ≡ ok a) × ((f a (m w).1).0 ≡ ok b)
  bind_ok {b} e = by_result (m w) e
    where
      by_result :
          (x : Result A × World p)
          → (continue_with f x).0 ≡ ok b
          → (a : A) × (x.0 ≡ ok a) × ((f a x.1).0 ≡ ok b)
      by_result (ok a, v) e = (a, refl, e)
      by_result (err e', v) e = cc

-- A statement that only reads leaves the tables alone, also with a pure step behind it.
pub query_frame :
    {p : Platform} {A : Type 0} (f : Db p → Result A) (w : World p) → (query f w).1.db ≡ w.db
query_frame f w = statement_keeps (λ d. d ≡ w.db) (λ _ d. (f d, d)) (λ _ d h. h) w refl

pub query_then_frame :
    {p : Platform} {A B : Type 0} (f : Db p → Result A) (g : A → Result B) (w : World p)
    → ((query f >>= λ a. returning (g a)) w).1.db ≡ w.db
query_then_frame f g w =
    bind_keeps (query f) (λ a. returning (g a)) w (λ v. v.db ≡ w.db) (query_frame f w) (λ a v h. h)

-- A read that succeeds returns what the statement reads.
pub query_ok :
    {p : Platform} {A : Type 0} (f : Db p → Result A) (w : World p) {a : A}
    → (query f w).0 ≡ ok a
    → f w.db ≡ ok a
query_ok {A} f w {a} =
    statement_post (λ r d. r ≡ ok a → f w.db ≡ ok a) (λ _ d. (f d, d)) w (λ h. h) (λ h. cc)
      (λ h. cc)

-- A read fails as its statement does, or as a driver.
pub query_err :
    {p : Platform} {A : Type 0} (f : Db p → Result A) (w : World p) (e : Error)
    → (query f w).0 ≡ err e
    → (f w.db ≡ err e) ⊎ (e ≡ unavailable)
query_err {A} f w e =
    statement_post (λ r d. r ≡ err e → (f w.db ≡ err e) ⊎ (e ≡ unavailable)) (λ _ d. (f d, d)) w inl
      (λ h. inr (cc)) (λ h. inr (cc))

-- A lookup that returns a row has read it, and one that finds none has read that there is none.
pub lookup_ok :
    {p : Platform} {A : Type 0} (f : Db p → Result (Option A)) (w : World p) {a : A}
    → (lookup f w).0 ≡ ok a
    → f w.db ≡ ok (some a)
lookup_ok f w {a} e =
    let (o, read, got) = bind_ok (query f) _ w e in by_option o (query_ok f w read) got
  where
    by_option : (o : Option _) → f w.db ≡ ok o → found_or_missing o ≡ ok a → f w.db ≡ ok (some a)
    by_option none h got = cc
    by_option (some b) h got = cc

pub lookup_missing :
    {p : Platform} {A : Type 0} (f : Db p → Result (Option A)) (w : World p)
    → f w.db ≢ err not_found
    → (lookup f w).0 ≡ err not_found
    → f w.db ≡ ok none
lookup_missing {p} {A} f w found e =
    by_read (query f w) (λ o. query_ok f w) (λ e. query_err f w not_found e) e
  where
    by_read :
        (x : Result (Option A) × World p)
        → ((o : Option A) → x.0 ≡ ok o → f w.db ≡ ok o)
        → (x.0 ≡ err not_found → (f w.db ≡ err not_found) ⊎ (◌≡◌ {A = Error} not_found unavailable))
        → (continue_with (λ o. returning (found_or_missing o)) x).0 ≡ err not_found
        → f w.db ≡ ok none
    by_read (ok none, v) h k e = h none refl
    by_read (ok (some row), v) h k e = cc
    by_read (err x, v) h k e = elim (k cc) [ inl bad ↦ absurd (found bad) | inr bad ↦ cc ]

pub lookup_frame :
    {p : Platform} {A : Type 0} (f : Db p → Result (Option A)) (w : World p)
    → (lookup f w).1.db ≡ w.db
lookup_frame f w = query_then_frame f found_or_missing w

-- With no fault ahead a row that is there is found.
pub lookup_answered :
    {p : Platform} {A : Type 0} (f : Db p → Result (Option A)) (w : World p) {a : A}
    → w.schedule ≡ []
    → f w.db ≡ ok (some a)
    → lookup f w ≡ (ok a, w)
lookup_answered f w quiet read =
    ap (continue_with (λ found. returning (found_or_missing found)))
      (call_answered (statement (λ _ d. (f d, d))) w quiet ∙ ap (λ x. (x, w)) read)

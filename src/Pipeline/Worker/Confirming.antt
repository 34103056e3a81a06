-- ===== src/Pipeline/Worker/Confirming.antt =====
-- What the group is owed while the worker reads and confirms, when every call is answered.
use trade_journal.Prelude.{
  ◌≤◌, String, ◌≡◌, refl, sym, ap, subst, ◌∙◌, Bool, true, not, ◌&&◌, List, [], ◌∷◌, ◌++◌, map,
  length, select, arith, Option, none, some, Result, ok, err, ◌==◌, eq_refl,
}
use trade_journal.Platform.{Platform, Message}
use trade_journal.Platform.Laws.{GroupLaws, messages}
use trade_journal.Store.World.{World}
use trade_journal.Store.World.Frames.{call_answered}
use trade_journal.Cache.Window.{window_commands}
use trade_journal.Cache.Stream.{Streams, ack, read_group, read_new}
use trade_journal.Pipeline.{process_message}
use trade_journal.Pipeline.Effects.{process_message-redis}
use trade_journal.Pipeline.Answered.{IsQuiet, process_message-IsQuiet}
use trade_journal.Pipeline.Worker.{stream_name, group_name, consumer_name, read, handle, handle_all}
use trade_journal.Pipeline.Worker.Order.{unread_of}

-- Taking out of a list what a test selects from it leaves nothing.
abbrev pub without : List String → List String → List String
without [] ids = ids
without (i ∷ is) ids = without is (select (λ j. not (j == i)) ids)

select-select :
    (f g : String → Bool) (xs : List String) → select f (select g xs) ≡ select (λ x. g x && f x) xs
select-select f g [] = refl
select-select f g (x ∷ xs) = ground (arith, select-select f g xs)

select_cons_none :
    (f : String → Bool) (x : String) (xs : List String)
    → select (λ j. f j && not (j == x)) (x ∷ xs) ≡ select (λ j. f j && not (j == x)) xs
select_cons_none f x xs = ground (arith, eq_refl x)

without_selected : (f : String → Bool) (ids : List String) → without ids (select f ids) ≡ []
without_selected f [] = refl
without_selected f (i ∷ is) =
    ap (without is) (select-select (λ j. not (j == i)) f (i ∷ is) ∙ select_cons_none f i is)
    ∙ without_selected (λ j. f j && not (j == i)) is

select_all : (xs : List String) → select (λ _. true) xs ≡ xs
select_all [] = refl
select_all (x ∷ xs) = ap (λ ys. x ∷ ys) (select_all xs)

pub without_all : (ids : List String) → without ids ids ≡ []
without_all ids = ap (without ids) (sym (select_all ids)) ∙ without_selected (λ _. true) ids

module _ {p : Platform} (laws : GroupLaws p) where
  abbrev pub pending_of : World p → List String
  pending_of w = laws.pending w.redis stream_name group_name

  -- Nothing of a quiet world is owed but these ids.
  abbrev pub Owes : List String → World p → Type 0
  Owes ids w = IsQuiet w × (pending_of w ≡ ids)

  -- A message is confirmed.
  handle-Owes :
      (ids : List String) (m : Message) (w : World p)
      → Owes ids w
      → Owes (select (λ j. not (j == m.id)) ids) (handle m w)
  unfolding handle ack window_commands
  handle-Owes ids m w (q, h) =
      let v = process_message m.values w in
      let quiet = process_message-IsQuiet m.values w q in
      let owed =
        process_message-redis (λ r. laws.pending r stream_name group_name ≡ ids)
          (λ r key id now_ms window_ms k.
            (laws.window_frame r stream_name group_name key id now_ms _ _).1 ∙ k)
          m.values w h in
      subst (λ x. Owes (select (λ j. not (j == m.id)) ids) x.1) (sym (call_answered _ v quiet))
        (
          quiet,
          laws.ack_pending v.redis stream_name group_name m.id
              ∙ ap (select (λ j. not (j == m.id))) owed,
        )

  pub handle_all-Owes :
      (ms : List Message) (ids : List String) (w : World p)
      → Owes ids w
      → Owes (without (map (λ m. m.id) ms) ids) (handle_all ms w)
  unfolding handle_all
  handle_all-Owes [] ids w h = h
  handle_all-Owes (m ∷ ms) ids w h = handle_all-Owes ms _ (handle m w) (handle-Owes ids m w h)

  -- What an answered read has done: it was given messages, or there was none.
  abbrev pub Answers : World p → Result Streams × World p → Type 0
  Answers w (err e, v) = IsQuiet v × (unread_of laws w ≡ []) × (v.redis ≡ w.redis)
  Answers w (ok streams, v) =
      IsQuiet v
      × (1 ≤ length (messages streams))
      × (unread_of laws w ≡ messages streams ++ unread_of laws v)
      × (pending_of v ≡ pending_of w ++ map (λ m. m.id) (messages streams))

  pub read-Answers : (w : World p) → IsQuiet w → Answers w (read w)
  unfolding read_group
  read-Answers w q =
      subst (Answers w) (sym (call_answered _ w q))
        (by_reply (p.xreadgroup w.redis group_name consumer_name stream_name 10 5000) refl)
    where
      by_reply :
          (o : Option (Streams × p.Redis))
          → p.xreadgroup w.redis group_name consumer_name stream_name 10 5000 ≡ o
          → let (x, r) = read_new p group_name consumer_name stream_name 10 5000 w.now w.redis in
            Answers w (x, record w { redis = r })
      by_reply none e =
          rw e (q, laws.read_none w.redis group_name consumer_name stream_name 10 5000 e, refl)
      by_reply (some (streams, r)) e =
          let (some_read, next, owed) =
            laws.read_some w.redis r group_name consumer_name stream_name 10 5000 streams e in
          rw e (q, some_read, next, owed)

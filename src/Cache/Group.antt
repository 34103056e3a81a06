-- ===== src/Cache/Group.antt =====
-- What a read of the stream does to its consumer group, whatever fault it meets.
use mathlib.Core.List.{Sublist}
use mathlib.Core.List.Sublist.{refl as sublist_refl}
use mathlib.Core.List.{sublist-append_right}
use trade_journal.Prelude.{
  ℕ, ◌≤◌, String, ◌≡◌, refl, sym, subst, Option, none, some, List, [], ◌∷◌, ◌++◌, map, length,
  Result, ok, err, unavailable,
}
use trade_journal.Prelude.Time.{Time}
use trade_journal.Platform.{Platform, Message}
use trade_journal.Platform.Laws.{GroupLaws, messages}
use trade_journal.Store.World.{World, Fault, answered, refused, lost, call, call_with}
use trade_journal.Cache.Stream.{Streams, attempt, read_group, read_new}

-- What a command establishes of its reply and the data holds of the call, if it also holds of a
-- call that is refused or whose reply is lost.
pub attempt_post :
    {p : Platform} {A : Type 0} (R : Result A → p.Redis → Type 0)
    (f : Time → p.Redis → Result A × p.Redis) (w : World p)
    → R (f w.now w.redis).0 (f w.now w.redis).1
    → R (err unavailable) w.redis
    → R (err unavailable) (f w.now w.redis).1
    → R (attempt f w).0 (attempt f w).1.redis
unfolding call call_with
attempt_post {p} {A} R f w done none_at_all no_reply = by_schedule w.schedule
  where
    by_schedule :
        (s : List Fault)
        → R
            (call_with s (λ v. let (x, r) = f v.now v.redis in (x, record v { redis = r })) w).0
            (call_with s
              (λ v. let (x, r) = f v.now v.redis in (x, record v { redis = r }))
              w).1.redis
    by_schedule [] = done
    by_schedule (answered ∷ s) = done
    by_schedule (refused ∷ s) = none_at_all
    by_schedule (lost ∷ s) = no_reply

module _ {p : Platform} (laws : GroupLaws p) (stream group : String) where
  -- A read that succeeds is given the next messages, at least one, and owes their confirmation. One
  -- that fails may have been given messages that it has not received.
  abbrev pub Delivers : p.Redis → Result Streams → p.Redis → Type 0
  Delivers r (err e) r' = Sublist (laws.unread r' stream group) (laws.unread r stream group)
  Delivers r (ok streams) r' =
      (1 ≤ length (messages streams))
      × (laws.unread r stream group ≡ messages streams ++ laws.unread r' stream group)
      × (laws.pending r' stream group
          ≡ laws.pending r stream group ++ map (λ m. m.id) (messages streams))

  -- The part that was not delivered is a part of what was there.
  rest_of : (xs ms ys : List Message) → xs ≡ ms ++ ys → Sublist ys xs
  rest_of xs ms ys e = subst (λ zs. Sublist ys zs) (sym e) (sublist-append_right ms ys)

  pub read_group-Delivers :
      (consumer : String) (count block : ℕ) (w : World p)
      → let (reply, v) = read_group group consumer stream count block w in
        Delivers w.redis reply v.redis
  unfolding read_group
  read_group-Delivers consumer count block w =
      by_reply (p.xreadgroup w.redis group consumer stream count block) refl
    where
      by_reply :
          (o : Option (Streams × p.Redis))
          → p.xreadgroup w.redis group consumer stream count block ≡ o
          → let f = read_new p group consumer stream count block in
            Delivers w.redis (attempt f w).0 (attempt f w).1.redis
      by_reply none e =
          attempt_post (Delivers w.redis) _ w (rw e (sublist_refl _)) (sublist_refl _)
            (rw e (sublist_refl _))
      by_reply (some (streams, r)) e =
          let (some_read, next, owed) =
            laws.read_some w.redis r group consumer stream count block streams e in
          attempt_post (Delivers w.redis) _ w (rw e (some_read, next, owed)) (sublist_refl _)
            (rw e (rest_of _ _ _ next))

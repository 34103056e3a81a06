-- ===== src/Pipeline/Worker/Draining.antt =====
-- When every call is answered, the worker handles and confirms all that is in the stream.
use mathlib.Core.List.{append_assoc, append-nil, map-append}
use trade_journal.Prelude.{
  ℕ, zero, suc, ◌+◌, ◌≤◌, ◌≡◌, refl, sym, ap, subst, ◌∙◌, List, [], ◌∷◌, ◌++◌, map, length,
  length-append, arith, Error, Result, ok, err,
}
use trade_journal.Platform.{Platform, Message}
use trade_journal.Platform.Laws.{GroupLaws, messages}
use trade_journal.Store.World.{World}
use trade_journal.Cache.Stream.{Streams}
use trade_journal.Pipeline.{Fields}
use trade_journal.Pipeline.Answered.{IsQuiet}
use trade_journal.Pipeline.Worker.{
  stream_name, group_name, read, handle_all, handle_streams, after_read, pause, loop,
}
use trade_journal.Pipeline.Worker.History.{
  History, start, paused, failed, handled, contents, handle_streams_once,
}
use trade_journal.Pipeline.Worker.Order.{unread_of, handle_streams-unread, handle_streams_all}
use trade_journal.Pipeline.Worker.Confirming.{
  without_all, pending_of, Owes, handle_all-Owes, Answers, read-Answers,
}

length-zero : (ms : List Message) → length ms ≤ 0 → ms ≡ []
length-zero [] h = refl
length-zero (m ∷ ms) h = absurd (omega (arith, h))

module _ {p : Platform} (laws : GroupLaws p) where
  -- A world in which nothing is left.
  pub record IsDrained (w : World p) : Type 0 where
    pub unread : unread_of laws w ≡ []
    pub pending : pending_of laws w ≡ []

  module _ (w₀ : World p) where
    -- What was to be given at first has been processed up to what is left.
    abbrev Progress : World p → Type 0
    Progress v =
        (hs : List Fields) × History w₀ [] hs v
        × (hs ++ contents (unread_of laws v) ≡ contents (unread_of laws w₀))

    -- With so many messages to be given, all calls answered, and none owed.
    abbrev Has : ℕ → World p → Type 0
    Has n w = Owes laws [] w × (length (unread_of laws w) ≤ n) × Progress w

    -- A world in which all is processed, and nothing is left.
    abbrev Ends : World p → Type 0
    Ends v = IsDrained v × History w₀ [] (contents (unread_of laws w₀)) v

    handled-Progress :
        (w v : World p) (streams : Streams)
        → read w ≡ (ok streams, v)
        → unread_of laws w ≡ messages streams ++ unread_of laws v
        → Progress w
        → Progress (handle_streams streams v)
    handled-Progress w v streams e next (hs, h, all) =
        let ms = messages streams in
        let after = handle_streams streams v in
        let taken : contents ms ++ contents (unread_of laws after) ≡ contents (unread_of laws w) =
          ap (λ us. contents ms ++ contents us) (handle_streams-unread laws streams v)
          ∙ sym (map-append (λ (m : Message). m.values) ms (unread_of laws v))
          ∙ ap contents (sym next) in
        (
          hs ++ contents ms,
          subst (History w₀ [] (hs ++ contents ms)) (sym (handle_streams_once streams v))
              (handled e h),
          append_assoc hs (contents ms) (contents (unread_of laws after))
              ∙ ap (λ us. hs ++ us) taken
              ∙ all,
        )

    handled-Has :
        (n : ℕ) (w v : World p) (streams : Streams)
        → read w ≡ (ok streams, v)
        → Answers laws w (ok streams, v)
        → Has (suc n) w
        → Has n (handle_streams streams v)
    handled-Has n w v streams e (q, some_read, next, owed) ((q₀, none_owed), fits, progress) =
        let ms = messages streams in
        let ids = map (λ m. m.id) ms in
        let owes : Owes laws ids v = (q, owed ∙ ap (λ xs. xs ++ ids) none_owed) in
        let confirmed : Owes laws [] (handle_streams streams v) =
          subst (Owes laws []) (sym (handle_streams_all streams v)) (
            subst (λ xs. Owes laws xs (handle_all ms v)) (without_all ids)
              (handle_all-Owes laws ms ids v owes)) in
        let total : length (unread_of laws w) ≡ length ms + length (unread_of laws v) =
          ap length next ∙ length-append ms (unread_of laws v) in
        let left : length (unread_of laws (handle_streams streams v)) ≡ length (unread_of laws v) =
          ap length (handle_streams-unread laws streams v) in
        (
          confirmed,
          omega (arith, total, left, some_read, fits),
          handled-Progress w v streams e next progress,
        )

    missed-Has :
        (n : ℕ) (w v : World p) {x : Error}
        → read w ≡ (err x, v)
        → IsQuiet v
        → unread_of laws w ≡ []
        → v.redis ≡ w.redis
        → Has n w
        → Has 0 v
    missed-Has n w v e q none_left same ((q₀, none_owed), fits, (hs, h, all)) =
        let alike : unread_of laws v ≡ unread_of laws w =
          ap (λ r. laws.unread r stream_name group_name) same in
        let still_none : unread_of laws v ≡ [] = alike ∙ none_left in
        (
          (q, ap (λ r. laws.pending r stream_name group_name) same ∙ none_owed),
          rw still_none (omega arith),
          (hs, failed e h, ap (λ us. hs ++ contents us) alike ∙ all),
        )

    empty-Ends : (w : World p) → Has 0 w → Ends w
    empty-Ends w ((q, none_owed), fits, (hs, h, all)) =
        let none_left = length-zero (unread_of laws w) fits in
        let every : hs ≡ contents (unread_of laws w₀) =
          sym (append-nil hs) ∙ ap (λ us. hs ++ contents us) (sym none_left) ∙ all in
        (
          record { unread = none_left; pending = none_owed },
          subst (λ xs. History w₀ [] xs w) every h,
        )

    after_read-Ends :
        (n : ℕ) (next retry : World p → World p) (w : World p) (x : Result Streams × World p)
        → read w ≡ x
        → ((v : World p) → Has n v → Ends (next v))
        → ((v : World p) → Has 0 v → Ends (retry v))
        → Answers laws w x
        → Has (suc n) w
        → Ends (after_read next retry x)
    after_read-Ends n next retry w (err x, v) e on_next on_retry (q, none_left, same) h =
        on_retry v (missed-Has (suc n) w v e q none_left same h)
    after_read-Ends n next retry w (ok streams, v) e on_next on_retry a h =
        on_next (handle_streams streams v) (handled-Has n w v streams e a h)

    loop-Ends : (n : ℕ) (w : World p) → Has n w → Ends (loop n w)
    unfolding loop
    loop-Ends zero w h = empty-Ends w h
    loop-Ends (suc zero) w h =
        after_read-Ends 0 _ _ w (read w) refl empty-Ends empty-Ends (read-Answers laws w h.0.0) h
    loop-Ends (suc (suc n)) w h =
        after_read-Ends (suc n) _ _ w (read w) refl (loop-Ends (suc n))
          (λ v (owes, fits, (hs, k, all)).
            loop-Ends n (pause v) (owes, omega (arith, fits), (hs, paused k, all)))
          (read-Answers laws w h.0.0) h

  -- When the group has been given nothing that it has not confirmed, and every call is answered, a
  -- worker whose context lasts for as many tests as there are messages to be given processes each of
  -- them once, in order, and confirms it: the world it leaves continues a history in which just these
  -- were handled, none is left to be given, and none is owed.
  pub loop-IsDrained :
      (n : ℕ) (w : World p)
      → w.schedule ≡ []
      → pending_of laws w ≡ []
      → length (unread_of laws w) ≤ n
      → IsDrained (loop n w) × History w [] (contents (unread_of laws w)) (loop n w)
  loop-IsDrained n w quiet none_owed fits =
      loop-Ends w n w ((quiet, none_owed), fits, ([], start, refl))

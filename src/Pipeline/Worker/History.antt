-- ===== src/Pipeline/Worker/History.antt =====
-- The histories of the stream: events are published while the worker reads and handles them.
use trade_journal.Prelude.{
  ℕ, zero, suc, String, ◌≡◌, refl, sym, ap, subst, ◌∙◌, List, [], ◌∷◌, ◌++◌, map, Error, Result, ok,
  err,
}
use trade_journal.Platform.{Platform, Message, Arg}
use trade_journal.Platform.Laws.{messages}
use trade_journal.Store.World.{World}
use trade_journal.Cache.Stream.{Streams, arg_texts, add, ack}
use trade_journal.Pipeline.{Fields, process_message}
use trade_journal.Pipeline.Worker.{
  stream_name, group_name, read, handle, handle_all, handle_streams, after_read, pause, loop,
}

abbrev pub contents : List Message → List Fields
contents ms = map (λ m. m.values) ms

-- Messages one after another, each processed once, and then confirmed.
abbrev pub each_once : {p : Platform} → List Message → World p → World p
each_once [] w = w
each_once (m ∷ ms) w = each_once ms (ack stream_name group_name m.id (process_message m.values w)).1

-- The events that were published since a world, those that were handled, and the world then. Any of
-- the calls may have failed.
pub data History {p : Platform} (w : World p) : List Fields → List Fields → World p → Type 0 where
  start : History w [] [] w
  published :
      {es hs : List Fields} {v : World p} (values : List (String × Arg))
      → History w es hs v
      → History w (es ++ (arg_texts p values ∷ [])) hs (add stream_name values v).1
  paused : {es hs : List Fields} {v : World p} → History w es hs v → History w es hs (pause v)
  failed :
      {es hs : List Fields} {v v' : World p} {e : Error}
      → read v ≡ (err e, v')
      → History w es hs v
      → History w es hs v'
  handled :
      {es hs : List Fields} {v v' : World p} {streams : Streams}
      → read v ≡ (ok streams, v')
      → History w es hs v
      → History w es (hs ++ contents (messages streams)) (each_once (messages streams) v')

-- The worker processes and confirms each message of its streams once, in order.
handle_all_once :
    {p : Platform} (ms : List Message) (w : World p) → handle_all ms w ≡ each_once ms w
unfolding handle_all handle
handle_all_once [] w = refl
handle_all_once (m ∷ ms) w = handle_all_once ms (handle m w)

each_once-append :
    {p : Platform} (ms ns : List Message) (w : World p)
    → each_once (ms ++ ns) w ≡ each_once ns (each_once ms w)
each_once-append [] ns w = refl
each_once-append (m ∷ ms) ns w =
    each_once-append ms ns (ack stream_name group_name m.id (process_message m.values w)).1

pub handle_streams_once :
    {p : Platform} (streams : Streams) (w : World p)
    → handle_streams streams w ≡ each_once (messages streams) w
unfolding handle_streams
handle_streams_once [] w = refl
handle_streams_once ((name, ms) ∷ streams) w =
    handle_streams_once streams (handle_all ms w)
    ∙ ap (each_once (messages streams)) (handle_all_once ms w)
    ∙ sym (each_once-append ms (messages streams) w)

module _ {p : Platform} (w : World p) (es : List Fields) where
  abbrev Continues : World p → Type 0
  Continues v = (hs : List Fields) × History w es hs v

  after_read-Continues :
      (next retry : World p → World p)
      → ((v : World p) → Continues v → Continues (next v))
      → ((v : World p) → Continues v → Continues (retry v))
      → (v : World p) → Continues v
      → Continues (after_read next retry (read v))
  after_read-Continues next retry on_next on_retry v (hs, h) = by_reply (read v) refl
    where
      by_reply : (x : Result Streams × World p) → read v ≡ x → Continues (after_read next retry x)
      by_reply (ok streams, v') e =
          on_next (handle_streams streams v')
            (subst Continues (sym (handle_streams_once streams v')) (_, handled e h))
      by_reply (err x, v') e = on_retry v' (_, failed e h)

  -- The loop continues a history: it handles what it reads, and nothing else.
  pub loop-Continues : (n : ℕ) (v : World p) → Continues v → Continues (loop n v)
  unfolding loop
  loop-Continues zero v h = h
  loop-Continues (suc zero) v h = after_read-Continues _ _ (λ _ k. k) (λ _ k. k) v h
  loop-Continues (suc (suc n)) v h =
      after_read-Continues _ _ (loop-Continues (suc n))
        (λ v' k. loop-Continues n (pause v') (k.0, paused k.1)) v h

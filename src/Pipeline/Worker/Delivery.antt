-- ===== src/Pipeline/Worker/Delivery.antt =====
-- From the publication of a trade to its count, when every call is answered.
use trade_journal.Prelude.{
  ℕ, zero, suc, ◌+◌, ◌≤◌, String, ◌≡◌, refl, sym, ap, subst, ◌∙◌, Bool, some, List, [], ◌∷◌, ◌++◌,
  length, arith, Result, ok, err, if◌then◌else◌,
}
use trade_journal.Prelude.Time.{Time, hour, truncate}
use trade_journal.Platform.{Platform, Message}
use trade_journal.Platform.Laws.{GroupLaws, TextLaws, messages}
use trade_journal.Domain.Trade.{Trade}
use trade_journal.Store.World.{World}
use trade_journal.Store.World.Frames.{call_answered}
use trade_journal.Store.Metrics.Counter.{Counter}
use trade_journal.Store.Metrics.Sums.{counted_in}
use trade_journal.Cache.Stream.{Streams, add, ack, arg_texts}
use trade_journal.Api.TradeHandler.{event_data, run_task, publish}
use trade_journal.Pipeline.{count_event, process_message}
use trade_journal.Pipeline.Accounting.{count_event_same}
use trade_journal.Pipeline.Answered.{IsQuiet, process_message-IsQuiet}
use trade_journal.Pipeline.Worker.{
  stream_name, group_name, read, handle, handle_all, handle_streams, after_read, pause, loop,
}
use trade_journal.Pipeline.Worker.Order.{unread_of, handle_streams-unread, handle_streams_all}
use trade_journal.Pipeline.Worker.Confirming.{Answers, read-Answers}
use trade_journal.Pipeline.Worker.Totals.{read_frame}
use trade_journal.Pipeline.Worker.Published.{published_as, counts_for, handle_counts}

module _ {p : Platform} (laws : GroupLaws p) where
  -- A quiet world with nothing to be given, and these tables.
  record IsIdle (w v : World p) : Type 0 where
    pub quiet : IsQuiet v
    pub unread : unread_of laws v ≡ []
    pub tables : v.db ≡ w.db

  none_given : {A : Type 0} (ms us : List Message) → 1 ≤ length ms → [] ≡ ms ++ us → A
  none_given [] us some_read e = absurd (omega (arith, some_read))
  none_given (m ∷ ms) us some_read e = cc

  after_read-IsIdle :
      (next retry : World p → World p) (w u : World p)
      → ((v : World p) → IsIdle w v → (retry v).db ≡ w.db)
      → IsIdle w u
      → (x : Result Streams × World p) → read u ≡ x
      → Answers laws u x
      → (after_read next retry x).db ≡ w.db
  after_read-IsIdle next retry w u on_retry h (err e, v) is_read (q, none_left, same) =
      on_retry v (record {
        quiet = q;
        unread = ap (λ r. laws.unread r stream_name group_name) same ∙ none_left;
        tables = read_frame u v _ is_read ∙ h.tables;
      })
  after_read-IsIdle next retry w u on_retry h (ok streams, v) is_read (q, some_read, given, owed) =
      none_given (messages streams) (unread_of laws v) some_read (sym h.unread ∙ given)

  loop-IsIdle : (n : ℕ) (w u : World p) → IsIdle w u → (loop n u).db ≡ w.db
  unfolding loop
  loop-IsIdle zero w u h = h.tables
  loop-IsIdle (suc zero) w u h =
      after_read-IsIdle (λ v. v) (λ v. v) w u (λ v k. k.tables) h (read u) refl
        (read-Answers laws u h.quiet)
  loop-IsIdle (suc (suc n)) w u h =
      after_read-IsIdle (loop (suc n)) (λ v. loop n (pause v)) w u
        (λ v k.
          loop-IsIdle n w (pause v)
            (record { quiet = k.quiet; unread = k.unread; tables = k.tables }))
        h (read u) refl (read-Answers laws u h.quiet)

  only_one :
      (m : Message) (ms us : List Message)
      → 1 ≤ length ms
      → m ∷ [] ≡ ms ++ us
      → (ms ≡ m ∷ []) × (us ≡ [])
  only_one m [] us some_read e = absurd (omega (arith, some_read))
  only_one m (x ∷ []) us some_read e = (cc, cc)
  only_one m (x ∷ y ∷ ms) us some_read e = cc

  handle-IsQuiet : (m : Message) (v : World p) → IsQuiet v → IsQuiet (handle m v)
  unfolding handle ack
  handle-IsQuiet m v q =
      let quiet = process_message-IsQuiet m.values v q in
      subst (λ x. IsQuiet x.1) (sym (call_answered _ (process_message m.values v) quiet)) quiet

  -- The tables of a world are those after a message was handled in a quiet world.
  abbrev Delivers : World p → Message → World p → Type 0
  Delivers w m u = (v : World p) × (v.db ≡ w.db) × IsQuiet v × (u.db ≡ (handle m v).db)

  after_read-Delivers :
      (next retry : World p → World p) (w : World p) (m : Message)
      → ((v u : World p) → IsIdle v u → (next u).db ≡ v.db)
      → unread_of laws w ≡ m ∷ []
      → (x : Result Streams × World p) → read w ≡ x
      → Answers laws w x
      → Delivers w m (after_read next retry x)
  unfolding handle_all
  after_read-Delivers next retry w m on_next one (err e, v) is_read (q, none_left, same) =
      let never : ◌≡◌ {A = List Message} [] (m ∷ []) = sym none_left ∙ one in cc
  after_read-Delivers next retry w m on_next one (ok streams, v) is_read
        (q, some_read, given, owed) =
      let (ms, us) = only_one m (messages streams) (unread_of laws v) some_read (sym one ∙ given) in
      let handled : handle_streams streams v ≡ handle m v =
        handle_streams_all streams v ∙ ap (λ xs. handle_all xs v) ms in
      let idle : IsIdle (handle m v) (handle_streams streams v) = record {
        quiet = subst IsQuiet (sym handled) (handle-IsQuiet m v q);
        unread = handle_streams-unread laws streams v ∙ us;
        tables = ap (λ (u : World p). u.db) handled;
      } in
      (v, read_frame w v _ is_read, q, on_next (handle m v) (handle_streams streams v) idle)

  loop-Delivers :
      (n : ℕ) (w : World p) (m : Message)
      → IsQuiet w
      → unread_of laws w ≡ m ∷ []
      → Delivers w m (loop (suc n) w)
  unfolding loop
  loop-Delivers zero w m q one =
      after_read-Delivers (λ v. v) (λ v. v) w m (λ v u k. k.tables) one (read w) refl
        (read-Answers laws w q)
  loop-Delivers (suc n) w m q one =
      after_read-Delivers (loop (suc n)) (λ v. loop n (pause v)) w m (loop-IsIdle (suc n)) one
        (read w) refl (read-Answers laws w q)

-- A trade that is published while every call is answered, to a group that has been given all before,
-- is counted by the worker whose context lasts for one test or more: in the bucket of the trade's
-- user and the hour of its entry the trades grow by one, the wins by one if its outcome is a win,
-- the losses by one otherwise, the revenge trades by one if it is flagged, and no other bucket
-- changes in these, provided that the statement that counts it is accepted.
pub loop_counts :
    {p : Platform} (groups : GroupLaws p) (texts : TextLaws p) (t : Trade p) (c : Counter)
    (q : Time → String → Bool) (u : String) (n : ℕ) (w : World p)
    → w.schedule ≡ []
    → unread_of groups w ≡ []
    → t.status ≡ "closed"
    → p.uuid t.user_id ≡ some u
    → (count_event (arg_texts p (event_data t)) (truncate t.entry_at hour) w).0 ≡ ok tt
    → counted_in c q (loop (suc n) (run_task (publish (event_data t)) w)).db
      ≡ counted_in c q w.db
        + (if q (p.timestamp (truncate t.entry_at hour)) u then counts_for t c else 0)
unfolding run_task add
loop_counts {p} groups texts t c q u n w quiet given closed known accepted =
    let sent : run_task (publish (event_data t)) w
        ≡ record w { redis = p.xadd w.redis stream_name (arg_texts p (event_data t)) } =
      ap (λ x. x.1) (call_answered _ w quiet) in
    let m = groups.added w.redis stream_name (arg_texts p (event_data t)) in
    let entry : m ≡ published_as texts t m.id = λ i. record {
      id = m.id;
      values = groups.added_values w.redis stream_name (arg_texts p (event_data t)) i;
    } in
    let one : unread_of groups
          (record w { redis = p.xadd w.redis stream_name (arg_texts p (event_data t)) })
        ≡ published_as texts t m.id ∷ [] =
      groups.add_unread w.redis stream_name group_name (arg_texts p (event_data t))
      ∙ ap (λ us. us ++ (m ∷ [])) given
      ∙ ap (λ x. x ∷ []) entry in
    let (v, same, calm, handled) =
      loop-Delivers groups n
        (record w { redis = p.xadd w.redis stream_name (arg_texts p (event_data t)) })
        (published_as texts t m.id) quiet one in
    let still_accepted =
      count_event_same (arg_texts p (event_data t)) (truncate t.entry_at hour) v w calm quiet same
      ∙ accepted in
    ap (λ x. counted_in c q (loop (suc n) x).db) sent
    ∙ ap (counted_in c q) handled
    ∙ handle_counts texts t c q m.id u v closed known still_accepted
    ∙ ap
        (λ d.
          counted_in c q d
          + (if q (p.timestamp (truncate t.entry_at hour)) u then counts_for t c else 0))
        same

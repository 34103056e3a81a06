-- ===== src/Pipeline/Worker/Published.antt =====
-- What becomes of a trade that the API has published.
use trade_journal.Prelude.{
  ℕ, Option, none, not, holds_text, ◌+◌, ◌-◌, ◌*◌, ◌%◌, ◌/◌, String, ◌≡◌, refl, ap, ◌∙◌, Bool, true,
  some, arith, if◌then◌else◌, ◌==◌, ok, eq_iff,
}
use trade_journal.Prelude.Time.{Time, second, hour, truncate}
use trade_journal.Platform.{Platform, Message}
use trade_journal.Platform.Laws.{TextLaws}
use trade_journal.Domain.Trade.{Trade}
use trade_journal.Store.World.{World}
use trade_journal.Store.World.Frames.{command_frame}
use trade_journal.Store.Metrics.Counter.{Counter, choose}
use trade_journal.Store.Metrics.Sums.{counted_in}
use trade_journal.Api.TradeHandler.{event_data}
use trade_journal.Cache.Stream.{ack, arg_texts}
use trade_journal.Pipeline.{one_if, or_zero, field, count_event, process_message}
use trade_journal.Pipeline.Accounting.{adds, process_message_counts}
use trade_journal.Pipeline.Effects.{bucket_of}
use trade_journal.Pipeline.Events.{event_data-Reads}
use trade_journal.Pipeline.Worker.{handle}

-- Whole seconds do not change the hour.
truncate-second : (t : Time) → truncate (t - t % second) hour ≡ truncate t hour
truncate-second t =
    let seconds : t - t % second ≡ (t / second) * second = omega arith in omega arith

-- What a closed trade counts for; one without an outcome is a loss.
abbrev pub counts_for : {p : Platform} → Trade p → Counter → ℕ
counts_for t c =
    let won = holds_text t.outcome "win" in
    choose c 1 (one_if won) (one_if (not won)) (one_if t.revenge_flag)

module _ {p : Platform} (laws : TextLaws p) (t : Trade p) where
  -- The entry of the stream for a trade.
  abbrev pub published_as : String → Message
  published_as id = record { id = id; values = arg_texts p (event_data t) }

  adds_published : (c : Counter) → adds c (arg_texts p (event_data t)) ≡ counts_for t c
  adds_published c =
      let read = event_data-Reads laws t in
      rw (read.outcome, read.revenge_flag) (by_outcome t.outcome)
    where
      by_outcome :
          (o : Option String)
          → choose c 1
              (one_if (or_zero "" o == "win"))
              (one_if (not (or_zero "" o == "win")))
              (one_if t.revenge_flag)
            ≡ choose c 1
                (one_if (holds_text o "win"))
                (one_if (not (holds_text o "win")))
                (one_if t.revenge_flag)
      by_outcome none = refl
      by_outcome (some s) = refl

  bucket_published : bucket_of p (arg_texts p (event_data t)) ≡ truncate t.entry_at hour
  bucket_published =
      let read = event_data-Reads laws t in rw read.entry_at (truncate-second t.entry_at)

  -- A closed trade that the API publishes is counted by the worker that is given its event and whose
  -- first statement succeeds: exactly what it counts for is added to the bucket of the trade's user
  -- and of the hour of its entry, and nothing to any other, whichever of the other calls fail.
  pub handle_counts :
      (c : Counter) (q : Time → String → Bool) (id u : String) (w : World p)
      → t.status ≡ "closed"
      → p.uuid t.user_id ≡ some u
      → (count_event (arg_texts p (event_data t)) (truncate t.entry_at hour) w).0 ≡ ok tt
      → counted_in c q (handle (published_as id) w).db
        ≡ counted_in c q w.db
          + (if q (p.timestamp (truncate t.entry_at hour)) u then counts_for t c else 0)
  unfolding handle ack
  handle_counts c q id u w closed known done =
      let values = arg_texts p (event_data t) in
      let read = event_data-Reads laws t in
      let is_closed : (field values "status" == "closed") ≡ true =
        (eq_iff (field values "status") "closed").1 (read.status ∙ closed) in
      let owner : p.uuid (field values "userId") ≡ some u = ap p.uuid read.user_id ∙ known in
      let counts =
        process_message_counts c q values u w is_closed owner
          (ap (λ b. (count_event values b w).0) bucket_published ∙ done) in
      ap (counted_in c q) (command_frame _ (process_message values w))
      ∙ counts
      ∙ ap (λ b. counted_in c q w.db + (if q (p.timestamp b) u then adds c values else 0))
          bucket_published
      ∙ ap
          (λ k.
            counted_in c q w.db + (if q (p.timestamp (truncate t.entry_at hour)) u then k else 0))
          (adds_published c)

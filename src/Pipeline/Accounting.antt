-- ===== src/Pipeline/Accounting.antt =====
-- What an event adds to the counters of the buckets.
use trade_journal.Prelude.{
  ℕ, ◌+◌, some, String, Bool, true, if◌then◌else◌, ok, ◌==◌, not, ◌||◌, ◌≡◌, refl, ap, ◌∙◌, none,
  arith, inl, inr, [],
}
use trade_journal.Prelude.Time.{Time}
use trade_journal.Platform.{Platform}
use trade_journal.Domain.Enums.{outcome_win}
use trade_journal.Store.World.{World}
use trade_journal.Store.World.Frames.{query_frame, command_frame}
use trade_journal.Store.Analytics.{
  get_last_plan_adherence_ratings, get_session_tilt_data, select_ratings, select_tilt,
}
use trade_journal.Store.Metrics.Counter.{Counter, trades, wins, losses, revenges, choose}
use trade_journal.Store.Metrics.Sums.{sum_in, counted_in}
use trade_journal.Store.Metrics.Totals.{
  Adds, upsert_bucket-Adds, upsert_bucket_counts, upsert_bucket_same,
}
use trade_journal.Store.Metrics.Spares.{
  upsert_emotion_win_rate_frame, insert_overtrading_event_frame,
}
use trade_journal.Cache.Window.{overtrading_check}
use trade_journal.Pipeline.{
  Fields, field, one_if, pnl_of, count_event, count_trade, process_message,
}
use trade_journal.Pipeline.Effects.{
  Quiet, still, averaged, emotion, reported, ratings, tilt, window, process_message-Quiet,
  closed-Quiet, bucket_of,
}

choose_zero : (c : Counter) → choose c 0 0 0 0 ≡ 0
choose_zero trades = refl
choose_zero wins = refl
choose_zero losses = refl
choose_zero revenges = refl

-- What a closed event counts for: a trade, which is a win or a loss, and perhaps for revenge.
abbrev pub adds : Counter → Fields → ℕ
adds c values =
    let won = field values "outcome" == outcome_win in
    let flag = field values "revengeFlag" in
    choose c 1 (one_if won) (one_if (not won)) (one_if (flag == "true" || flag == "1"))

module _ {p : Platform} where
  Quiet-counted :
      (c : Counter) (q : Time → String → Bool) {w v : World p}
      → Quiet w v
      → counted_in c q v.db ≡ counted_in c q w.db
  unfolding get_last_plan_adherence_ratings get_session_tilt_data overtrading_check
  Quiet-counted c q still = refl
  Quiet-counted c q (averaged {v} user bucket avg index k) =
      let none_more = upsert_bucket-Adds c q user bucket 0 0 0 p.dec_zero avg index 0 0 v in
      let nothing = choose_zero c in
      omega (arith, none_more.0, none_more.1, nothing, Quiet-counted c q k)
  Quiet-counted c q (emotion {v} user state day won lost k) =
      ap (sum_in c q) (upsert_emotion_win_rate_frame user state day won lost v)
      ∙ Quiet-counted c q k
  Quiet-counted c q (reported {v} user start count k) =
      ap (sum_in c q) (insert_overtrading_event_frame user start count v) ∙ Quiet-counted c q k
  Quiet-counted c q (ratings {v} user limit k) =
      ap (counted_in c q) (query_frame (select_ratings user limit) v) ∙ Quiet-counted c q k
  Quiet-counted c q (tilt {v} session k) =
      ap (counted_in c q) (query_frame (select_tilt session) v) ∙ Quiet-counted c q k
  Quiet-counted c q (window {v} key now_ms id window_ms k) =
      ap (counted_in c q) (command_frame _ v) ∙ Quiet-counted c q k

  count_trade-Adds :
      (q : Time → String → Bool) (values : Fields) (bucket : Time) (w : World p)
      → Adds trades q 1 w.db (count_trade values bucket w).db
  unfolding count_trade
  count_trade-Adds q values bucket w =
      let won = field values "outcome" == outcome_win in
      let flag = field values "revengeFlag" in
      upsert_bucket-Adds trades q (field values "userId") bucket 1 (one_if won) (one_if (not won))
        (pnl_of p (field values "pnl")) none none (one_if (flag == "true" || flag == "1")) 0 w

  -- Whichever calls fail, an event adds at most one trade to those that the buckets count, and takes
  -- none away.
  pub process_message-Adds :
      (q : Time → String → Bool) (values : Fields) (w : World p)
      → Adds trades q 1 w.db (process_message values w).db
  process_message-Adds q values w = elim (process_message-Quiet values w) [
    | inl same ↦ rw same (omega arith, omega arith)
    | inr k ↦
        let one_more = count_trade-Adds q values (bucket_of p values) w in
        (
          omega (arith, Quiet-counted trades q k, one_more.0),
          omega (arith, Quiet-counted trades q k, one_more.1),
        )
  ]

  -- In a quiet world the first statement's reply depends on the tables alone.
  pub count_event_same :
      (values : Fields) (bucket : Time) (v w : World p)
      → v.schedule ≡ []
      → w.schedule ≡ []
      → v.db ≡ w.db
      → (count_event values bucket v).0 ≡ (count_event values bucket w).0
  count_event_same values bucket =
      let won = field values "outcome" == outcome_win in
      let flag = field values "revengeFlag" in
      upsert_bucket_same (field values "userId") bucket 1 (one_if won) (one_if (not won))
        (pnl_of p (field values "pnl")) none none (one_if (flag == "true" || flag == "1")) 0

  count_trade_counts :
      (c : Counter) (q : Time → String → Bool) (values : Fields) (bucket : Time) (u : String)
      (w : World p)
      → p.uuid (field values "userId") ≡ some u
      → (count_event values bucket w).0 ≡ ok tt
      → counted_in c q (count_trade values bucket w).db
        ≡ counted_in c q w.db + (if q (p.timestamp bucket) u then adds c values else 0)
  unfolding count_trade
  count_trade_counts c q values bucket u w known done =
      let won = field values "outcome" == outcome_win in
      let flag = field values "revengeFlag" in
      upsert_bucket_counts c q (field values "userId") u bucket 1 (one_if won) (one_if (not won))
        (pnl_of p (field values "pnl")) none none (one_if (flag == "true" || flag == "1")) 0 w known
        done

  -- A closed event whose trade is counted, that is, whose first statement succeeds, adds exactly what
  -- it counts for to the bucket of its user and of the hour of its entry, and nothing to any other,
  -- whichever of the other calls fail.
  pub process_message_counts :
      (c : Counter) (q : Time → String → Bool) (values : Fields) (u : String) (w : World p)
      → (field values "status" == "closed") ≡ true
      → p.uuid (field values "userId") ≡ some u
      → (count_event values (bucket_of p values) w).0 ≡ ok tt
      → counted_in c q (process_message values w).db
        ≡ counted_in c q w.db
          + (if q (p.timestamp (bucket_of p values)) u then adds c values else 0)
  process_message_counts c q values u w closed known done =
      Quiet-counted c q (closed-Quiet values w closed)
      ∙ count_trade_counts c q values (bucket_of p values) u w known done

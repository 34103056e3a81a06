-- ===== src/Pipeline/Balance.antt =====
-- The worker keeps the counts of every bucket balanced.
use trade_journal.Prelude.{
  inl, inr, ◌+◌, ◌≤◌, ◌≡◌, sym, subst, Bool, true, false, not, ◌||◌, arith, ◌==◌, none,
}
use trade_journal.Prelude.Time.{Time}
use trade_journal.Platform.{Platform}
use trade_journal.Store.World.{World}
use trade_journal.Store.World.Frames.{query_frame, command_frame}
use trade_journal.Store.Analytics.{
  select_ratings, get_last_plan_adherence_ratings, select_tilt, get_session_tilt_data,
}
use trade_journal.Store.Metrics.{upsert_emotion_win_rate, insert_overtrading_event}
use trade_journal.Store.Metrics.Counts.{AreBalanced, upsert_bucket-IsBalanced}
use trade_journal.Store.Metrics.Spares.{
  upsert_emotion_win_rate_frame, insert_overtrading_event_frame,
}
use trade_journal.Cache.Window.{overtrading_check}
use trade_journal.Pipeline.Effects.{
  Quiet, still, averaged, emotion, reported, ratings, tilt, window, bucket_of,
  process_message-Quiet,
}
use trade_journal.Pipeline.{Fields, field, one_if, count_trade, process_message}

one_if_split : (b : Bool) → 1 ≡ one_if b + one_if (not b)
one_if_split true = omega arith
one_if_split false = omega arith

one_if-le : (b : Bool) → one_if b ≤ 1
one_if-le true = omega arith
one_if-le false = omega arith

module _ {p : Platform} where
  abbrev Keeps : World p → World p → Type 0
  Keeps w v = AreBalanced w.db → AreBalanced v.db

  same_metrics : (w v : World p) → v.db.behavioral_metrics ≡ w.db.behavioral_metrics → Keeps w v
  same_metrics w v e h = rw e h

  count_trade-Keeps :
      (values : Fields) (bucket : Time) (w : World p) → Keeps w (count_trade values bucket w)
  unfolding count_trade
  count_trade-Keeps values bucket w =
      upsert_bucket-IsBalanced (field values "userId") bucket 1 _ _ _ none none _ w
        (one_if_split (field values "outcome" == "win"))
        (one_if-le (field values "revengeFlag" == "true" || field values "revengeFlag" == "1"))

  Quiet-AreBalanced : {w v : World p} → Quiet w v → Keeps w v
  unfolding get_last_plan_adherence_ratings get_session_tilt_data overtrading_check
  Quiet-AreBalanced still h = h
  Quiet-AreBalanced (averaged {v} user bucket avg index k) h =
      upsert_bucket-IsBalanced user bucket 0 0 0 p.dec_zero avg index 0 v (omega arith)
        (omega arith) (Quiet-AreBalanced k h)
  Quiet-AreBalanced (emotion {v} user state day wins losses k) h =
      same_metrics v (upsert_emotion_win_rate user state day wins losses v).1
        (upsert_emotion_win_rate_frame user state day wins losses v) (Quiet-AreBalanced k h)
  Quiet-AreBalanced (reported {v} user start count k) h =
      same_metrics v (insert_overtrading_event user start count v).1
        (insert_overtrading_event_frame user start count v) (Quiet-AreBalanced k h)
  Quiet-AreBalanced (ratings {v} user limit k) h =
      subst AreBalanced (sym (query_frame (select_ratings user limit) v)) (Quiet-AreBalanced k h)
  Quiet-AreBalanced (tilt {v} session k) h =
      subst AreBalanced (sym (query_frame (select_tilt session) v)) (Quiet-AreBalanced k h)
  Quiet-AreBalanced (window {v} key now_ms id window_ms k) h =
      subst AreBalanced (sym (command_frame _ v)) (Quiet-AreBalanced k h)

  -- Whatever an event holds, and whichever calls fail while it is processed, the worker leaves
  -- every row of behavioral_metrics with as many trades as wins and losses together, no more
  -- revenge trades than trades, and 0 in the column overtrading_events.
  pub process_message-AreBalanced :
      (values : Fields) (w : World p) → AreBalanced w.db → AreBalanced (process_message values w).db
  process_message-AreBalanced values w h = elim (process_message-Quiet values w) [
    | inl same ↦ rw same h
    | inr k ↦ Quiet-AreBalanced k (count_trade-Keeps values (bucket_of p values) w h)
  ]

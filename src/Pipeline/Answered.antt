-- ===== src/Pipeline/Answered.antt =====
-- While every call is answered, the processing of an event leaves no fault ahead.
use trade_journal.Prelude.{◌≡◌, sym, subst, [], Result, inl, inr}
use trade_journal.Prelude.Time.{Time}
use trade_journal.Platform.{Platform}
use trade_journal.Store.Tables.{Db}
use trade_journal.Store.World.{World, call, statement}
use trade_journal.Store.World.Frames.{call_answered}
use trade_journal.Store.Analytics.{get_last_plan_adherence_ratings, get_session_tilt_data}
use trade_journal.Store.Metrics.{upsert_bucket, upsert_emotion_win_rate, insert_overtrading_event}
use trade_journal.Cache.Window.{overtrading_check}
use trade_journal.Pipeline.{Fields, count_trade, process_message}
use trade_journal.Pipeline.Effects.{
  Quiet, still, averaged, emotion, reported, ratings, tilt, window, process_message-Quiet,
}

module _ {p : Platform} where
  abbrev pub IsQuiet : World p → Type 0
  IsQuiet w = w.schedule ≡ []

  -- With no fault ahead a call is its body, which leaves the schedule alone.
  statement-IsQuiet :
      {A : Type 0} (f : Time → Db p → Result A × Db p) (w : World p)
      → IsQuiet w
      → IsQuiet (call (statement f) w).1
  statement-IsQuiet f w q = subst (λ x. IsQuiet x.1) (sym (call_answered (statement f) w q)) q

  Quiet-IsQuiet : {w v : World p} → Quiet w v → IsQuiet w → IsQuiet v
  unfolding upsert_bucket upsert_emotion_win_rate insert_overtrading_event
      get_last_plan_adherence_ratings get_session_tilt_data overtrading_check
  Quiet-IsQuiet still q = q
  Quiet-IsQuiet (averaged _ _ _ _ k) q = statement-IsQuiet _ _ (Quiet-IsQuiet k q)
  Quiet-IsQuiet (emotion _ _ _ _ _ k) q = statement-IsQuiet _ _ (Quiet-IsQuiet k q)
  Quiet-IsQuiet (reported _ _ _ k) q = statement-IsQuiet _ _ (Quiet-IsQuiet k q)
  Quiet-IsQuiet (ratings _ _ k) q = statement-IsQuiet _ _ (Quiet-IsQuiet k q)
  Quiet-IsQuiet (tilt _ k) q = statement-IsQuiet _ _ (Quiet-IsQuiet k q)
  Quiet-IsQuiet (window key now_ms id window_ms k) q =
      let quiet = Quiet-IsQuiet k q in
      subst (λ x. IsQuiet x.1) (sym (call_answered _ _ quiet)) quiet

  pub process_message-IsQuiet :
      (values : Fields) (w : World p) → IsQuiet w → IsQuiet (process_message values w)
  unfolding count_trade upsert_bucket
  process_message-IsQuiet values w q = elim (process_message-Quiet values w) [
    | inl same ↦ rw same q
    | inr k ↦ Quiet-IsQuiet k (statement-IsQuiet _ w q)
  ]

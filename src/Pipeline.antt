-- ===== src/Pipeline.antt =====
-- internal/pipeline/worker.go: what the worker does for one event of the stream.
pub mod Accounting
pub mod Frames
pub mod Detection
pub mod Adherence
pub mod Answered
pub mod Balance
pub mod Effects
pub mod Events
pub mod Worker
use trade_journal.Prelude.{
  ℕ, String, Bool, true, false, not, ◌||◌, Option, none, some, List, [], ◌∷◌, ltb, if◌then◌else◌,
  ◌==◌, ◌*◌, Result, ok, err,
}
use trade_journal.Prelude.Int.{ℤ, pos, ◌-ℤ◌}
use trade_journal.Prelude.Time.{Time, hour, truncate, unix_milli, from_unix_milli}
use trade_journal.Platform.{Platform}
use trade_journal.Domain.Averages.{rolling_avg, session_tilt_index}
use trade_journal.Domain.Enums.{outcome_win}
use trade_journal.Domain.Overtrading.{max_trades_per_window, window_duration_ms}
use trade_journal.Cache.Window.{trades_key, overtrading_check}
use trade_journal.Store.Analytics.{get_last_plan_adherence_ratings, get_session_tilt_data}
use trade_journal.Store.Metrics.{upsert_bucket, upsert_emotion_win_rate, insert_overtrading_event}
use trade_journal.Store.World.{World, Call}

-- The values of a message: every field of a stream entry is a text.
abbrev pub Fields : Type 0
Fields = List (String × String)

-- `str(values, key)`: the empty text for a field that is not there.
unfoldable pub field : Fields → String → String
field [] key = ""
field ((k, v) ∷ values) key = if k == key then v else field values key

abbrev pub one_if : Bool → ℕ
one_if b = if b then 1 else 0

-- `v, _ := …`: the zero value on an error
abbrev pub or_zero : {A : Type 0} → A → Option A → A
or_zero zero none = zero
or_zero zero (some a) = a

-- `pnl`, and the zero decimal where the text is empty or no number
unfoldable pub pnl_of : (p : Platform) → String → p.Decimal
pnl_of p text = if text == "" then p.dec_zero else or_zero p.dec_zero (p.dec_parse text)

module _ {p : Platform} where
  -- 1. The trade is counted in its bucket; an error is logged only.
  abbrev pub count_event : Fields → Time → Call p (Unit {0})
  count_event values bucket =
      let won = field values "outcome" == outcome_win in
      let flag = field values "revengeFlag" in
      upsert_bucket (field values "userId") bucket 1 (one_if won) (one_if (not won))
        (pnl_of p (field values "pnl")) none none (one_if (flag == "true" || flag == "1")) 0

  unfoldable pub count_trade : Fields → Time → World p → World p
  count_trade values bucket w = (count_event values bucket w).1

  abbrev set_adherence : String → Time → Result (List ℤ) × World p → World p
  set_adherence user_id bucket (err e, w) = w
  set_adherence user_id bucket (ok [], w) = w
  set_adherence user_id bucket (ok (r ∷ rs), w) =
      (upsert_bucket user_id bucket 0 0 0 p.dec_zero (some (rolling_avg p (r ∷ rs))) none 0 0 w).1

  -- 2. The rolling plan adherence, if the event has a rating.
  unfoldable pub update_adherence : Fields → Time → World p → World p
  update_adherence values bucket w =
      if field values "planAdherence" == ""
      then w
      else set_adherence (field values "userId") bucket
          (get_last_plan_adherence_ratings (field values "userId") 10 w)

  abbrev set_tilt : String → Time → Result (ℤ × ℤ) × World p → World p
  set_tilt user_id bucket (err e, w) = w
  set_tilt user_id bucket (ok (loss_follow, total), w) =
      (upsert_bucket user_id bucket 0 0 0 p.dec_zero none
        (some (session_tilt_index p loss_follow total)) 0 0 w).1

  -- 3. The session's tilt index, if the event names a session.
  unfoldable pub update_tilt : Fields → Time → World p → World p
  update_tilt values bucket w =
      if field values "sessionId" == ""
      then w
      else set_tilt (field values "userId") bucket
          (get_session_tilt_data (field values "sessionId") w)

  -- 4. The win rate of the emotional state, if the event has one.
  unfoldable pub update_emotion : Fields → Time → World p → World p
  update_emotion values entry_at w =
      let won = field values "outcome" == outcome_win in
      if field values "emotionalState" == ""
      then w
      else (upsert_emotion_win_rate (field values "userId") (field values "emotionalState")
          (truncate entry_at (24 * hour)) (one_if won) (one_if (not won)) w).1

  abbrev report_window : String → ℤ → Result ℕ × World p → World p
  report_window user_id now_ms (err e, w) = w
  report_window user_id now_ms (ok count, w) =
      if ltb max_trades_per_window count
      then (insert_overtrading_event user_id (from_unix_milli (now_ms -ℤ pos window_duration_ms))
          count w).1
      else w

  -- 5. The trades of the window are counted; more than ten are an overtrading event.
  unfoldable pub detect_overtrading : Fields → Time → World p → World p
  detect_overtrading values entry_at w =
      let now_ms = unix_milli entry_at in
      let user_id = field values "userId" in
      report_window user_id now_ms (
        overtrading_check (trades_key user_id) now_ms (field values "tradeId")
          (pos window_duration_ms) w)

  unfoldable pub process_closed : Fields → Time → World p → World p
  process_closed values entry_at w =
      let bucket = truncate entry_at hour in
      let w₁ = count_trade values bucket w in
      let w₂ = update_adherence values bucket w₁ in
      let w₃ = update_tilt values bucket w₂ in
      let w₄ = update_emotion values entry_at w₃ in detect_overtrading values entry_at w₄

  -- `processMessage`: its errors are logged, and it returns nil on every path.
  unfoldable pub process_message : Fields → World p → World p
  process_message values w =
      if field values "status" == "closed"
      then process_closed values (or_zero 0 (p.parse_time (field values "entryAt"))) w
      else w

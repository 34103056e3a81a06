-- ===== src/Pipeline/Effects.antt =====
-- What one event does: its trade is counted, and then come calls that count no trade.
use trade_journal.Prelude.{
  ℕ, ◌*◌, ltb, String, Bool, true, false, Option, none, some, List, [], ◌∷◌, if◌then◌else◌, ◌==◌,
  ◌⊎◌, inl, inr, not, Result, ok, err, ◌≡◌, refl, sym, subst, Bool-cases,
}
use trade_journal.Prelude.Int.{ℤ, pos}
use trade_journal.Prelude.Time.{Time, hour, truncate, unix_milli}
use trade_journal.Platform.{Platform}
use trade_journal.Domain.Enums.{outcome_win}
use trade_journal.Domain.Averages.{rolling_avg, session_tilt_index}
use trade_journal.Domain.Overtrading.{max_trades_per_window, window_duration_ms}
use trade_journal.Cache.Window.{trades_key, overtrading_check, window_commands}
use trade_journal.Store.World.{World}
use trade_journal.Store.World.Frames.{statement_frame, call_keeps}
use trade_journal.Store.Analytics.{get_last_plan_adherence_ratings, get_session_tilt_data}
use trade_journal.Store.Metrics.{upsert_bucket, upsert_emotion_win_rate, insert_overtrading_event}
use trade_journal.Pipeline.{
  Fields, field, one_if, or_zero, count_trade, set_adherence, update_adherence, set_tilt,
  update_tilt, update_emotion, report_window, detect_overtrading, process_closed, process_message,
}

-- The worlds that calls which count no trade lead to.
pub data Quiet {p : Platform} (w : World p) : World p → Type 0 where
  still : Quiet w w
  averaged :
      {v : World p} (user : String) (bucket : Time) (avg tilt : Option p.Float)
      → Quiet w v
      → Quiet w (upsert_bucket user bucket 0 0 0 p.dec_zero avg tilt 0 0 v).1
  emotion :
      {v : World p} (user state : String) (day : Time) (wins losses : ℕ)
      → Quiet w v
      → Quiet w (upsert_emotion_win_rate user state day wins losses v).1
  reported :
      {v : World p} (user : String) (start : Time) (count : ℕ)
      → Quiet w v
      → Quiet w (insert_overtrading_event user start count v).1
  ratings :
      {v : World p} (user : String) (limit : ℕ)
      → Quiet w v
      → Quiet w (get_last_plan_adherence_ratings user limit v).1
  tilt : {v : World p} (session : String) → Quiet w v → Quiet w (get_session_tilt_data session v).1
  window :
      {v : World p} (key : String) (now_ms : ℤ) (id : String) (window_ms : ℤ)
      → Quiet w v
      → Quiet w (overtrading_check key now_ms id window_ms v).1

module _ {p : Platform} {w : World p} where
  if_Quiet : (b : Bool) {v v' : World p} → Quiet w v → Quiet w v' → Quiet w (if b then v else v')
  if_Quiet true h k = h
  if_Quiet false h k = k

  set_adherence-Quiet :
      (user : String) (bucket : Time) (x : Result (List ℤ) × World p)
      → Quiet w x.1
      → Quiet w (set_adherence user bucket x)
  set_adherence-Quiet user bucket (err e, v) h = h
  set_adherence-Quiet user bucket (ok [], v) h = h
  set_adherence-Quiet user bucket (ok (r ∷ rs), v) h =
      averaged user bucket (some (rolling_avg p (r ∷ rs))) none h

  set_tilt-Quiet :
      (user : String) (bucket : Time) (x : Result (ℤ × ℤ) × World p)
      → Quiet w x.1
      → Quiet w (set_tilt user bucket x)
  set_tilt-Quiet user bucket (err e, v) h = h
  set_tilt-Quiet user bucket (ok (follow, total), v) h =
      averaged user bucket none (some (session_tilt_index p follow total)) h

  report_window-Quiet :
      (user : String) (now_ms : ℤ) (x : Result ℕ × World p)
      → Quiet w x.1
      → Quiet w (report_window user now_ms x)
  report_window-Quiet user now_ms (err e, v) h = h
  report_window-Quiet user now_ms (ok count, v) h =
      if_Quiet (ltb max_trades_per_window count) (reported user _ count h) h

  update_adherence-Quiet :
      (values : Fields) (bucket : Time) {v : World p}
      → Quiet w v
      → Quiet w (update_adherence values bucket v)
  unfolding update_adherence
  update_adherence-Quiet values bucket {v} h =
      let user = field values "userId" in
      if_Quiet (field values "planAdherence" == "") h (
        set_adherence-Quiet user bucket (get_last_plan_adherence_ratings user 10 v)
          (ratings user 10 h))

  update_tilt-Quiet :
      (values : Fields) (bucket : Time) {v : World p}
      → Quiet w v
      → Quiet w (update_tilt values bucket v)
  unfolding update_tilt
  update_tilt-Quiet values bucket {v} h =
      let session = field values "sessionId" in
      if_Quiet (session == "") h (
        set_tilt-Quiet (field values "userId") bucket (get_session_tilt_data session v)
          (tilt session h))

  update_emotion-Quiet :
      (values : Fields) (entry_at : Time) {v : World p}
      → Quiet w v
      → Quiet w (update_emotion values entry_at v)
  unfolding update_emotion
  update_emotion-Quiet values entry_at {v} h =
      let won = field values "outcome" == outcome_win in
      if_Quiet (field values "emotionalState" == "") h (
        emotion (field values "userId") (field values "emotionalState")
          (truncate entry_at (24 * hour)) (one_if won) (one_if (not won)) h)

  detect_overtrading-Quiet :
      (values : Fields) (entry_at : Time) {v : World p}
      → Quiet w v
      → Quiet w (detect_overtrading values entry_at v)
  unfolding detect_overtrading
  detect_overtrading-Quiet values entry_at {v} h =
      let user = field values "userId" in
      let now_ms = unix_milli entry_at in
      let id = field values "tradeId" in
      report_window-Quiet user now_ms
        (overtrading_check (trades_key user) now_ms id (pos window_duration_ms) v)
        (window (trades_key user) now_ms id (pos window_duration_ms) h)

abbrev pub bucket_of : (p : Platform) → Fields → Time
bucket_of p values = truncate (or_zero 0 (p.parse_time (field values "entryAt"))) hour

process_closed-Quiet :
    {p : Platform} (values : Fields) (entry_at : Time) (w : World p)
    → Quiet (count_trade values (truncate entry_at hour) w) (process_closed values entry_at w)
unfolding process_closed
process_closed-Quiet values entry_at w = detect_overtrading-Quiet values entry_at (
    update_emotion-Quiet values entry_at
      (update_tilt-Quiet values _ (update_adherence-Quiet values _ still)))

-- A closed event leads from the world in which its trade is counted to its outcome.
pub closed-Quiet :
    {p : Platform} (values : Fields) (w : World p)
    → (field values "status" == "closed") ≡ true
    → Quiet (count_trade values (bucket_of p values) w) (process_message values w)
unfolding process_message
closed-Quiet values w closed = rw closed (process_closed-Quiet values _ w)

-- An event that is not closed changes nothing; a closed one leads from the world in which its
-- trade is counted to its outcome.
pub process_message-Quiet :
    {p : Platform} (values : Fields) (w : World p)
    → (process_message values w ≡ w)
      ⊎ Quiet (count_trade values (bucket_of p values) w) (process_message values w)
unfolding process_message
process_message-Quiet {p} values w = elim (Bool-cases (field values "status" == "closed")) [
  | inl closed ↦ inr (closed-Quiet values w closed)
  | inr other ↦ inl (rw other refl)
]

-- A property of the Redis data that the commands of the window keep is kept.
module _ {p : Platform} (Q : p.Redis → Type 0)
    (keeps : (r : p.Redis) (key id : String) (now_ms window_ms : ℤ)
      → Q r
      → Q (window_commands p key now_ms id window_ms r).1) where
  Quiet-redis : {w v : World p} → Quiet w v → Q w.redis → Q v.redis
  unfolding upsert_bucket upsert_emotion_win_rate insert_overtrading_event
      get_last_plan_adherence_ratings get_session_tilt_data overtrading_check
  Quiet-redis still h = h
  Quiet-redis (averaged _ _ _ _ k) h = subst Q (sym (statement_frame _ _)) (Quiet-redis k h)
  Quiet-redis (emotion _ _ _ _ _ k) h = subst Q (sym (statement_frame _ _)) (Quiet-redis k h)
  Quiet-redis (reported _ _ _ k) h = subst Q (sym (statement_frame _ _)) (Quiet-redis k h)
  Quiet-redis (ratings _ _ k) h = subst Q (sym (statement_frame _ _)) (Quiet-redis k h)
  Quiet-redis (tilt _ k) h = subst Q (sym (statement_frame _ _)) (Quiet-redis k h)
  Quiet-redis (window key now_ms id window_ms k) h =
      call_keeps (λ v. Q v.redis) _ (λ v. keeps v.redis key id now_ms window_ms) (λ v s h. h) _
        (Quiet-redis k h)

  pub process_message-redis :
      (values : Fields) (w : World p) → Q w.redis → Q (process_message values w).redis
  unfolding count_trade upsert_bucket
  process_message-redis values w h = elim (process_message-Quiet values w) [
    | inl same ↦ rw same h
    | inr k ↦ Quiet-redis k (subst Q (sym (statement_frame _ w)) h)
  ]

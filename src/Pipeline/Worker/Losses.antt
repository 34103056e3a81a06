-- ===== src/Pipeline/Worker/Losses.antt =====
-- A message is confirmed also when its processing has failed.
use trade_journal.Prelude.{
  ℕ, zero, suc, String, ◌≡◌, refl, ap, true, List, [], ◌∷◌, if◌then◌else◌, ◌==◌, Bool-cases, inl,
  inr, ◌∙◌, select, not,
}
use trade_journal.Prelude.Time.{Time, hour, truncate}
use trade_journal.Platform.{Platform, Message}
use trade_journal.Platform.Laws.{GroupLaws}
use trade_journal.Store.World.{World, Fault, refused, call, call_with}
use trade_journal.Store.Analytics.{get_last_plan_adherence_ratings, get_session_tilt_data}
use trade_journal.Store.Metrics.{upsert_bucket, upsert_emotion_win_rate}
use trade_journal.Cache.Window.{overtrading_check}
use trade_journal.Cache.Stream.{ack}
use trade_journal.Pipeline.{
  Fields, field, count_trade, update_adherence, update_tilt, update_emotion, detect_overtrading,
  process_closed, process_message,
}
use trade_journal.Pipeline.Worker.{stream_name, group_name, handle}

-- The next calls are refused, those behind them are answered.
abbrev pub refusals : ℕ → List Fault
refusals zero = []
refusals (suc n) = refused ∷ refusals n

abbrev pub failing : {p : Platform} → World p → ℕ → World p
failing w n = record w { schedule = refusals n }

-- One call more, unless the field is empty.
abbrev unless_empty : String → ℕ → ℕ
unless_empty s n = if s == "" then n else suc n

-- The calls that the processing of a closed event makes.
abbrev pub calls_of : Fields → ℕ
calls_of values = suc (
    unless_empty (field values "planAdherence")
      (unless_empty (field values "sessionId") (unless_empty (field values "emotionalState") 1)))

module _ {p : Platform} (values : Fields) (w : World p) where
  count_trade_refused :
      (bucket : Time) (n : ℕ) → count_trade values bucket (failing w (suc n)) ≡ failing w n
  unfolding count_trade upsert_bucket call call_with
  count_trade_refused bucket n = refl

  update_adherence_refused :
      (bucket : Time) (n : ℕ)
      → update_adherence values bucket (failing w (unless_empty (field values "planAdherence") n))
        ≡ failing w n
  unfolding update_adherence get_last_plan_adherence_ratings call call_with
  update_adherence_refused bucket n = elim (Bool-cases (field values "planAdherence" == "")) [
    | inl e ↦ rw e refl
    | inr e ↦ rw e refl
  ]

  update_tilt_refused :
      (bucket : Time) (n : ℕ)
      → update_tilt values bucket (failing w (unless_empty (field values "sessionId") n))
        ≡ failing w n
  unfolding update_tilt get_session_tilt_data call call_with
  update_tilt_refused bucket n = elim (Bool-cases (field values "sessionId" == "")) [
    | inl e ↦ rw e refl
    | inr e ↦ rw e refl
  ]

  update_emotion_refused :
      (entry_at : Time) (n : ℕ)
      → update_emotion values entry_at (failing w (unless_empty (field values "emotionalState") n))
        ≡ failing w n
  unfolding update_emotion upsert_emotion_win_rate call call_with
  update_emotion_refused entry_at n = elim (Bool-cases (field values "emotionalState" == "")) [
    | inl e ↦ rw e refl
    | inr e ↦ rw e refl
  ]

  detect_overtrading_refused :
      (entry_at : Time) → detect_overtrading values entry_at (failing w 1) ≡ failing w 0
  unfolding detect_overtrading overtrading_check call call_with
  detect_overtrading_refused entry_at = refl

  process_closed_refused :
      (entry_at : Time) → process_closed values entry_at (failing w (calls_of values)) ≡ failing w 0
  unfolding process_closed
  process_closed_refused entry_at =
      let bucket = truncate entry_at hour in
      let emotions = unless_empty (field values "emotionalState") 1 in
      let sessions = unless_empty (field values "sessionId") emotions in
      rw
        (
          count_trade_refused bucket (unless_empty (field values "planAdherence") sessions),
          update_adherence_refused bucket sessions,
          update_tilt_refused bucket emotions,
          update_emotion_refused entry_at 1,
        )
        (detect_overtrading_refused entry_at)

  process_message_refused :
      (field values "status" == "closed") ≡ true
      → process_message values (failing w (calls_of values)) ≡ failing w 0
  unfolding process_message
  process_message_refused closed = rw closed (process_closed_refused _)

-- When the calls that the processing of a closed event makes are refused, and the confirmation is
-- answered, nothing has happened but that the message is confirmed: no table has changed, the group
-- is not owed the message any more, and what it has yet to be given is as before. So the event is
-- counted nowhere, and it is neither pending nor, unless it was before, among the messages to come.
pub handle_forgets :
    {p : Platform} (laws : GroupLaws p) (m : Message) (w : World p)
    → (field m.values "status" == "closed") ≡ true
    → let v = handle m (failing w (calls_of m.values)) in
      let group : World p → List Message = λ u. laws.unread u.redis stream_name group_name in
      let owed : World p → List String = λ u. laws.pending u.redis stream_name group_name in
      (v ≡ record (failing w 0) { redis = p.xack w.redis stream_name group_name m.id })
      × (group v ≡ group w)
      × (owed v ≡ select (λ i. not (i == m.id)) (owed w))
unfolding handle ack call call_with
handle_forgets laws m w closed =
    let forgotten =
      ap (λ v. (ack stream_name group_name m.id v).1) (process_message_refused m.values w closed) in
    (
      forgotten,
      ap (λ u. laws.unread u.redis stream_name group_name) forgotten
          ∙ laws.ack_unread w.redis stream_name group_name m.id,
      ap (λ u. laws.pending u.redis stream_name group_name) forgotten
          ∙ laws.ack_pending w.redis stream_name group_name m.id,
    )

-- ===== src/Pipeline/Frames.antt =====
-- What the steps of an event leave alone, of what the detection of overtrading reads and writes.
use trade_journal.Prelude.{
  String, Bool, true, false, none, some, List, [], ◌∷◌, if◌then◌else◌, ◌==◌, Result, ok, err, refl,
}
use trade_journal.Prelude.Int.{ℤ}
use trade_journal.Prelude.Time.{Time}
use trade_journal.Platform.{Platform}
use trade_journal.Domain.Averages.{rolling_avg, session_tilt_index}
use trade_journal.Store.Analytics.{get_last_plan_adherence_ratings, get_session_tilt_data}
use trade_journal.Store.Metrics.Spares.{
  IsSame, statement-IsSame, upsert_bucket-IsSame, upsert_emotion-IsSame,
}
use trade_journal.Store.World.{World}
use trade_journal.Pipeline.{
  Fields, field, count_trade, set_adherence, update_adherence, set_tilt, update_tilt,
  update_emotion,
}

module _ {p : Platform} {w : World p} where
  if_IsSame :
      (b : Bool) {v v' : World p} → IsSame w v → IsSame w v' → IsSame w (if b then v else v')
  if_IsSame true h k = h
  if_IsSame false h k = k

  pub count_trade-IsSame :
      (values : Fields) (bucket : Time) {v : World p}
      → IsSame w v
      → IsSame w (count_trade values bucket v)
  unfolding count_trade
  count_trade-IsSame values bucket h = upsert_bucket-IsSame _ _ _ _ _ _ _ _ _ _ _ h

  set_adherence-IsSame :
      (user : String) (bucket : Time) (x : Result (List ℤ) × World p)
      → IsSame w x.1
      → IsSame w (set_adherence user bucket x)
  set_adherence-IsSame user bucket (err e, v) h = h
  set_adherence-IsSame user bucket (ok [], v) h = h
  set_adherence-IsSame user bucket (ok (r ∷ rs), v) h =
      upsert_bucket-IsSame user bucket 0 0 0 p.dec_zero (some (rolling_avg p (r ∷ rs))) none 0 0 v h

  set_tilt-IsSame :
      (user : String) (bucket : Time) (x : Result (ℤ × ℤ) × World p)
      → IsSame w x.1
      → IsSame w (set_tilt user bucket x)
  set_tilt-IsSame user bucket (err e, v) h = h
  set_tilt-IsSame user bucket (ok (follow, total), v) h =
      upsert_bucket-IsSame user bucket 0 0 0 p.dec_zero none
        (some (session_tilt_index p follow total)) 0 0 v h

  pub update_adherence-IsSame :
      (values : Fields) (bucket : Time) {v : World p}
      → IsSame w v
      → IsSame w (update_adherence values bucket v)
  unfolding update_adherence get_last_plan_adherence_ratings
  update_adherence-IsSame values bucket {v} h = if_IsSame (field values "planAdherence" == "") h (
      set_adherence-IsSame (field values "userId") bucket _
        (statement-IsSame _ v (λ _ d. (refl, refl, refl)) h))

  pub update_tilt-IsSame :
      (values : Fields) (bucket : Time) {v : World p}
      → IsSame w v
      → IsSame w (update_tilt values bucket v)
  unfolding update_tilt get_session_tilt_data
  update_tilt-IsSame values bucket {v} h = if_IsSame (field values "sessionId" == "") h (
      set_tilt-IsSame (field values "userId") bucket _
        (statement-IsSame _ v (λ _ d. (refl, refl, refl)) h))

  pub update_emotion-IsSame :
      (values : Fields) (entry_at : Time) {v : World p}
      → IsSame w v
      → IsSame w (update_emotion values entry_at v)
  unfolding update_emotion
  update_emotion-IsSame values entry_at {v} h =
      if_IsSame (field values "emotionalState" == "") h (upsert_emotion-IsSame _ _ _ _ _ v h)

-- ===== src/Store/Metrics.antt =====
-- internal/store/metrics_store.go: the statements that write the analytics tables.
pub mod Counts
pub mod Spares
pub mod Averages
pub mod Counter
pub mod Sums
pub mod Totals
use trade_journal.Prelude.{
  ℕ, ◌+◌, String, Bool, ◌&&◌, Option, none, some, List, [], ◌∷◌, ◌++◌, find, is_some, leb, eqb,
  ◌==◌, if◌then◌else◌, Result, ok, err, unavailable,
}
use trade_journal.Prelude.Time.{Time}
use trade_journal.Platform.{Platform}
use trade_journal.Domain.Enums.{valid_emotions}
use trade_journal.Store.Columns.{◌>>=◌, nullable, enum}
use trade_journal.Store.Tables.{Db, MetricsRow, EmotionRow, OvertradingRow}
use trade_journal.Store.Trades.{has_user}
use trade_journal.Store.World.{Call, call, statement}

-- INT; a sum that does not fit is an error of the statement.
abbrev int4 : ℕ → Option ℕ
int4 n = if leb n 2_147_483_647 then some n else none

-- COALESCE(EXCLUDED.x, old.x)
abbrev coalesce : {A : Type 0} → Option A → Option A → Option A
coalesce none old = old
coalesce (some a) old = some a

-- What a statement does that either yields new tables or is refused.
abbrev outcome_of : {A : Type 0} → A → Option A → Result (Unit {0}) × A
outcome_of d none = (err unavailable, d)
outcome_of d (some d') = (ok tt, d')

abbrev same_emotion : EmotionRow → EmotionRow → Bool
same_emotion a b =
    a.user_id == b.user_id
    && (a.emotional_state == b.emotional_state && eqb a.date_bucket b.date_bucket)

unfoldable pub merge_emotion : EmotionRow → EmotionRow → Option EmotionRow
merge_emotion old new = do
  wins ← int4 (old.wins + new.wins)
  losses ← int4 (old.losses + new.losses)
  some (record old { wins = wins; losses = losses })

unfoldable pub put_emotion : EmotionRow → List EmotionRow → Option (List EmotionRow)
put_emotion new [] = some (new ∷ [])
put_emotion new (old ∷ rows) =
    if same_emotion old new
    then (merge_emotion old new >>= λ row. some (row ∷ rows))
    else (put_emotion new rows >>= λ rows'. some (old ∷ rows'))

module _ {p : Platform} where
  -- The row of the VALUES clause of `UpsertBucket`.
  unfoldable pub bucket_row :
      String
      → Time
      → ℕ
      → ℕ
      → ℕ
      → p.Decimal
      → Option p.Float
      → Option p.Float
      → ℕ
      → ℕ
      → Option (MetricsRow p)
  bucket_row user_id bucket trade_count win_count loss_count total_pnl avg tilt revenge events = do
    u ← p.uuid user_id
    pnl ← p.numeric total_pnl
    avg_plan_adherence ← nullable p.ratio avg
    session_tilt_index ← nullable p.ratio tilt
    some (record {
      bucket = p.timestamp bucket;
      user_id = u;
      trade_count = trade_count;
      win_count = win_count;
      loss_count = loss_count;
      total_pnl = pnl;
      avg_plan_adherence = avg_plan_adherence;
      session_tilt_index = session_tilt_index;
      revenge_count = revenge;
      overtrading_events = events;
    })

  -- ON CONFLICT … DO UPDATE SET: counts and profit are added, the averages replaced if given.
  unfoldable pub merge_bucket : MetricsRow p → MetricsRow p → Option (MetricsRow p)
  merge_bucket old new = do
    trade_count ← int4 (old.trade_count + new.trade_count)
    win_count ← int4 (old.win_count + new.win_count)
    loss_count ← int4 (old.loss_count + new.loss_count)
    total_pnl ← p.numeric_add old.total_pnl new.total_pnl
    revenge_count ← int4 (old.revenge_count + new.revenge_count)
    overtrading_events ← int4 (old.overtrading_events + new.overtrading_events)
    some (record {
      bucket = old.bucket;
      user_id = old.user_id;
      trade_count = trade_count;
      win_count = win_count;
      loss_count = loss_count;
      total_pnl = total_pnl;
      avg_plan_adherence = coalesce new.avg_plan_adherence old.avg_plan_adherence;
      session_tilt_index = coalesce new.session_tilt_index old.session_tilt_index;
      revenge_count = revenge_count;
      overtrading_events = overtrading_events;
    })

  -- The primary key (bucket, user_id).
  abbrev pub same_bucket : MetricsRow p → MetricsRow p → Bool
  same_bucket a b = eqb a.bucket b.bucket && a.user_id == b.user_id

  unfoldable pub put_bucket : MetricsRow p → List (MetricsRow p) → Option (List (MetricsRow p))
  put_bucket new [] = some (new ∷ [])
  put_bucket new (old ∷ rows) =
      if same_bucket old new
      then (merge_bucket old new >>= λ row. some (row ∷ rows))
      else (put_bucket new rows >>= λ rows'. some (old ∷ rows'))

  -- The whole statement of `UpsertBucket`, for a row that its parameters make or do not.
  abbrev write_bucket : Option (MetricsRow p) → Db p → Result (Unit {0}) × Db p
  write_bucket made d = outcome_of d (
      made >>= λ new.
      put_bucket new d.behavioral_metrics >>= λ rows. some (record d { behavioral_metrics = rows }))

  unfoldable pub upsert_bucket :
      String
      → Time
      → ℕ
      → ℕ
      → ℕ
      → p.Decimal
      → Option p.Float
      → Option p.Float
      → ℕ
      → ℕ
      → Call p (Unit {0})
  upsert_bucket user_id bucket trade_count win_count loss_count total_pnl avg tilt revenge events =
      call (
        statement (λ _ d.
          write_bucket
            (bucket_row user_id bucket trade_count win_count loss_count total_pnl avg tilt revenge
              events)
            d))

  -- A row that is inserted must name a user; one that is updated does already.
  unfoldable pub write_emotion : String → String → Time → ℕ → ℕ → Db p → Option (Db p)
  write_emotion user_id emotional_state date_bucket wins losses d = do
    u ← p.uuid user_id
    e ← enum valid_emotions emotional_state
    known ← if has_user d u then some u else none
    rows ←
        put_emotion
          (record {
            user_id = known;
            emotional_state = e;
            date_bucket = p.date date_bucket;
            wins = wins;
            losses = losses;
          })
          d.emotion_win_rates
    some (record d { emotion_win_rates = rows })

  unfoldable pub upsert_emotion_win_rate : String → String → Time → ℕ → ℕ → Call p (Unit {0})
  upsert_emotion_win_rate user_id emotional_state date_bucket wins losses = call (
      statement
        (λ _ d. outcome_of d (write_emotion user_id emotional_state date_bucket wins losses d)))

  unfoldable pub write_event : String → Time → ℕ → Time → Db p → Option (Db p)
  write_event user_id window_start trade_count now d = do
    u ← p.uuid user_id
    known ← if has_user d u then some u else none
    n ← int4 trade_count
    let event : OvertradingRow = record {
      user_id = known;
      window_start = p.timestamp window_start;
      trade_count = n;
      emitted_at = p.timestamp now;
    }
    some (record d { overtrading_events = d.overtrading_events ++ event ∷ [] })

  unfoldable pub insert_overtrading_event : String → Time → ℕ → Call p (Unit {0})
  insert_overtrading_event user_id window_start trade_count =
      call (statement (λ now d. outcome_of d (write_event user_id window_start trade_count now d)))

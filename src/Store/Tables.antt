-- ===== src/Store/Tables.antt =====
-- The tables of migrations/001_init_schema.sql, 002_timescale.sql and 003_analytics.sql, each as
-- the list of its rows, oldest first.
use trade_journal.Prelude.{ℕ, String, Bool, Option, List}
use trade_journal.Prelude.Int.{ℤ}
use trade_journal.Prelude.Time.{Time}
use trade_journal.Platform.{Platform}
use trade_journal.Domain.Trade.{Trade}

-- internal/store/user_store.go
pub record User : Type 0 where
  pub user_id : String
  pub name : String
  pub role : String
  pub pathology : Option String

-- internal/store/session_store.go
pub record Session : Type 0 where
  pub session_id : String
  pub user_id : String
  pub started_at : Time
  pub notes : Option String

pub record Debrief : Type 0 where
  pub debrief_id : String
  pub session_id : String
  pub overall_mood : String
  pub key_mistake : Option String
  pub key_lesson : Option String
  pub plan_adherence_rating : Option ℤ
  pub will_review_tomorrow : Bool
  pub saved_at : Time

-- A row of behavioral_metrics.
pub record MetricsRow (p : Platform) : Type 0 where
  pub bucket : Time
  pub user_id : String
  pub trade_count : ℕ
  pub win_count : ℕ
  pub loss_count : ℕ
  pub total_pnl : p.Decimal
  pub avg_plan_adherence : Option p.Float
  pub session_tilt_index : Option p.Float
  pub revenge_count : ℕ
  pub overtrading_events : ℕ

-- A row of emotion_win_rates.
pub record EmotionRow : Type 0 where
  pub user_id : String
  pub emotional_state : String
  pub date_bucket : Time
  pub wins : ℕ
  pub losses : ℕ

-- A row of overtrading_events.
pub record OvertradingRow : Type 0 where
  pub user_id : String
  pub window_start : Time
  pub trade_count : ℕ
  pub emitted_at : Time

pub record Db (p : Platform) : Type 0 where
  pub users : List User
  pub sessions : List Session
  pub trades : List (Trade p)
  pub debriefs : List Debrief
  pub behavioral_metrics : List (MetricsRow p)
  pub emotion_win_rates : List EmotionRow
  pub overtrading_events : List OvertradingRow

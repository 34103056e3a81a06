-- ===== src/Store/MetricsQueries.antt =====
-- internal/store/metrics_store.go: the statements that read the analytics tables.
pub mod Sums
use trade_journal.Prelude.{
  ℕ, ◌+◌, String, Bool, true, false, not, ◌&&◌, Option, none, some, List, [], ◌∷◌, select, length,
  leb, eqb, ◌==◌, if◌then◌else◌, Result, ok, err,
}
use trade_journal.Prelude.Int.{pos}
use trade_journal.Prelude.Time.{Time}
use trade_journal.Platform.{Platform}
use trade_journal.Platform.Laws.{tally}
use trade_journal.Store.Columns.{uuid_param}
use trade_journal.Store.Tables.{Db, MetricsRow, EmotionRow, OvertradingRow}
use trade_journal.Store.World.{Call, query}

pub record MetricsBucket (p : Platform) : Type 0 where
  pub bucket : Time
  pub trade_count : ℕ
  pub win_count : ℕ
  pub loss_count : ℕ
  pub pnl : p.Decimal
  pub avg_plan_adherence : Option p.Float
  pub session_tilt_index : Option p.Float
  pub revenge_count : ℕ
  pub overtrading_events : ℕ

pub record EmotionWinRate (p : Platform) : Type 0 where
  pub emotional_state : String
  pub wins : ℕ
  pub losses : ℕ
  pub win_rate : p.Float

-- SUM of a column of counts
abbrev pub total {ℓ} : {A : Type ℓ} → (A → ℕ) → List A → ℕ
total f [] = 0
total f (x ∷ xs) = f x + total f xs

-- The values that are not NULL.
abbrev given : {A B : Type 0} → (A → Option B) → List A → List B
given f [] = []
given f (x ∷ xs) = elim (f x) [ none ↦ given f xs | some b ↦ b ∷ given f xs ]

-- GROUP BY: the keys, each once, where they are met last.
unfoldable pub keys_of : {A K : Type 0} → (K → K → Bool) → (A → K) → List A → List K
keys_of same key [] = []
keys_of same key (x ∷ xs) =
    let rest = keys_of same key xs in
    if eqb (tally (λ k. same k (key x)) rest) 0 then key x ∷ rest else rest

module _ {p : Platform} where
  abbrev sum_pnl : List (MetricsRow p) → p.Decimal
  sum_pnl [] = p.dec_zero
  sum_pnl (r ∷ rs) = p.dec_add r.total_pnl (sum_pnl rs)

  -- The SELECT list, for the rows of one group.
  unfoldable pub aggregate : Time → List (MetricsRow p) → MetricsBucket p
  aggregate b rows = record {
    bucket = b;
    trade_count = total (λ r. r.trade_count) rows;
    win_count = total (λ r. r.win_count) rows;
    loss_count = total (λ r. r.loss_count) rows;
    pnl = sum_pnl rows;
    avg_plan_adherence = p.average (given (λ r. r.avg_plan_adherence) rows);
    session_tilt_index = p.average (given (λ r. r.session_tilt_index) rows);
    revenge_count = total (λ r. r.revenge_count) rows;
    overtrading_events = total (λ r. r.overtrading_events) rows;
  }

  unfoldable pub aggregates : String → List (MetricsRow p) → List Time → List (MetricsBucket p)
  aggregates interval rows [] = []
  aggregates interval rows (b ∷ bs) =
      aggregate b (select (λ r. eqb b (p.time_bucket interval r.bucket)) rows)
      ∷ aggregates interval rows bs

  abbrev pub in_range : String → Time → Time → MetricsRow p → Bool
  in_range user from to r = r.user_id == user && (leb from r.bucket && leb r.bucket to)

  unfoldable pub range_buckets : String → List (MetricsRow p) → List (MetricsBucket p)
  range_buckets interval rows = aggregates interval rows (
      p.order_by Time leb
        (keys_of eqb (λ (r : MetricsRow p). p.time_bucket interval r.bucket) rows))

  unfoldable pub select_range :
      String → Time → Time → String → Db p → Result (List (MetricsBucket p))
  select_range user_id from to interval d = elim (uuid_param p user_id) [
    | err e ↦ err e
    | ok u ↦ ok (
        range_buckets interval
          (select (in_range u (p.timestamp from) (p.timestamp to)) d.behavioral_metrics))
  ]

  unfoldable pub query_range : String → Time → Time → String → Call p (List (MetricsBucket p))
  query_range user_id from to interval = query (select_range user_id from to interval)

-- `total > 0`
abbrev rate_of : (p : Platform) → ℕ → ℕ → p.Float
rate_of p wins losses =
    if eqb (wins + losses) 0
    then p.to_float (pos 0)
    else p.float_div (p.to_float (pos wins)) (p.to_float (pos (wins + losses)))

abbrev win_rates : (p : Platform) → List EmotionRow → List String → List (EmotionWinRate p)
win_rates p rows [] = []
win_rates p rows (e ∷ es) =
    let group = select (λ (r : EmotionRow). e == r.emotional_state) rows in
    let wins = total (λ r. r.wins) group in
    let losses = total (λ r. r.losses) group in
    record { emotional_state = e; wins = wins; losses = losses; win_rate = rate_of p wins losses }
    ∷ win_rates p rows es

module _ {p : Platform} where
  unfoldable pub select_win_rates : String → Time → Time → Db p → Result (List (EmotionWinRate p))
  select_win_rates user_id from to d = elim (uuid_param p user_id) [
    | err e ↦ err e
    | ok u ↦
        let rows =
          select
            (λ (r : EmotionRow).
              r.user_id == u && (leb (p.date from) r.date_bucket && leb r.date_bucket (p.date to)))
            d.emotion_win_rates in
        ok (win_rates p rows (keys_of ◌==◌ (λ (r : EmotionRow). r.emotional_state) rows))
  ]

  unfoldable pub query_emotion_win_rates : String → Time → Time → Call p (List (EmotionWinRate p))
  query_emotion_win_rates user_id from to = query (select_win_rates user_id from to)

  unfoldable pub select_overtrading : String → Time → Time → Db p → Result ℕ
  select_overtrading user_id from to d = elim (uuid_param p user_id) [
    | err e ↦ err e
    | ok u ↦ ok (
        tally
          (λ (r : OvertradingRow).
            r.user_id == u
            && (leb (p.timestamp from) r.emitted_at && leb r.emitted_at (p.timestamp to)))
          d.overtrading_events)
  ]

  unfoldable pub count_overtrading_events : String → Time → Time → Call p ℕ
  count_overtrading_events user_id from to = query (select_overtrading user_id from to)

  unfoldable pub select_revenge : String → Time → Time → Db p → Result ℕ
  select_revenge user_id from to d = elim (uuid_param p user_id) [
    | err e ↦ err e
    | ok u ↦ ok (
        tally
          (λ t.
            t.user_id == u
            && (t.revenge_flag
                && (leb (p.timestamp from) t.entry_at && leb t.entry_at (p.timestamp to))))
          d.trades)
  ]

  unfoldable pub count_revenge_trades : String → Time → Time → Call p ℕ
  count_revenge_trades user_id from to = query (select_revenge user_id from to)

-- ===== src/Api/MetricsHandler.antt =====
-- internal/api/handler/metrics.go: GET /users/{userId}/metrics.
pub mod Query
pub mod Cached
pub mod Ranges
pub mod Guards
use trade_journal.Prelude.{
  ℕ, ◌+◌, String, Bool, true, false, not, ◌||◌, Option, none, some, List, [], ◌∷◌, eqb,
  if◌then◌else◌, ◌==◌, Error, Result, ok, err, bad_request,
}
use trade_journal.Prelude.Int.{pos}
use trade_journal.Prelude.Time.{Time}
use trade_journal.Platform.{Platform, Payload}
use trade_journal.Cache.LastLoss.{join}
use trade_journal.Cache.Metrics.{payload_text, get_cached}
use trade_journal.Store.MetricsQueries.{
  MetricsBucket, EmotionWinRate, query_range, query_emotion_win_rates, count_revenge_trades,
  count_overtrading_events,
}
use trade_journal.Store.World.{World}
use trade_journal.Api.MetricsHandler.Query.{MetricsQuery, metrics_key, read_query}
use trade_journal.Api.Response.{
  Response, raw, respond_json, respond_error, respond_forbidden, respond_bad_request,
}
use trade_journal.Api.TradeHandler.{Task, cache_answer, Answer}

pub record TimeseriesPoint (p : Platform) : Type 0 where
  pub bucket : Time
  pub trade_count : ℕ
  pub win_rate : p.Float
  pub pnl : p.Float
  pub avg_plan_adherence : p.Float

-- The map of the response.
pub record MetricsResponse (p : Platform) : Type 0 where
  pub user_id : String
  pub granularity : String
  pub from : String
  pub to : String
  pub plan_adherence_score : p.Float
  pub session_tilt_index : p.Float
  pub win_rate_by_emotional_state : List (EmotionWinRate p)
  pub revenge_trades : ℕ
  pub overtrading_events : ℕ
  pub timeseries : List (TimeseriesPoint p)

-- `n, _ := …`: zero on an error
abbrev count_or_zero : Result ℕ → ℕ
count_or_zero (ok n) = n
count_or_zero (err e) = 0

-- `if n > 0 { x = sum / float64(n) }`, and 0 otherwise
abbrev quotient : (p : Platform) → p.Float → ℕ → p.Float
quotient p sum n = if eqb n 0 then p.to_float (pos 0) else p.float_div sum (p.to_float (pos n))

-- A sum of averages and their number.
abbrev add_average : (p : Platform) → p.Float × ℕ → Option p.Float → p.Float × ℕ
add_average p (sum, n) none = (sum, n)
add_average p (sum, n) (some x) = (p.float_add sum x, n + 1)

module _ {p : Platform} where
  abbrev point_of : MetricsBucket p → TimeseriesPoint p
  point_of b = record {
    bucket = b.bucket;
    trade_count = b.trade_count;
    win_rate = quotient p (p.to_float (pos b.win_count)) b.trade_count;
    pnl = p.dec_float b.pnl;
    avg_plan_adherence = elim b.avg_plan_adherence [ none ↦ p.to_float (pos 0) | some x ↦ x ];
  }

  -- The loop over the buckets: the plan adherence and the tilt so far, and the points.
  unfoldable pub points : List (MetricsBucket p) → List (TimeseriesPoint p)
  points [] = []
  points (b ∷ bs) = point_of b ∷ points bs

  unfoldable pub sum_averages :
      (MetricsBucket p → Option p.Float) → p.Float × ℕ → List (MetricsBucket p) → p.Float × ℕ
  sum_averages f acc [] = acc
  sum_averages f acc (b ∷ bs) = sum_averages f (add_average p acc (f b)) bs

  unfoldable pub respond_metrics :
      String
      → MetricsQuery
      → List (MetricsBucket p)
      → List (EmotionWinRate p)
      → ℕ
      → ℕ
      → MetricsResponse p
  respond_metrics user_id q buckets rates revenge overtrading =
      let zero = p.to_float (pos 0) in
      let (adherence, rated) = sum_averages (λ b. b.avg_plan_adherence) (zero, 0) buckets in
      let (tilt, tilted) = sum_averages (λ b. b.session_tilt_index) (zero, 0) buckets in
      record {
        user_id = user_id;
        granularity = q.granularity;
        from = q.from_str;
        to = q.to_str;
        plan_adherence_score = quotient p adherence rated;
        session_tilt_index = quotient p tilt tilted;
        win_rate_by_emotional_state = rates;
        revenge_trades = revenge;
        overtrading_events = overtrading;
        timeseries = points buckets;
      }

  abbrev internal_error : String → String → World p → Answer p
  internal_error trace_id message w = (respond_error trace_id 500 "INTERNAL_ERROR" message, [], w)

  -- The two counts, whose errors are dropped, and the answer; a goroutine caches it.
  unfoldable pub answer_metrics :
      (MetricsResponse p → String)
      → String
      → MetricsQuery
      → Time
      → Time
      → List (MetricsBucket p)
      → List (EmotionWinRate p)
      → World p
      → Answer p
  answer_metrics encode user_id q from to buckets rates w =
      let (revenge, w₁) = count_revenge_trades user_id from to w in
      let (overtrading, w₂) = count_overtrading_events user_id from to w₁ in
      let text = encode (
        respond_metrics user_id q buckets rates (count_or_zero revenge)
          (count_or_zero overtrading)) in
      (respond_json 200 (raw text), cache_answer (metrics_key user_id q) text ∷ [], w₂)

  abbrev answer_rates :
      (MetricsResponse p → String)
      → String
      → String
      → MetricsQuery
      → Time
      → Time
      → List (MetricsBucket p)
      → Result (List (EmotionWinRate p)) × World p
      → Answer p
  answer_rates encode trace_id user_id q from to buckets (err e, w) =
      internal_error trace_id "Failed to query emotion win rates" w
  answer_rates encode trace_id user_id q from to buckets (ok rates, w) =
      answer_metrics encode user_id q from to buckets rates w

  abbrev answer_range :
      (MetricsResponse p → String)
      → String
      → String
      → MetricsQuery
      → Time
      → Time
      → Result (List (MetricsBucket p)) × World p
      → Answer p
  answer_range encode trace_id user_id q from to (err e, w) =
      internal_error trace_id "Failed to query metrics" w
  answer_range encode trace_id user_id q from to (ok buckets, w) =
      answer_rates encode trace_id user_id q from to buckets
        (query_emotion_win_rates user_id from to w)

  -- A cached answer is written as it is; an error of the cache counts as a miss.
  abbrev answer_lookup :
      (MetricsResponse p → String)
      → String
      → String
      → MetricsQuery
      → Time × Time × String
      → Result (Option Payload) × World p
      → Answer p
  answer_lookup encode trace_id user_id q range (ok (some text), w) =
      (respond_json 200 (raw (payload_text p text)), [], w)
  answer_lookup encode trace_id user_id q (from, to, interval) (ok none, w) =
      answer_range encode trace_id user_id q from to (query_range user_id from to interval w)
  answer_lookup encode trace_id user_id q (from, to, interval) (err e, w) =
      answer_range encode trace_id user_id q from to (query_range user_id from to interval w)

  -- `read_query` fails with a message only.
  abbrev answer_query :
      (MetricsResponse p → String)
      → String
      → String
      → MetricsQuery
      → Result (Time × Time × String)
      → World p
      → Answer p
  answer_query encode trace_id user_id q (err (bad_request message)) w =
      (respond_bad_request trace_id message, [], w)
  answer_query encode trace_id user_id q (err _) w = (respond_bad_request trace_id "", [], w)
  answer_query encode trace_id user_id q (ok range) w =
      answer_lookup encode trace_id user_id q range (get_cached (metrics_key user_id q) w)

  -- GET /users/{userId}/metrics
  unfoldable pub get :
      (MetricsResponse p → String) → String → String → String → MetricsQuery → World p → Answer p
  get encode sub trace_id user_id q w =
      if not (user_id == sub)
      then (respond_forbidden trace_id, [], w)
      else answer_query encode trace_id user_id q (read_query p q) w

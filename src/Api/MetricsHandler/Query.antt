-- ===== src/Api/MetricsHandler/Query.antt =====
-- internal/api/handler/metrics.go: the query parameters of GET /users/{userId}/metrics.
use trade_journal.Prelude.{
  String, ◌||◌, Option, none, some, if◌then◌else◌, ◌==◌, Result, ok, err, bad_request,
}
use trade_journal.Prelude.Time.{Time}
use trade_journal.Platform.{Platform}
use trade_journal.Cache.LastLoss.{join}

-- The query parameters; a missing one is the empty text.
pub record MetricsQuery : Type 0 where
  pub from_str : String
  pub to_str : String
  pub granularity : String

-- The switch over the granularity.
unfoldable pub interval_of : String → Option String
interval_of granularity =
    if granularity == "hourly"
    then some "1 hour"
    else if granularity == "daily"
    then some "1 day"
    else if granularity == "rolling30d"
    then some "30 days"
    else none

abbrev pub metrics_key : String → MetricsQuery → String
metrics_key user_id q =
    join "metrics:" (
      join user_id (join ":" (join q.from_str (join ":" (join q.to_str (join ":" q.granularity))))))

abbrev pub with_interval : Time → Time → Option String → Result (Time × Time × String)
with_interval from to none = err (bad_request "granularity must be hourly, daily, or rolling30d")
with_interval from to (some interval) = ok (from, to, interval)

abbrev pub with_to : Time → Option Time → Option String → Result (Time × Time × String)
with_to from none interval = err (bad_request "Invalid 'to' format, expected ISO-8601")
with_to from (some to) interval = with_interval from to interval

abbrev pub with_from : Option Time → Option Time → Option String → Result (Time × Time × String)
with_from none to interval = err (bad_request "Invalid 'from' format, expected ISO-8601")
with_from (some from) to interval = with_to from to interval

-- The checks of the query parameters: the two times and the interval, or the message of the 400.
unfoldable pub read_query : Platform → MetricsQuery → Result (Time × Time × String)
read_query p q =
    if q.from_str == "" || (q.to_str == "" || q.granularity == "")
    then err (bad_request "from, to, and granularity query parameters are required")
    else with_from (p.parse_time q.from_str) (p.parse_time q.to_str) (interval_of q.granularity)

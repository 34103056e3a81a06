-- ===== src/Api/Router/Logged.antt =====
-- What the log says of a request.
use trade_journal.Prelude.{ℕ, String, ◌≡◌, Option, []}
use trade_journal.Platform.{Platform}
use trade_journal.Store.World.{World}
use trade_journal.Api.Auth.{Parsed}
use trade_journal.Api.Logger.{Client, final_status, Line}
use trade_journal.Api.SessionHandler.{Reply, json, events}
use trade_journal.Api.Router.{Encoders, Route, Outcome, health_check, protected, serve}
use trade_journal.Api.HealthHandler.{check}

-- The log line of a reply, and what the client was sent.
pub record Logs (trace : String) (status : ℕ) (line : Line) (client : Client) : Type 0 where
  pub trace_id : line.trace_id ≡ trace
  pub no_user : line.user_id ≡ ""
  pub status_code : line.status_code ≡ status
  pub sent : final_status client ≡ status

module _ {p : Platform} where
  -- The status of a reply.
  abbrev pub status_of : Reply p → ℕ
  status_of (json r) = r.status
  status_of (events es) = 200

  -- What the handler of a route answers, given a trace id for its errors.
  abbrev pub answered :
      ((String → Option String) → String → Parsed)
      → Encoders p
      → String
      → String
      → Route p
      → World p
      → Outcome p
  answered jwt_parse encode secret trace_id health_check w =
      let (response, v) = check w in (json response, [], v)
  answered jwt_parse encode secret trace_id (protected auth request) w =
      serve jwt_parse encode secret trace_id auth request w

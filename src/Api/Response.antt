-- ===== src/Api/Response.antt =====
-- internal/api/handler/response.go: the answers that the handlers write. The JSON text is left to
-- encoding/json; a body is the value that is encoded.
use trade_journal.Prelude.{ℕ, String}
use trade_journal.Prelude.Int.{ℤ}
use trade_journal.Platform.{Platform}
use trade_journal.Domain.Trade.{Trade}
use trade_journal.Store.Sessions.{SessionSummary, Receipt}

-- `ErrorResponse`
pub record Failure : Type 0 where
  pub error : String
  pub message : String
  pub trace_id : String

-- The answer of GET /health.
pub record Health : Type 0 where
  pub status : String
  pub db_connection : String
  pub queue_lag : ℤ
  pub timestamp : String

pub data Body (p : Platform) : Type 0 where
  failure : Failure → Body p
  trade : Trade p → Body p
  summary : SessionSummary p → Body p
  receipt : Receipt → Body p
  health : Health → Body p
  -- Bytes that are written as they are.
  raw : String → Body p

pub record Response (p : Platform) : Type 0 where
  pub status : ℕ
  pub body : Body p

module _ {p : Platform} where
  abbrev pub respond_json : ℕ → Body p → Response p
  respond_json status body = record { status = status; body = body }

  -- `traceID` is what the logger put into the request's context.
  abbrev pub respond_error : String → ℕ → String → String → Response p
  respond_error trace_id status error message =
      respond_json status
        (failure (record { error = error; message = message; trace_id = trace_id }))

  abbrev pub respond_forbidden : String → Response p
  respond_forbidden trace_id = respond_error trace_id 403 "FORBIDDEN" "Cross-tenant access denied."

  abbrev pub respond_not_found : String → String → Response p
  respond_not_found trace_id message = respond_error trace_id 404 "NOT_FOUND" message

  abbrev pub respond_bad_request : String → String → Response p
  respond_bad_request trace_id message = respond_error trace_id 400 "BAD_REQUEST" message

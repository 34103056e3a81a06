-- ===== src/Api/Router.antt =====
-- internal/api/router.go: the routes, the protected ones behind the authentication, all behind the
-- logger.
pub mod Isolation
pub mod Logged
use trade_journal.Prelude.{ℕ, String, Bool, Option, List, [], ◌∷◌}
use trade_journal.Platform.{Platform}
use trade_journal.Domain.Trade.{TradeInput}
use trade_journal.Store.World.{World}
use trade_journal.Api.Auth.{Parsed, Admission, rejects, passes, authenticate}
use trade_journal.Api.MetricsHandler
use trade_journal.Api.MetricsHandler.{MetricsResponse}
use trade_journal.Api.MetricsHandler.Query.{MetricsQuery}
use trade_journal.Api.ProfileHandler
use trade_journal.Api.ProfileHandler.{ProfileResponse}
use trade_journal.Api.HealthHandler.{check}
use trade_journal.Api.Logger.{
  Context, trace_id_from_context, Op, send_header, send_bytes, send_flush, Client, Line, logger,
}
use trade_journal.Api.Response.{Response, Body}
use trade_journal.Api.SessionHandler
use trade_journal.Api.SessionHandler.{DebriefInput, Event, Reply, json, events, debrief, coaching}
use trade_journal.Api.TradeHandler
use trade_journal.Api.TradeHandler.{Decoded, Task, Answer, create}

-- A request to a protected route, with the parameters of its path and its body. A coaching request
-- has the moments at which its client has left, and whether its writer can flush.
pub data Request (p : Platform) : Type 0 where
  post_trade : Decoded (TradeInput p) → Request p
  get_trade : String → Request p
  get_session : String → Request p
  post_debrief : String → Decoded DebriefInput → Request p
  get_coaching : (ℕ → Bool) → Bool → String → Request p
  get_profile : String → Request p
  get_metrics : String → MetricsQuery → Request p

-- json.Marshal, of the answers that are cached as their bytes
pub record Encoders (p : Platform) : Type 0 where
  pub profile : ProfileResponse p → String
  pub metrics : MetricsResponse p → String

-- The reply, the goroutines that were started, and the world.
abbrev pub Outcome : Platform → Type 0
Outcome p = Reply p × List Task × World p

module _ {p : Platform} where
  abbrev of_answer : Answer p → Outcome p
  of_answer (response, tasks, w) = (json response, tasks, w)

  abbrev of_read : Response p × World p → Outcome p
  of_read (response, w) = (json response, [], w)

  abbrev of_reply : Reply p × World p → Outcome p
  of_reply (reply, w) = (reply, [], w)

  -- The handler of a route, for the user in the request's context.
  unfoldable pub dispatch : Encoders p → String → String → Request p → World p → Outcome p
  dispatch encode sub trace_id (post_trade body) w = of_answer (create sub trace_id body w)
  dispatch encode sub trace_id (get_trade id) w = of_read (TradeHandler.get sub trace_id id w)
  dispatch encode sub trace_id (get_session id) w = of_read (SessionHandler.get sub trace_id id w)
  dispatch encode sub trace_id (post_debrief id body) w = of_read (debrief sub trace_id id body w)
  dispatch encode sub trace_id (get_coaching gone can_flush id) w =
      of_reply (coaching sub trace_id gone can_flush id w)
  dispatch encode sub trace_id (get_profile id) w =
      of_read (ProfileHandler.get encode.profile sub trace_id id w)
  dispatch encode sub trace_id (get_metrics id q) w =
      of_answer (MetricsHandler.get encode.metrics sub trace_id id q w)

  abbrev serve_admitted : Encoders p → String → Request p → Admission p → World p → Outcome p
  serve_admitted encode trace_id request (rejects response) w = (json response, [], w)
  serve_admitted encode trace_id request (passes sub) w = dispatch encode sub trace_id request w

  -- A request with its Authorization header, behind `AuthMiddleware`.
  unfoldable pub serve :
      ((String → Option String) → String → Parsed)
      → (Encoders p)
      → String
      → String
      → String
      → Request p
      → World p
      → Outcome p
  serve jwt_parse encode secret trace_id header request w =
      serve_admitted encode trace_id request (authenticate jwt_parse secret trace_id header) w

-- GET /health, or a protected route with the Authorization header.
pub data Route (p : Platform) : Type 0 where
  health_check : Route p
  protected : String → Request p → Route p

-- How answers are written: the JSON text of a body, and the text of a server-sent event.
pub record Texts (p : Platform) : Type 0 where
  pub body : Body p → String
  pub event : Event → String

module _ {p : Platform} where
  abbrev event_ops : Texts p → List Event → List Op
  event_ops texts [] = []
  event_ops texts (e ∷ es) = send_bytes (texts.event e) ∷ send_flush ∷ event_ops texts es

  abbrev pub ops_of : Texts p → Reply p → List Op
  ops_of texts (json r) = send_header r.status ∷ send_bytes (texts.body r.body) ∷ []
  ops_of texts (events es) = send_header 200 ∷ event_ops texts es

  -- The handler of a route, with the trace id of its context.
  unfoldable pub handle_route :
      ((String → Option String) → String → Parsed)
      → Encoders p
      → String
      → Route p
      → Context
      → World p
      → Outcome p
  handle_route jwt_parse encode secret health_check ctx w = of_read (check w)
  handle_route jwt_parse encode secret (protected auth request) ctx w =
      serve jwt_parse encode secret (trace_id_from_context ctx) auth request w

  -- The handler as the logger calls it: what it writes, the goroutines it started, and the world.
  abbrev pub write_reply : Texts p → Outcome p → List Op × List Task × World p
  write_reply texts (reply, tasks, w) = (ops_of texts reply, tasks, w)

  -- A request as net/http hands it to the mux, with a context of its own.
  unfoldable pub serve_http :
      ((String → Option String) → String → Parsed)
      → Encoders p
      → Texts p
      → String
      → String
      → String
      → String
      → Route p
      → World p
      → Line × Client × List Task × World p
  serve_http jwt_parse encode texts secret trace_id method path route w =
      logger trace_id
        (λ ctx v. write_reply texts (handle_route jwt_parse encode secret route ctx v)) method path
        [] w

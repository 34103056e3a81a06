-- ===== src/Api/Router/Isolation.antt =====
-- What a request can do to the trades of a user.
use trade_journal.Prelude.{ℕ, String, ◌≡◌, ◌≢◌, refl, ap, ◌∙◌, Bool, Option, none, some, [], ok}
use trade_journal.Platform.{Platform}
use trade_journal.Store.Tables.{Db}
use trade_journal.Store.World.{World, returning}
use trade_journal.Store.World.Frames.{bind_keeps, query_frame}
use trade_journal.Store.Sessions
use trade_journal.Store.Sessions.{session_rows, summarize, list_by_session, get_with_trades}
use trade_journal.Store.Sessions.Laws.{get_session_frame}
use trade_journal.Api.Auth.{Parsed, Admission, rejects, passes, authenticate}
use trade_journal.Api.MetricsHandler.Guards.{get-IsBadRequest}
use trade_journal.Api.HealthHandler.Report.{check-Reports}
use trade_journal.Api.Logger.{
  Context, with_value, trace_id_key, trace_id_from_context, value_or_empty, logger,
}
use trade_journal.Api.ProfileHandler.Claims.{get_reads}
use trade_journal.Api.SessionHandler
use trade_journal.Api.Response.{Response}
use trade_journal.Api.TradeHandler.{Decoded}
use trade_journal.Api.SessionHandler.{DebriefInput, debrief, coaching}
use trade_journal.Api.SessionHandler.Debriefing.{Debriefs, keeps, saves, debrief-Debriefs}
use trade_journal.Api.TradeHandler.Tenancy.{trades_of_user, create_isolated, get-Guards}
use trade_journal.Api.Router.{
  Request, post_trade, get_trade, get_session, post_debrief, get_coaching, get_profile, get_metrics,
  Encoders, dispatch, serve_admitted, serve, Route, health_check, protected, Texts, handle_route,
  serve_http,
}

-- The Authorization header of a request.
abbrev pub header_of : {p : Platform} → Route p → Option String
header_of health_check = none
header_of (protected header request) = some header

module _ {p : Platform} where
  session_frame :
      (sub trace id : String) (w : World p) → (SessionHandler.get sub trace id w).1.db ≡ w.db
  unfolding SessionHandler.get get_with_trades list_by_session
  session_frame sub trace id w =
      bind_keeps (Sessions.get_session id) _ w (λ v. v.db ≡ w.db) (get_session_frame id w)
        (λ s v h.
          bind_keeps (list_by_session id) (λ trades. returning (ok (summarize s trades))) v
            (λ v'. v'.db ≡ w.db) (query_frame (session_rows id) v ∙ h) (λ trades v' h'. h'))

  coaching_frame :
      (sub trace : String) (gone : ℕ → Bool) (can_flush : Bool) (id : String) (w : World p)
      → (coaching sub trace gone can_flush id w).1.db ≡ w.db
  unfolding coaching
  coaching_frame sub trace gone can_flush id w = get_session_frame id w

  Debriefs-trades :
      {sub id : String} {body : Decoded DebriefInput} {d d' : Db p} {response : Response p}
      → Debriefs sub id body d response d'
      → d'.trades ≡ d.trades
  Debriefs-trades (keeps _ same) = ap (λ (d : Db p). d.trades) same
  Debriefs-trades (saves _ _ _ _ _ _ _ _ _ _ more) = ap (λ (d : Db p). d.trades) more

  same_trades :
      (u : String) (d d' : Db p) → d'.trades ≡ d.trades → trades_of_user u d' ≡ trades_of_user u d
  same_trades u d d' e = rw e refl

  dispatch_isolated :
      (encode : Encoders p) (sub trace u : String) (request : Request p) (w : World p)
      → p.uuid sub ≢ some u
      → trades_of_user u (dispatch encode sub trace request w).2.db ≡ trades_of_user u w.db
  unfolding dispatch
  dispatch_isolated encode sub trace u (post_trade body) w other =
      create_isolated sub trace body w u other
  dispatch_isolated encode sub trace u (get_trade id) w other =
      ap (trades_of_user u) (get-Guards sub trace id w).1
  dispatch_isolated encode sub trace u (get_session id) w other =
      ap (trades_of_user u) (session_frame sub trace id w)
  dispatch_isolated encode sub trace u (post_debrief id body) w other =
      same_trades u w.db (debrief sub trace id body w).1.db
        (Debriefs-trades (debrief-Debriefs sub trace id body w))
  dispatch_isolated encode sub trace u (get_coaching gone can_flush id) w other =
      ap (trades_of_user u) (coaching_frame sub trace gone can_flush id w)
  dispatch_isolated encode sub trace u (get_profile id) w other =
      ap (trades_of_user u) (get_reads encode.profile sub trace id w).0
  dispatch_isolated encode sub trace u (get_metrics id q) w other =
      ap (trades_of_user u) (get-IsBadRequest encode.metrics trace id q sub w).0

  serve_admitted_isolated :
      (encode : Encoders p) (trace u : String) (request : Request p) (a : Admission p) (w : World p)
      → ((sub : String) → a ≡ passes sub → p.uuid sub ≢ some u)
      → trades_of_user u (serve_admitted encode trace request a w).2.db ≡ trades_of_user u w.db
  serve_admitted_isolated encode trace u request (rejects r) w other = refl
  serve_admitted_isolated encode trace u request (passes sub) w other =
      dispatch_isolated encode sub trace u request w (other sub refl)

  pub serve_isolated :
      (jwt_parse : (String → Option String) → String → Parsed) (encode : Encoders p)
      (secret trace header u : String) (request : Request p) (w : World p)
      → ((sub : String)
          → ◌≡◌ {A = Admission p} (authenticate jwt_parse secret trace header) (passes sub)
          → p.uuid sub ≢ some u)
      → trades_of_user u (serve jwt_parse encode secret trace header request w).2.db
        ≡ trades_of_user u w.db
  unfolding serve
  serve_isolated jwt_parse encode secret trace header u request w other =
      serve_admitted_isolated encode trace u request (authenticate jwt_parse secret trace header) w
        other

  route_isolated :
      (jwt_parse : (String → Option String) → String → Parsed) (encode : Encoders p)
      (secret u : String) (route : Route p) (ctx : Context) (w : World p)
      → ((header sub : String)
          → ◌≡◌ {A = Admission p}
              (authenticate jwt_parse secret (trace_id_from_context ctx) header)
              (passes sub)
          → p.uuid sub ≡ some u
          → header_of route ≢ some header)
      → trades_of_user u (handle_route jwt_parse encode secret route ctx w).2.db
        ≡ trades_of_user u w.db
  unfolding handle_route
  route_isolated jwt_parse encode secret u health_check ctx w other =
      ap (trades_of_user u) (check-Reports w).same_tables
  route_isolated jwt_parse encode secret u (protected header request) ctx w other =
      serve_isolated jwt_parse encode secret (trace_id_from_context ctx) header u request w
        (λ sub admitted named. other header sub admitted named refl)

  -- The trades of a user change only by a request that is authenticated as this user: whatever
  -- route, body and header a request has, and whatever calls fail, if it has no header that is
  -- accepted for the user then the user's rows in trades are as before.
  pub serve_http_isolated :
      (jwt_parse : (String → Option String) → String → Parsed) (encode : Encoders p)
      (texts : Texts p) (secret trace method path u : String) (route : Route p) (w : World p)
      → ((header sub : String)
          → ◌≡◌ {A = Admission p} (authenticate jwt_parse secret trace header) (passes sub)
          → p.uuid sub ≡ some u
          → header_of route ≢ some header)
      → trades_of_user u (serve_http jwt_parse encode texts secret trace method path route w).3.db
        ≡ trades_of_user u w.db
  unfolding serve_http logger value_or_empty
  serve_http_isolated jwt_parse encode texts secret trace method path u route w other =
      route_isolated jwt_parse encode secret u route (with_value [] trace_id_key trace) w other

-- ===== src/Api/SessionHandler.antt =====
-- internal/api/handler/session.go: GET /sessions/{sessionId}, POST …/debrief and GET …/coaching.
pub mod Access
pub mod Coach
pub mod Debriefing
use trade_journal.Prelude.{
  ℕ, ◌+◌, String, Bool, true, false, not, Option, none, some, List, [], ◌∷◌, if◌then◌else◌, ◌==◌,
  Error, Result, ok, err, not_found,
}
use trade_journal.Prelude.Int.{ℤ}
use trade_journal.Platform.{Platform}
use trade_journal.Cache.LastLoss.{join}
use trade_journal.Domain.Enums.{is_valid_emotional_state}
use trade_journal.Store.Tables.{Session}
use trade_journal.Store.World.{World}
use trade_journal.Store.Sessions.{
  SessionSummary, Receipt, DebriefValues, get_session, get_with_trades, insert_debrief,
}
use trade_journal.Api.Response.{
  Response, summary, receipt, respond_json, respond_error, respond_forbidden, respond_not_found,
  respond_bad_request,
}
use trade_journal.Api.TradeHandler.{Decoded, malformed, decoded}

pub record DebriefInput : Type 0 where
  pub overall_mood : String
  pub key_mistake : Option String
  pub key_lesson : Option String
  pub plan_adherence_rating : Option ℤ
  pub will_review_tomorrow : Bool

-- The `store.Debrief` that is built of the input.
abbrev pub values_of : DebriefInput → DebriefValues
values_of input = record {
  overall_mood = input.overall_mood;
  key_mistake = input.key_mistake;
  key_lesson = input.key_lesson;
  plan_adherence_rating = input.plan_adherence_rating;
  will_review_tomorrow = input.will_review_tomorrow;
}

-- A server-sent event; the last one holds the whole message.
pub data Event : Type 0 where
  token : String → ℕ → Event
  done : String → Event

-- An answer in JSON, or status 200 and a stream of events.
pub data Reply (p : Platform) : Type 0 where
  json : Response p → Reply p
  events : List Event → Reply p

-- The loop over the tokens from index `i` on; `gone i` is whether the client has left before it.
unfoldable pub stream_tokens : (ℕ → Bool) → ℕ → List String → String → List Event
stream_tokens gone i [] message = done message ∷ []
stream_tokens gone i (t ∷ tokens) message =
    let rest = stream_tokens gone (i + 1) tokens message in if gone i then [] else token t i ∷ rest

abbrev notes_of : Option String → String
notes_of none = ""
notes_of (some notes) = notes

unfoldable pub generate_coaching_message : Platform → Session → String
generate_coaching_message p session = join "Great session review! Your trading session on " (
    join (p.format_date session.started_at) (
      join " showed commitment to self-improvement. " (
        join (notes_of session.notes)
          " Keep tracking your emotional state and plan adherence — consistency is the key to long-term profitability. Remember to review your trades tomorrow and identify any patterns in your decision-making process.")))

module _ {p : Platform} where
  abbrev fetch_failed : String → Error → Response p
  fetch_failed trace_id not_found = respond_not_found trace_id "Session not found."
  fetch_failed trace_id e = respond_error trace_id 500 "INTERNAL_ERROR" "Failed to fetch session"

  abbrev answer_summary : String → String → Result (SessionSummary p) → Response p
  answer_summary sub trace_id (err e) = fetch_failed trace_id e
  answer_summary sub trace_id (ok s) =
      if not (s.user_id == sub) then respond_forbidden trace_id else respond_json 200 (summary s)

  -- GET /sessions/{sessionId}
  unfoldable pub get : String → String → String → World p → Response p × World p
  get sub trace_id session_id w =
      let (found, w') = get_with_trades session_id w in (answer_summary sub trace_id found, w')

  abbrev answer_debrief : String → Result Receipt × World p → Response p × World p
  answer_debrief trace_id (err e, w) =
      (respond_error trace_id 500 "INTERNAL_ERROR" "Failed to save debrief", w)
  answer_debrief trace_id (ok r, w) = (respond_json 201 (receipt r), w)

  abbrev debrief_body : String → String → Decoded DebriefInput → World p → Response p × World p
  debrief_body trace_id session_id (malformed message) w =
      (respond_bad_request trace_id "Invalid request body", w)
  debrief_body trace_id session_id (decoded input) w =
      if not (is_valid_emotional_state input.overall_mood)
      then (respond_bad_request trace_id "Invalid overallMood", w)
      else answer_debrief trace_id (insert_debrief session_id (values_of input) w)

  abbrev debrief_of :
      String
      → String
      → String
      → Decoded DebriefInput
      → Result Session × World p
      → Response p × World p
  debrief_of sub trace_id session_id body (err e, w) = (fetch_failed trace_id e, w)
  debrief_of sub trace_id session_id body (ok s, w) =
      if not (s.user_id == sub)
      then (respond_forbidden trace_id, w)
      else debrief_body trace_id session_id body w

  -- POST /sessions/{sessionId}/debrief
  unfoldable pub debrief :
      String → String → String → Decoded DebriefInput → World p → Response p × World p
  debrief sub trace_id session_id body w =
      debrief_of sub trace_id session_id body (get_session session_id w)

  abbrev coach : (ℕ → Bool) → Bool → Session → Reply p
  coach gone can_flush session =
      let message = generate_coaching_message p session in
      events (if can_flush then stream_tokens gone 0 (p.fields message) message else [])

  abbrev answer_coaching : String → String → (ℕ → Bool) → Bool → Result Session → Reply p
  answer_coaching sub trace_id gone can_flush (err e) = json (fetch_failed trace_id e)
  answer_coaching sub trace_id gone can_flush (ok s) =
      if not (s.user_id == sub) then json (respond_forbidden trace_id) else coach gone can_flush s

  -- GET /sessions/{sessionId}/coaching; `can_flush` is whether the writer is an http.Flusher.
  unfoldable pub coaching :
      String → String → (ℕ → Bool) → Bool → String → World p → Reply p × World p
  coaching sub trace_id gone can_flush session_id w =
      let (found, w') = get_session session_id w in
      (answer_coaching sub trace_id gone can_flush found, w')

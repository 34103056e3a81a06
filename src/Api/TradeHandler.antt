-- ===== src/Api/TradeHandler.antt =====
-- internal/api/handler/trade.go: POST /trades and GET /trades/{tradeId}.
pub mod Submission
pub mod Tenancy
pub mod Resubmission
pub mod Recording
pub mod Tasks
pub mod Goroutines
pub mod AfterLoss
use trade_journal.Prelude.{
  String, Bool, true, false, not, ◌&&◌, Option, none, some, List, [], ◌∷◌, ◌++◌, if◌then◌else◌,
  ◌==◌, holds_text, Error, Result, ok, err, duplicate, not_found, forbidden, unauthorized,
  bad_request, unavailable, busy_group,
}
use trade_journal.Prelude.Int.{ℤ, pos, ltb_ℤ}
use trade_journal.Prelude.Time.{Time, unix, unix_milli, from_unix}
use trade_journal.Platform.{Platform, Arg, str, int, bool}
use trade_journal.Domain.Enums.{status_closed, outcome_loss}
use trade_journal.Domain.Revenge.{is_revenge}
use trade_journal.Domain.Trade.{Trade, TradeInput, validate, compute_pnl}
use trade_journal.Cache.LastLoss.{join, get_last_loss, set_last_loss}
use trade_journal.Cache.Metrics.{set_cached}
use trade_journal.Cache.Window.{trades_key, add_nx}
use trade_journal.Cache.Stream.{add}
use trade_journal.Store.World.{World, Call}
use trade_journal.Store.Trades.{upsert, get_by_id}
use trade_journal.Api.Response.{
  Response, trade, respond_json, respond_error, respond_forbidden, respond_not_found,
  respond_bad_request,
}

-- What `json.NewDecoder(r.Body).Decode(&input)` makes of a request's body.
pub data Decoded (A : Type 0) : Type 0 where
  malformed : String → Decoded A
  decoded : A → Decoded A

-- A goroutine that the handler starts: it runs after the answer is computed, or not at all.
pub data Task : Type 0 where
  store_last_loss : String → ℤ → Task
  publish : List (String × Arg) → Task
  add_to_window : String → ℤ → String → Task
  cache_answer : String → String → Task

-- `err.Error()`; a wrapped error begins with the text of `ErrBadRequest`.
abbrev pub error_text : Error → String
error_text duplicate = "duplicate record"
error_text not_found = "resource not found"
error_text forbidden = "cross-tenant access denied"
error_text unauthorized = "unauthorized"
error_text (bad_request message) = join "bad request: " message
error_text busy_group = "BUSYGROUP Consumer Group name already exists"
error_text unavailable = "driver error"

abbrev with_arg : {A : Type 0} → String → (A → Arg) → Option A → List (String × Arg)
with_arg key arg none = []
with_arg key arg (some a) = (key, arg a) ∷ []

-- The response, the goroutines that were started, and the world.
abbrev pub Answer : Platform → Type 0
Answer p = Response p × List Task × World p

module _ {p : Platform} where
  -- The trade that is built of the input; outcome and profit are nil and the flag is false.
  abbrev pub build : TradeInput p → Trade p
  build t = record {
    trade_id = t.trade_id;
    user_id = t.user_id;
    session_id = t.session_id;
    asset = t.asset;
    asset_class = t.asset_class;
    direction = t.direction;
    entry_price = t.entry_price;
    exit_price = t.exit_price;
    quantity = t.quantity;
    entry_at = t.entry_at;
    exit_at = t.exit_at;
    status = t.status;
    plan_adherence = t.plan_adherence;
    emotional_state = t.emotional_state;
    entry_rationale = t.entry_rationale;
    outcome = none;
    pnl = none;
    revenge_flag = false;
    created_at = 0;
    updated_at = 0;
  }

  abbrev price_at : Trade p → Option p.Decimal → Trade p
  price_at t none = t
  price_at t (some exit_price) =
      let (pnl, outcome) = compute_pnl p t.direction t.entry_price exit_price t.quantity in
      record t { outcome = some outcome; pnl = some pnl }

  -- Profit and outcome, if the trade is closed and has an exit price.
  unfoldable pub price : Trade p → Trade p
  price t = if t.status == status_closed then price_at t t.exit_price else t

  -- The flag, by the reply of `GetLastLoss`.
  abbrev flag : Trade p → String → Result ℤ → Trade p
  flag t emotional_state (err e) = t
  flag t emotional_state (ok last_loss_unix) =
      if ltb_ℤ (pos 0) last_loss_unix
        && is_revenge (from_unix last_loss_unix) t.entry_at emotional_state
      then record t { revenge_flag = true }
      else t

  abbrev flag_from : Trade p → String → Result ℤ × World p → Trade p × World p
  flag_from t emotional_state (reply, w) = (flag t emotional_state reply, w)

  abbrev flag_state : Trade p → Option String → World p → Trade p × World p
  flag_state t none w = (t, w)
  flag_state t (some emotional_state) w = flag_from t emotional_state (get_last_loss t.user_id w)

  -- The revenge check reads the last loss of the trade's user, if an emotional state is given.
  unfoldable pub check_revenge : Trade p → World p → Trade p × World p
  check_revenge t w = flag_state t t.emotional_state w

  -- The map that is published for a recorded trade.
  unfoldable pub event_data : Trade p → List (String × Arg)
  event_data t =
      ("tradeId", str t.trade_id)
      ∷ ("userId", str t.user_id)
      ∷ ("sessionId", str t.session_id)
      ∷ ("status", str t.status)
      ∷ ("direction", str t.direction)
      ∷ ("entryAt", str (p.format_time t.entry_at))
      ∷ (with_arg "outcome" str t.outcome
          ++ (with_arg "pnl" (λ d. str (p.dec_show d)) t.pnl
              ++ (with_arg "emotionalState" str t.emotional_state
                  ++ (with_arg "planAdherence" int t.plan_adherence
                      ++ (with_arg "exitAt" (λ e. str (p.format_time e)) t.exit_at
                          ++ ("revengeFlag", bool t.revenge_flag) ∷ [])))))

  abbrev loss_task : Trade p → Option Time → List Task
  loss_task t none = []
  loss_task t (some exit_at) =
      if t.status == status_closed && holds_text t.outcome outcome_loss
      then store_last_loss t.user_id (unix exit_at) ∷ []
      else []

  -- The goroutines that are started for the row that `Upsert` returned.
  unfoldable pub side_effects : Trade p → List Task
  side_effects t =
      loss_task t t.exit_at
      ++ publish (event_data t)
        ∷ add_to_window (trades_key t.user_id) (unix_milli t.entry_at) t.trade_id
        ∷ []

  abbrev answer_upsert : String → Result (Trade p) × World p → Answer p
  answer_upsert trace_id (ok row, w) = (respond_json 200 (trade row), side_effects row, w)
  answer_upsert trace_id (err e, w) = (
    respond_error trace_id 500 "INTERNAL_ERROR" (join "Failed to save trade: " (error_text e)),
    [],
    w,
  )

  -- The part of `Create` behind its checks.
  unfoldable pub submit : String → TradeInput p → World p → Answer p
  submit trace_id input w =
      let (t, w') = check_revenge (price (build input)) w in answer_upsert trace_id (upsert t w')

  abbrev create_checked : String → String → TradeInput p → Result (Unit {0}) → World p → Answer p
  create_checked sub trace_id input (err e) w = (respond_bad_request trace_id (error_text e), [], w)
  create_checked sub trace_id input (ok _) w =
      if not (input.user_id == sub)
      then (respond_forbidden trace_id, [], w)
      else submit trace_id input w

  -- POST /trades for the user `sub` of the token
  unfoldable pub create : String → String → Decoded (TradeInput p) → World p → Answer p
  create sub trace_id (malformed message) w =
      (respond_bad_request trace_id (join "Invalid request body: " message), [], w)
  create sub trace_id (decoded input) w = create_checked sub trace_id input (validate input) w

  abbrev answer_get : String → String → Result (Trade p) → Response p
  answer_get sub trace_id (err not_found) =
      respond_not_found trace_id "Trade with the given tradeId does not exist."
  answer_get sub trace_id (err _) =
      respond_error trace_id 500 "INTERNAL_ERROR" "Failed to fetch trade"
  answer_get sub trace_id (ok row) =
      if not (row.user_id == sub) then respond_forbidden trace_id else respond_json 200 (trade row)

  -- GET /trades/{tradeId}
  unfoldable pub get : String → String → String → World p → Response p × World p
  get sub trace_id trade_id w =
      let (found, w') = get_by_id trade_id w in (answer_get sub trace_id found, w')

  -- What a goroutine does when it runs; its error is dropped.
  unfoldable pub run_task : Task → World p → World p
  run_task (store_last_loss user_id exit_at) w = (set_last_loss user_id exit_at w).1
  run_task (publish values) w = (add "trades:events" values w).1
  run_task (add_to_window key score member) w = (add_nx key score member w).1
  run_task (cache_answer key text) w = (set_cached key text w).1

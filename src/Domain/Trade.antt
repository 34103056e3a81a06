-- ===== src/Domain/Trade.antt =====
-- internal/domain/trade.go: the trade schema, the checks of a submitted trade, profit and loss.
pub mod Validation
pub mod Profit
use Prim.Native.String.{len}
use trade_journal.Prelude.{
  ℕ, String, Bool, true, false, not, ◌&&◌, ◌||◌, Option, none, some, leb, if◌then◌else◌, ◌==◌,
  Error, Result, ok, err, bad_request, require, ◌>>=◌, ◌>>◌,
}
use trade_journal.Prelude.Int.{ℤ, pos, ltb_ℤ}
use trade_journal.Prelude.Time.{Time, is_zero_time}
use trade_journal.Platform.{Platform}
use trade_journal.Domain.Enums.{
  direction_long, direction_short, outcome_win, outcome_loss, is_valid_asset_class,
  is_valid_direction, is_valid_status, is_valid_emotional_state,
}

pub record Trade (p : Platform) : Type 0 where
  pub trade_id : String
  pub user_id : String
  pub session_id : String
  pub asset : String
  pub asset_class : String
  pub direction : String
  pub entry_price : p.Decimal
  pub exit_price : Option p.Decimal
  pub quantity : p.Decimal
  pub entry_at : Time
  pub exit_at : Option Time
  pub status : String
  pub plan_adherence : Option ℤ
  pub emotional_state : Option String
  pub entry_rationale : Option String
  pub outcome : Option String
  pub pnl : Option p.Decimal
  pub revenge_flag : Bool
  pub created_at : Time
  pub updated_at : Time

-- The payload that a client submits.
pub record TradeInput (p : Platform) : Type 0 where
  pub trade_id : String
  pub user_id : String
  pub session_id : String
  pub asset : String
  pub asset_class : String
  pub direction : String
  pub entry_price : p.Decimal
  pub exit_price : Option p.Decimal
  pub quantity : p.Decimal
  pub entry_at : Time
  pub exit_at : Option Time
  pub status : String
  pub plan_adherence : Option ℤ
  pub emotional_state : Option String
  pub entry_rationale : Option String

-- `*a < 1 || *a > 5`
abbrev is_adherence : Option ℤ → Bool
is_adherence none = true
is_adherence (some a) = not (ltb_ℤ a (pos 1) || ltb_ℤ (pos 5) a)

abbrev is_emotion : Option String → Bool
is_emotion none = true
is_emotion (some s) = is_valid_emotional_state s

-- `len` counts bytes.
abbrev is_short : Option String → Bool
is_short none = true
is_short (some s) = leb (len s) 500

abbrev quote : String → Option String → String
quote message none = message
quote message (some s) = Prim.Native.String.◌++◌ message s

-- `fmt.Errorf("%w: …", ErrBadRequest)`, by what follows the colon
abbrev reject : String → Error
reject message = bad_request message

abbrev reject_value : String → String → Error
reject_value message value = bad_request (Prim.Native.String.◌++◌ message value)

abbrev reject_optional : String → Option String → Error
reject_optional message value = bad_request (quote message value)

unfoldable pub validate : {p : Platform} → TradeInput p → Result (Unit {0})
validate {p} t = do
  require (not (t.trade_id == "")) (reject "tradeId is required")
  require (not (t.user_id == "")) (reject "userId is required")
  require (not (t.session_id == "")) (reject "sessionId is required")
  require (not (t.asset == "")) (reject "asset is required")
  require (is_valid_asset_class t.asset_class) (reject_value "invalid assetClass: " t.asset_class)
  require (is_valid_direction t.direction) (reject_value "invalid direction: " t.direction)
  require (not (p.dec_is_zero t.entry_price)) (reject "entryPrice is required")
  require (not (p.dec_is_zero t.quantity)) (reject "quantity is required")
  require (not (is_zero_time t.entry_at)) (reject "entryAt is required")
  require (is_valid_status t.status) (reject_value "invalid status: " t.status)
  require (is_adherence t.plan_adherence) (reject "planAdherence must be between 1 and 5")
  require (is_emotion t.emotional_state)
      (reject_optional "invalid emotionalState: " t.emotional_state)
  require (is_short t.entry_rationale) (reject "entryRationale must be ≤ 500 characters")
  ok tt

-- The switch of `ComputePnL`; for another direction `pnl` keeps its zero value.
abbrev gross : (p : Platform) → String → p.Decimal → p.Decimal → p.Decimal → p.Decimal
gross p direction entry_price exit_price quantity =
    if direction == direction_long
    then p.dec_mul (p.dec_sub exit_price entry_price) quantity
    else if direction == direction_short
    then p.dec_mul (p.dec_sub entry_price exit_price) quantity
    else p.dec_zero

unfoldable pub compute_pnl :
    (p : Platform) → String → p.Decimal → p.Decimal → p.Decimal → p.Decimal × String
compute_pnl p direction entry_price exit_price quantity =
    let pnl = gross p direction entry_price exit_price quantity in
    (pnl, if p.dec_is_positive pnl then outcome_win else outcome_loss)

-- ===== src/Store/Scan.antt =====
-- internal/store/trade_store.go, scanTrade and scanTradeRows: the columns of a statement on trades,
-- read in order into the fields of a trade.
pub mod Laws
use trade_journal.Prelude.{
  String, Bool, false, Option, none, some, List, [], ◌∷◌, Result, ok, err, unavailable,
}
use trade_journal.Prelude.Int.{ℤ}
use trade_journal.Prelude.Time.{Time}
use trade_journal.Platform.{Platform}
use trade_journal.Domain.Trade.{Trade}
use trade_journal.Store.Columns.{◌>>=◌}
use trade_journal.Store.Rows.{
  Value, null, text, numeric, integer, instant, truth, trade_columns, cells, selected,
}

-- A destination of `Scan`: what it makes of the trade, given the value.
abbrev pub Dest : Platform → Type 0
Dest p = Value p → Trade p → Option (Trade p)

module _ {p : Platform} where
  -- What the driver stores into `*string`, `*decimal.Decimal`, `*time.Time` and `*bool`; NULL does
  -- not fit any of these.
  abbrev pub to_text : Value p → Option String
  to_text (text s) = some s
  to_text _ = none

  abbrev pub to_numeric : Value p → Option p.Decimal
  to_numeric (numeric d) = some d
  to_numeric _ = none

  abbrev pub to_integer : Value p → Option ℤ
  to_integer (integer n) = some n
  to_integer _ = none

  abbrev pub to_instant : Value p → Option Time
  to_instant (instant t) = some t
  to_instant _ = none

  abbrev pub to_truth : Value p → Option Bool
  to_truth (truth b) = some b
  to_truth _ = none

  -- A pointer is nil for NULL.
  unfoldable pub to_nullable : {A : Type 0} → (Value p → Option A) → Value p → Option (Option A)
  to_nullable read null = some none
  to_nullable read v = read v >>= λ a. some (some a)

  abbrev into : {A : Type 0} → (Value p → Option A) → (A → Trade p → Trade p) → Dest p
  into read set v t = read v >>= λ a. some (set a t)

  -- `Scan`: a destination for each column, or an error.
  unfoldable pub scan : List (Dest p) → List (Value p) → Trade p → Result (Trade p)
  scan [] [] t = ok t
  scan (dest ∷ dests) (v ∷ vs) t = elim (dest v t) [
    | none ↦ err unavailable
    | some t' ↦ scan dests vs t'
  ]
  scan _ _ t = err unavailable

  -- `var t domain.Trade`
  abbrev pub zero_trade : Trade p
  zero_trade = record {
    trade_id = "";
    user_id = "";
    session_id = "";
    asset = "";
    asset_class = "";
    direction = "";
    entry_price = p.dec_zero;
    exit_price = none;
    quantity = p.dec_zero;
    entry_at = 0;
    exit_at = none;
    status = "";
    plan_adherence = none;
    emotional_state = none;
    entry_rationale = none;
    outcome = none;
    pnl = none;
    revenge_flag = false;
    created_at = 0;
    updated_at = 0;
  }

  -- The destinations, in the order of the call; a nullable column is read through a pointer.
  abbrev pub trade_dests : List (Dest p)
  trade_dests =
      into to_text (λ a t. record t { trade_id = a })
      ∷ into to_text (λ a t. record t { user_id = a })
      ∷ into to_text (λ a t. record t { session_id = a })
      ∷ into to_text (λ a t. record t { asset = a })
      ∷ into to_text (λ a t. record t { asset_class = a })
      ∷ into to_text (λ a t. record t { direction = a })
      ∷ into to_numeric (λ a t. record t { entry_price = a })
      ∷ into (to_nullable to_numeric) (λ a t. record t { exit_price = a })
      ∷ into to_numeric (λ a t. record t { quantity = a })
      ∷ into to_instant (λ a t. record t { entry_at = a })
      ∷ into (to_nullable to_instant) (λ a t. record t { exit_at = a })
      ∷ into to_text (λ a t. record t { status = a })
      ∷ into (to_nullable to_integer) (λ a t. record t { plan_adherence = a })
      ∷ into (to_nullable to_text) (λ a t. record t { emotional_state = a })
      ∷ into (to_nullable to_text) (λ a t. record t { entry_rationale = a })
      ∷ into (to_nullable to_text) (λ a t. record t { outcome = a })
      ∷ into (to_nullable to_numeric) (λ a t. record t { pnl = a })
      ∷ into to_truth (λ a t. record t { revenge_flag = a })
      ∷ into to_instant (λ a t. record t { created_at = a })
      ∷ into to_instant (λ a t. record t { updated_at = a })
      ∷ []

  unfoldable pub scan_trade : List (Value p) → Result (Trade p)
  scan_trade values = scan trade_dests values zero_trade

  -- The same for a row of several; the destinations are written out once more.
  abbrev pub rows_dests : List (Dest p)
  rows_dests =
      into to_text (λ a t. record t { trade_id = a })
      ∷ into to_text (λ a t. record t { user_id = a })
      ∷ into to_text (λ a t. record t { session_id = a })
      ∷ into to_text (λ a t. record t { asset = a })
      ∷ into to_text (λ a t. record t { asset_class = a })
      ∷ into to_text (λ a t. record t { direction = a })
      ∷ into to_numeric (λ a t. record t { entry_price = a })
      ∷ into (to_nullable to_numeric) (λ a t. record t { exit_price = a })
      ∷ into to_numeric (λ a t. record t { quantity = a })
      ∷ into to_instant (λ a t. record t { entry_at = a })
      ∷ into (to_nullable to_instant) (λ a t. record t { exit_at = a })
      ∷ into to_text (λ a t. record t { status = a })
      ∷ into (to_nullable to_integer) (λ a t. record t { plan_adherence = a })
      ∷ into (to_nullable to_text) (λ a t. record t { emotional_state = a })
      ∷ into (to_nullable to_text) (λ a t. record t { entry_rationale = a })
      ∷ into (to_nullable to_text) (λ a t. record t { outcome = a })
      ∷ into (to_nullable to_numeric) (λ a t. record t { pnl = a })
      ∷ into to_truth (λ a t. record t { revenge_flag = a })
      ∷ into to_instant (λ a t. record t { created_at = a })
      ∷ into to_instant (λ a t. record t { updated_at = a })
      ∷ []

  unfoldable pub scan_trade_rows : List (Value p) → Result (Trade p)
  scan_trade_rows values = scan rows_dests values zero_trade

  abbrev scanned_with : (List (Value p) → Result (Trade p)) → Trade p → Result (Trade p)
  scanned_with read row = elim (selected trade_columns (cells row)) [
    | none ↦ err unavailable
    | some values ↦ read values
  ]

  -- A statement that returns one row, or none (`pgx.ErrNoRows`).
  unfoldable pub scan_one : Option (Trade p) → Result (Option (Trade p))
  scan_one none = ok none
  scan_one (some row) = elim (scanned_with scan_trade row) [ err e ↦ err e | ok t ↦ ok (some t) ]

  -- The loop over `rows.Next()`: the first error ends it.
  unfoldable pub scan_all : List (Trade p) → Result (List (Trade p))
  scan_all [] = ok []
  scan_all (row ∷ rows) = elim (scanned_with scan_trade_rows row) [
    | err e ↦ err e
    | ok t ↦ elim (scan_all rows) [ err e ↦ err e | ok ts ↦ ok (t ∷ ts) ]
  ]

-- ===== src/Store/Rows.antt =====
-- What a statement on the table trades returns (migrations/001_init_schema.sql): the values of the
-- columns that it selects, in order.
use trade_journal.Prelude.{String, Bool, Option, none, some, List, [], ◌∷◌, ◌==◌, if◌then◌else◌}
use trade_journal.Prelude.Int.{ℤ}
use trade_journal.Prelude.Time.{Time}
use trade_journal.Platform.{Platform}
use trade_journal.Domain.Trade.{Trade}
use trade_journal.Store.Columns.{◌>>=◌}

-- A value of a column as the driver hands it on: UUID, TEXT and the enumerations are texts.
pub data Value (p : Platform) : Type 0 where
  null : Value p
  text : String → Value p
  numeric : p.Decimal → Value p
  integer : ℤ → Value p
  instant : Time → Value p
  truth : Bool → Value p

-- The SELECT list, and the RETURNING list, of every statement on trades.
abbrev pub trade_columns : List String
trade_columns =
    "trade_id" ∷ "user_id" ∷ "session_id" ∷ "asset" ∷ "asset_class" ∷ "direction" ∷ "entry_price"
    ∷ "exit_price" ∷ "quantity" ∷ "entry_at" ∷ "exit_at" ∷ "status" ∷ "plan_adherence"
    ∷ "emotional_state" ∷ "entry_rationale" ∷ "outcome" ∷ "pnl" ∷ "revenge_flag" ∷ "created_at"
    ∷ "updated_at" ∷ []

module _ {p : Platform} where
  -- The value of a column that may be NULL.
  abbrev pub cell : {A : Type 0} → (A → Value p) → Option A → Value p
  cell value none = null
  cell value (some a) = value a

  -- A row of the table trades, by the names of its columns (migrations/001_init_schema.sql).
  abbrev pub cells : Trade p → List (String × Value p)
  cells row =
      ("trade_id", text row.trade_id)
      ∷ ("user_id", text row.user_id)
      ∷ ("session_id", text row.session_id)
      ∷ ("asset", text row.asset)
      ∷ ("asset_class", text row.asset_class)
      ∷ ("direction", text row.direction)
      ∷ ("entry_price", numeric row.entry_price)
      ∷ ("exit_price", cell numeric row.exit_price)
      ∷ ("quantity", numeric row.quantity)
      ∷ ("entry_at", instant row.entry_at)
      ∷ ("exit_at", cell instant row.exit_at)
      ∷ ("status", text row.status)
      ∷ ("plan_adherence", cell integer row.plan_adherence)
      ∷ ("emotional_state", cell text row.emotional_state)
      ∷ ("entry_rationale", cell text row.entry_rationale)
      ∷ ("outcome", cell text row.outcome)
      ∷ ("pnl", cell numeric row.pnl)
      ∷ ("revenge_flag", truth row.revenge_flag)
      ∷ ("created_at", instant row.created_at)
      ∷ ("updated_at", instant row.updated_at)
      ∷ []

  abbrev pub value_of : String → List (String × Value p) → Option (Value p)
  value_of name [] = none
  value_of name ((column, v) ∷ rest) = if column == name then some v else value_of name rest

  -- What a list of columns selects of a row; a column that is not there is refused.
  abbrev pub selected : List String → List (String × Value p) → Option (List (Value p))
  selected [] row = some []
  selected (name ∷ names) row =
      value_of name row >>= λ v. selected names row >>= λ vs. some (v ∷ vs)

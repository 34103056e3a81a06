-- ===== src/Store/Scan/Laws.antt =====
-- The columns of a trade are read back into the trade.
use trade_journal.Prelude.{String, ◌≡◌, refl, Option, none, some, List, [], ◌∷◌, map, arith, ok}
use trade_journal.Prelude.Int.{ℤ}
use trade_journal.Prelude.Time.{Time}
use trade_journal.Platform.{Platform}
use trade_journal.Domain.Trade.{Trade}
use trade_journal.Store.Columns.{◌>>=◌}
use trade_journal.Store.Rows.{Value, text, numeric, integer, instant, cells, cell}
use trade_journal.Store.Scan.{
  to_nullable, to_text, to_numeric, to_integer, to_instant, scan, scan_trade, scan_trade_rows,
  scan_one, scan_all,
}

module _ {p : Platform} where
  nullable_cell :
      {A : Type 0} (value : A → Value p) (read : Value p → Option A) (o : Option A)
      → ((a : A) → to_nullable read (value a) ≡ some (some a))
      → to_nullable read (cell value o) ≡ some o
  unfolding to_nullable
  nullable_cell value read none back = refl
  nullable_cell value read (some a) back = back a

module _ (p : Platform) where
  text_back : (o : Option String) → to_nullable {p = p} to_text (cell text o) ≡ some o
  unfolding to_nullable ◌>>=◌
  text_back o = nullable_cell text to_text o (λ a. refl)

  numeric_back : (o : Option p.Decimal) → to_nullable {p = p} to_numeric (cell numeric o) ≡ some o
  unfolding to_nullable ◌>>=◌
  numeric_back o = nullable_cell numeric to_numeric o (λ a. refl)

  integer_back : (o : Option ℤ) → to_nullable {p = p} to_integer (cell integer o) ≡ some o
  unfolding to_nullable ◌>>=◌
  integer_back o = nullable_cell integer to_integer o (λ a. refl)

  instant_back : (o : Option Time) → to_nullable {p = p} to_instant (cell instant o) ≡ some o
  unfolding to_nullable ◌>>=◌
  instant_back o = nullable_cell instant to_instant o (λ a. refl)

module _ {p : Platform} where
  -- The values of a row, in the order of the table's columns.
  abbrev values_of : Trade p → List (Value p)
  values_of row = map (λ c. c.1) (cells row)

  scan_trade-values : (row : Trade p) → scan_trade (values_of row) ≡ ok row
  unfolding scan_trade scan ◌>>=◌
  scan_trade-values row = ground (
    arith,
    numeric_back p row.exit_price,
    instant_back p row.exit_at,
    integer_back p row.plan_adherence,
    text_back p row.emotional_state,
    text_back p row.entry_rationale,
    text_back p row.outcome,
    numeric_back p row.pnl,
  )

  scan_trade_rows-values : (row : Trade p) → scan_trade_rows (values_of row) ≡ ok row
  unfolding scan_trade_rows
  scan_trade_rows-values row = unfold scan_trade in scan_trade-values row

  pub scan_one_lem : (o : Option (Trade p)) → scan_one o ≡ ok o
  unfolding scan_one ◌>>=◌
  scan_one_lem none = refl
  scan_one_lem (some row) = ground (arith, scan_trade-values row)

  pub scan_all_lem : (rows : List (Trade p)) → scan_all rows ≡ ok rows
  unfolding scan_all ◌>>=◌
  scan_all_lem [] = refl
  scan_all_lem (row ∷ rows) = ground (arith, scan_trade_rows-values row, scan_all_lem rows)

  -- Whatever rows of trades a statement returns, one or none or several, their columns are read
  -- back into the rows, without an error: each column goes into its own field, NULL into none.
  pub scan_trades_lem :
      (o : Option (Trade p)) (rows : List (Trade p))
      → (scan_one o ≡ ok o) × (scan_all rows ≡ ok rows)
  scan_trades_lem o rows = (scan_one_lem o, scan_all_lem rows)

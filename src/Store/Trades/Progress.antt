-- ===== src/Store/Trades/Progress.antt =====
-- What `Upsert` does when every call is answered.
use trade_journal.Prelude.{
  ◌≡◌, ap, ◌∙◌, inl, inr, Option-cases, true, Option, none, some, List, [], ◌∷◌, ◌++◌, Result, ok,
}
use trade_journal.Platform.{Platform}
use trade_journal.Domain.Trade.{Trade}
use trade_journal.Store.Columns.{trade_row}
use trade_journal.Store.Columns.Laws.{trade_row-Keeps}
use trade_journal.Store.Scan.Laws.{scan_one_lem}
use trade_journal.Store.Tables.{Db}
use trade_journal.Store.World.{World, call, statement, continue_with, returning}
use trade_journal.Store.World.Frames.{call_answered}
use trade_journal.Store.Trades.{
  trade_of, has_user, has_session, insert_row, insert_trade, select_trade, upsert, inserted,
  fetched,
}

module _ {p : Platform} where
  -- The trades table as a map that takes a row once: the row that the id names from then on, and
  -- the table.
  abbrev pub put_absent : Trade p → Option (Trade p) → List (Trade p) → Trade p × List (Trade p)
  put_absent row (some old) trades = (old, trades)
  put_absent row none trades = (row, trades ++ row ∷ [])

  module _ (t row : Trade p) (w : World p) (quiet : w.schedule ≡ [])
      (made : trade_row w.now t ≡ some row) where
    -- The statement's result is the call's.
    insert_call :
        {r : Result (Option (Trade p))} {d : Db p}
        → insert_row row w.db ≡ (r, d)
        → call (statement (insert_trade t)) w ≡ (r, record w { db = d })
    unfolding insert_trade
    insert_call e =
        call_answered (statement (insert_trade t)) w quiet
        ∙ rw (made, insert_trade) (ap (λ x. (x.0, record w { db = x.1 })) e)

    -- An id that is taken is answered with its row, and nothing changes.
    pub upsert_taken :
        (old : Trade p) → trade_of row.trade_id w.db.trades ≡ some old → upsert t w ≡ (ok old, w)
    unfolding upsert insert_row select_trade
    upsert_taken old taken =
        let conflict : insert_row row w.db ≡ (ok none, w.db) = rw taken in
        let kept = (trade_row-Keeps w.now t row made).trade_id in
        let read : select_trade t.trade_id w.db ≡ ok (some old) =
          rw (kept, select_trade)
            (scan_one_lem (trade_of row.trade_id w.db.trades) ∙ ap ok taken) in
        ap (continue_with (inserted t.trade_id)) (insert_call conflict)
        ∙ ap (continue_with (λ found. returning (fetched found))) (
            call_answered (statement (λ _ d. (select_trade t.trade_id d, d))) w quiet
            ∙ ap (λ x. (x, w)) read)

    -- A new id is recorded.
    pub upsert_new :
        trade_of row.trade_id w.db.trades ≡ none
        → has_user w.db row.user_id ≡ true
        → has_session w.db row.session_id ≡ true
        → upsert t w ≡ (ok row, record w { db = record w.db { trades = w.db.trades ++ row ∷ [] } })
    unfolding upsert insert_row
    upsert_new free user session =
        let stored : insert_row row w.db
            ≡ (ok (some row), record w.db { trades = w.db.trades ++ row ∷ [] }) =
          rw (free, user, session)
            (ap (λ r. (r, record w.db { trades = w.db.trades ++ row ∷ [] }))
              (scan_one_lem (some row))) in
        ap (continue_with (inserted t.trade_id)) (insert_call stored)

    -- With every call answered, parameters that fit the columns and a known user and session,
    -- `Upsert` puts a row into the table of trades if its id is absent: the first row of an id is
    -- recorded and returned, and any later one returns the first and changes nothing.
    pub upsert-put_absent :
        has_user w.db row.user_id ≡ true
        → has_session w.db row.session_id ≡ true
        → let (result, trades) = put_absent row (trade_of row.trade_id w.db.trades) w.db.trades in
          upsert t w ≡ (ok result, record w { db = record w.db { trades = trades } })
    upsert-put_absent user session = elim (Option-cases (trade_of row.trade_id w.db.trades)) [
      | inl free ↦ rw free (upsert_new free user session)
      | inr (old, taken) ↦ rw taken (upsert_taken old taken)
    ]

-- ===== src/Store/Trades.antt =====
-- internal/store/trade_store.go: each statement over the tables, and the methods that issue them.
pub mod Laws
pub mod Reads
pub mod Progress
use trade_journal.Prelude.{
  ℕ, ◌+◌, String, Bool, Option, none, some, List, [], ◌∷◌, ◌++◌, find, select, ◌==◌, is_some,
  if◌then◌else◌, ◌&&◌, Error, Result, ok, err, not_found, unavailable,
}
use trade_journal.Prelude.Int.{ℤ}
use trade_journal.Prelude.Time.{Time}
use trade_journal.Platform.{Platform}
use trade_journal.Domain.Trade.{Trade}
use trade_journal.Store.Columns.{trade_row, uuid_param}
use trade_journal.Store.Scan.{scan_one}
use trade_journal.Store.Tables.{Db, User, Session}
use trade_journal.Store.World.{Call, call, statement, query, returning, lookup, ◌>>=◌}

module _ {p : Platform} where
  -- `WHERE trade_id = …`; trade_id is the primary key.
  abbrev pub trade_of : String → List (Trade p) → Option (Trade p)
  trade_of id = find (λ t. t.trade_id == id)

  abbrev pub has_user : Db p → String → Bool
  has_user d id = is_some (find (λ (u : User). u.user_id == id) d.users)

  abbrev pub has_session : Db p → String → Bool
  has_session d id = is_some (find (λ (s : Session). s.session_id == id) d.sessions)

  -- `ON CONFLICT (trade_id) DO NOTHING RETURNING …`: no row is returned on a conflict; the foreign
  -- keys are checked for a row that is inserted.
  unfoldable pub insert_row : Trade p → Db p → Result (Option (Trade p)) × Db p
  insert_row row d =
      if is_some (trade_of row.trade_id d.trades)
      then (ok none, d)
      else if has_user d row.user_id && has_session d row.session_id
      then (scan_one (some row), record d { trades = d.trades ++ row ∷ [] })
      else (err unavailable, d)

  unfoldable pub insert_trade : Trade p → Time → Db p → Result (Option (Trade p)) × Db p
  insert_trade t now d = elim (trade_row now t) [
    | none ↦ (err unavailable, d)
    | some row ↦ insert_row row d
  ]

  -- `SELECT … FROM trades WHERE trade_id = $1`; `ok none` stands for pgx.ErrNoRows.
  unfoldable pub select_trade : String → Db p → Result (Option (Trade p))
  select_trade id d = elim (uuid_param p id) [
    | err e ↦ err e
    | ok u ↦ scan_one (trade_of u d.trades)
  ]

  -- The row that was returned, or the canonical one; none at all is an error of the driver.
  abbrev fetched : Option (Trade p) → Result (Trade p)
  fetched none = err unavailable
  fetched (some row) = ok row

  abbrev inserted : String → Option (Trade p) → Call p (Trade p)
  inserted id none = query (select_trade id) >>= λ found. returning (fetched found)
  inserted id (some row) = returning (ok row)

  unfoldable pub upsert : Trade p → Call p (Trade p)
  upsert t = call (statement (insert_trade t)) >>= inserted t.trade_id

  unfoldable pub get_by_id : String → Call p (Trade p)
  get_by_id id = lookup (select_trade id)

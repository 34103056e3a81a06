-- ===== src/Store/Trades/Reads.antt =====
-- What `GetByID` reads.
use trade_journal.Prelude.{
  String, ◌≡◌, ap, ◌∙◌, [], ◌≢◌, inl, inr, Option, none, some, arith, ok, err, not_found,
  Option-cases,
}
use trade_journal.Platform.{Platform}
use trade_journal.Domain.Trade.{Trade}
use trade_journal.Store.Scan.Laws.{scan_one_lem}
use trade_journal.Store.Tables.{Db}
use trade_journal.Store.World.{World}
use trade_journal.Store.World.Frames.{lookup_frame, lookup_ok, lookup_missing, lookup_answered}
use trade_journal.Store.Trades.{trade_of, select_trade, get_by_id}

module _ {p : Platform} where
  pub select_trade_ok :
      (id : String) (d : Db p) (o : Option (Trade p))
      → select_trade id d ≡ ok o
      → (u : String) × (p.uuid id ≡ some u) × (trade_of u d.trades ≡ o)
  unfolding select_trade
  select_trade_ok id d o e = elim (Option-cases (p.uuid id)) [
    | inl bad ↦ let impossible = rw (bad, select_trade) at e in cc
    | inr (u, good) ↦ (u, good, ground (arith, scan_one_lem (trade_of u d.trades)))
  ]

  pub get_by_id_frame : (id : String) (w : World p) → (get_by_id id w).1.db ≡ w.db
  unfolding get_by_id
  get_by_id_frame id w = lookup_frame (select_trade id) w

  pub get_by_id_ok :
      (id : String) (w : World p) (row : Trade p)
      → (get_by_id id w).0 ≡ ok row
      → (u : String) × (p.uuid id ≡ some u) × (trade_of u w.db.trades ≡ some row)
  unfolding get_by_id
  get_by_id_ok id w row e = select_trade_ok id w.db (some row) (lookup_ok (select_trade id) w e)

  select_trade-ne-missing : (id : String) (d : Db p) → select_trade id d ≢ err not_found
  unfolding select_trade
  select_trade-ne-missing id d e = elim (Option-cases (p.uuid id)) [
    | inl bad ↦ ground arith
    | inr (u, good) ↦ ground (arith, scan_one_lem (trade_of u d.trades))
  ]

  -- `ErrNotFound` is returned only for an id that is not recorded.
  pub get_by_id_missing :
      (id : String) (w : World p)
      → (get_by_id id w).0 ≡ err not_found
      → (u : String) × (p.uuid id ≡ some u) × (trade_of u w.db.trades ≡ none)
  unfolding get_by_id
  get_by_id_missing id w e =
      select_trade_ok id w.db none
        (lookup_missing (select_trade id) w (select_trade-ne-missing id w.db) e)

  -- With no fault ahead a recorded trade is found.
  pub get_by_id_answered :
      (id u : String) (row : Trade p) (w : World p)
      → w.schedule ≡ []
      → p.uuid id ≡ some u
      → trade_of u w.db.trades ≡ some row
      → get_by_id id w ≡ (ok row, w)
  unfolding get_by_id select_trade
  get_by_id_answered id u row w quiet key held =
      let read : select_trade id w.db ≡ ok (some row) =
        rw (key, select_trade) (scan_one_lem (trade_of u w.db.trades) ∙ ap ok held) in
      lookup_answered (select_trade id) w quiet read

-- ===== src/Store/Trades/Laws.antt =====
-- The trades table as a map from trade ids to rows that only grows.
use mathlib.Core.Option.{some-injective}
use trade_journal.Prelude.{
  String, ◌≡◌, refl, sym, ◌∙◌, ◌&&◌, inl, inr, true, Option, none, some, [], ◌∷◌, ◌++◌, find-append,
  ◌==◌, arith, Result, ok, err, unavailable, Bool-cases, Option-cases,
}
use trade_journal.Prelude.Time.{Time}
use trade_journal.Platform.{Platform}
use trade_journal.Domain.Trade.{Trade}
use trade_journal.Store.Columns.{trade_row}
use trade_journal.Store.Columns.Laws.{trade_row-Keeps}
use trade_journal.Store.Scan.Laws.{scan_one_lem}
use trade_journal.Store.Tables.{Db}
use trade_journal.Store.World.{World, call, query, statement}
use trade_journal.Store.World.Frames.{
  statement_keeps, bind_keeps, bind_ok, query_ok, query_then_frame, statement_post,
}
use trade_journal.Store.Trades.{
  trade_of, has_user, has_session, insert_row, insert_trade, select_trade, fetched, inserted,
  upsert,
}

module _ {p : Platform} where
  -- What the INSERT of `Upsert` can do: refuse the parameters or the foreign keys, find the id
  -- taken, or append the row that it returns.
  pub data Inserts (t : Trade p) (now : Time) (d : Db p) (r : Result (Option (Trade p))) (d' : Db p)
      : Type 0 where
    refuses : r ≡ err unavailable → d' ≡ d → Inserts t now d r d'
    conflicts :
        (row old : Trade p)
        → trade_row now t ≡ some row
        → trade_of row.trade_id d.trades ≡ some old
        → r ≡ ok none
        → d' ≡ d
        → Inserts t now d r d'
    appends :
        (row : Trade p)
        → trade_row now t ≡ some row
        → trade_of row.trade_id d.trades ≡ none
        → has_user d row.user_id ≡ true
        → has_session d row.session_id ≡ true
        → r ≡ ok (some row)
        → d' ≡ record d { trades = d.trades ++ row ∷ [] }
        → Inserts t now d r d'

  insert_row-Inserts :
      (t row : Trade p) (now : Time) (d : Db p)
      → trade_row now t ≡ some row
      → Inserts t now d (insert_row row d).0 (insert_row row d).1
  unfolding insert_row
  insert_row-Inserts t row now d e = elim (Option-cases (trade_of row.trade_id d.trades)) [
    | inr (old, taken) ↦ conflicts row old e taken (ground arith) (ground arith)
    | inl free ↦ elim (Bool-cases (has_user d row.user_id && has_session d row.session_id)) [
      | inl known ↦
          appends row e free (ground arith) (ground arith) (ground (arith, scan_one_lem (some row)))
            (ground arith)
      | inr dangling ↦ refuses (ground arith) (ground arith)
    ]
  ]

  pub insert_trade-Inserts :
      (t : Trade p) (now : Time) (d : Db p)
      → Inserts t now d (insert_trade t now d).0 (insert_trade t now d).1
  unfolding insert_trade
  insert_trade-Inserts t now d = elim (Option-cases (trade_row now t)) [
    | inl unfit ↦ refuses (ground arith) (ground arith)
    | inr (row, e) ↦ rw (e, insert_trade) (insert_row-Inserts t row now d e)
  ]

  -- A statement that inserts keeps every row that is there.
  Inserts-keeps :
      (id : String) (found : Trade p) {t : Trade p} {now : Time} {d d' : Db p}
      {r : Result (Option (Trade p))}
      → Inserts t now d r d'
      → trade_of id d.trades ≡ some found
      → trade_of id d'.trades ≡ some found
  Inserts-keeps id found (refuses _ same) h = rw same h
  Inserts-keeps id found (conflicts _ _ _ _ _ same) h = rw same h
  Inserts-keeps id found (appends row _ _ _ _ _ more) h =
      rw more (find-append (λ (t : Trade p). t.trade_id == id) _ (row ∷ []) h)

  -- The read that may follow the INSERT leaves the tables alone.
  inserted_frame :
      (id : String) (o : Option (Trade p)) (v : World p) → (inserted id o v).1.db ≡ v.db
  inserted_frame id none v = query_then_frame (select_trade id) fetched v
  inserted_frame id (some row) v = refl

  -- What the INSERT keeps of the tables `Upsert` keeps.
  pub upsert-db :
      (P : Db p → Type 0) (t : Trade p) (w : World p)
      → ((now : Time) (d : Db p) → P d → P (insert_trade t now d).1)
      → P w.db
      → P (upsert t w).1.db
  unfolding upsert
  upsert-db P t w keeps h =
      bind_keeps (call (statement (insert_trade t))) (inserted t.trade_id) w (λ v. P v.db)
        (statement_keeps P (insert_trade t) keeps w h)
        (λ o v k. rw (inserted_frame t.trade_id o v) k)

  -- A trade that was recorded is never changed or lost: whatever is submitted later, and whatever
  -- call fails on the way, its id still names the same row.
  pub upsert_keeps :
      (t : Trade p) (id : String) (row : Trade p) (w : World p)
      → trade_of id w.db.trades ≡ some row
      → trade_of id (upsert t w).1.db.trades ≡ some row
  upsert_keeps t id row w =
      upsert-db (λ d. trade_of id d.trades ≡ some row) t w
        (λ now d. Inserts-keeps id row (insert_trade-Inserts t now d))

  -- The id of a row that the tables hold, submitted once more.
  module _ (t row : Trade p) (u : String) (key : p.uuid t.trade_id ≡ some u) where
    abbrev Resubmits : Db p → Result (Option (Trade p)) → Db p → Type 0
    Resubmits d r d' = (d' ≡ d) × ((o : Option (Trade p)) → r ≡ ok o → o ≡ none)

    Inserts-Resubmits :
        {now : Time} {d d' : Db p} {r : Result (Option (Trade p))}
        → trade_of u d.trades ≡ some row
        → Inserts t now d r d'
        → Resubmits d r d'
    Inserts-Resubmits held (refuses e same) = (same, λ o h. cc)
    Inserts-Resubmits held (conflicts _ _ _ _ e same) = (same, λ o h. cc)
    Inserts-Resubmits {now} {d} held (appends new made free _ _ e more) =
        let kept = (trade_row-Keeps now t new made).trade_id in
        let same : new.trade_id ≡ u = some-injective _ _ (sym kept ∙ key) in
        let gone : trade_of u d.trades ≡ none = rw same at free in cc

    -- The read behind a conflict returns the recorded row.
    select_recorded :
        (v : World p) (r : Trade p)
        → trade_of u v.db.trades ≡ some row
        → (inserted t.trade_id none v).0 ≡ ok r
        → r ≡ row
    unfolding select_trade
    select_recorded v r held e =
        let (o, read, got) = bind_ok (query (select_trade t.trade_id)) _ v e in
        let found : select_trade t.trade_id v.db ≡ ok o =
          query_ok (select_trade t.trade_id) v read in
        ground (arith, scan_one_lem (trade_of u v.db.trades))

    -- Submitting it changes no table, and whatever comes back as a success is the recorded row.
    pub upsert_resubmits :
        (w : World p)
        → trade_of u w.db.trades ≡ some row
        → ((upsert t w).1.db ≡ w.db) × ((r : Trade p) → (upsert t w).0 ≡ ok r → r ≡ row)
    unfolding upsert
    upsert_resubmits w held = (
      upsert-db (λ d. d ≡ w.db) t w
          (λ now d e. (Inserts-Resubmits (rw e held) (insert_trade-Inserts t now d)).0 ∙ e) refl,
      λ r e.
          let (o, done, got) =
            bind_ok (call (statement (insert_trade t))) (inserted t.trade_id) w e in
          let (at_conflict, same) =
            statement_post (λ x d. x ≡ ok o → (o ≡ none) × (d ≡ w.db)) (insert_trade t) w
              (λ h.
                let (kept, missed) = Inserts-Resubmits held (insert_trade-Inserts t w.now w.db) in
                (missed o h, kept))
              (λ h. cc) (λ h. cc) done in
          select_recorded (call (statement (insert_trade t)) w).1 r (rw same held)
            (rw at_conflict at got),
    )

-- ===== src/Api/TradeHandler/Tenancy.antt =====
-- What POST /trades and GET /trades/{tradeId} guard: validation and the tenant.
use trade_journal.Prelude.{
  String, ◌≡◌, refl, ap, ◌∙◌, ◌≢◌, ◌⊎◌, inl, inr, Bool, false, Option, none, some, List, [], ◌∷◌,
  ◌++◌, select, ◌==◌, eq_iff, arith, Result, ok, err, Bool-cases, not_found,
}
use trade_journal.Prelude.Time.{Time}
use trade_journal.Platform.{Platform}
use trade_journal.Domain.Trade.{Trade, TradeInput}
use trade_journal.Domain.Trade.Validation.{IsWellFormed}
use trade_journal.Store.Tables.{Db}
use trade_journal.Store.Columns.Laws.{trade_row-Keeps}
use trade_journal.Store.World.{World}
use trade_journal.Store.Trades.{trade_of, get_by_id}
use trade_journal.Store.Trades.Reads.{get_by_id_ok, get_by_id_missing, get_by_id_frame}
use trade_journal.Store.Trades.Laws.{Inserts, refuses, conflicts, appends, insert_trade-Inserts}
use trade_journal.Api.Response.{Response, trade}
use trade_journal.Api.TradeHandler.{Decoded, malformed, decoded, create, Answer, get, answer_get}
use trade_journal.Api.TradeHandler.Submission.{create_by, create-db}

module _ {p : Platform} where
  select-append_other :
      (q : Trade p → Bool) (xs : List (Trade p)) (x : Trade p)
      → q x ≡ false
      → select q (xs ++ x ∷ []) ≡ select q xs
  select-append_other q [] x h = ground arith
  select-append_other q (y ∷ xs) x h = ground (arith, select-append_other q xs x h)

  -- The rows of a user, as in `WHERE user_id = …`.
  abbrev pub trades_of_user : String → Db p → List (Trade p)
  trades_of_user u d = select (λ t. t.user_id == u) d.trades

  Inserts-isolated :
      (u : String) {t : Trade p} {now : Time} {d d' : Db p} {r : Result (Option (Trade p))}
      → p.uuid t.user_id ≢ some u
      → Inserts t now d r d'
      → trades_of_user u d' ≡ trades_of_user u d
  Inserts-isolated u other (refuses _ same) = ap (trades_of_user u) same
  Inserts-isolated u other (conflicts _ _ _ _ _ same) = ap (trades_of_user u) same
  Inserts-isolated u {t} {now} {d} other (appends row made _ _ _ _ more) =
      let kept = (trade_row-Keeps now t row made).user_id in
      let owner : row.user_id ≢ u = λ e. other (kept ∙ ap some e) in
      ap (trades_of_user u) more
      ∙ select-append_other (λ t. t.user_id == u) d.trades row
          (ground (arith, eq_iff row.user_id u))

  -- A request made with one user's token adds, changes and removes no trade of another user,
  -- whatever its body is and whatever call fails on the way.
  pub create_isolated :
      (sub trace : String) (body : Decoded (TradeInput p)) (w : World p) (u : String)
      → p.uuid sub ≢ some u
      → trades_of_user u (create sub trace body w).2.db ≡ trades_of_user u w.db
  create_isolated sub trace body w u other =
      create-db (λ d. trades_of_user u d ≡ trades_of_user u w.db) sub trace body w
        (λ t owner now d h. Inserts-isolated u (rw owner other) (insert_trade-Inserts t now d) ∙ h)
        refl

  -- The body is a well-formed trade of the user of the token.
  abbrev pub IsAdmissible : String → Decoded (TradeInput p) → Type 0
  IsAdmissible sub (malformed message) = ⊥
  IsAdmissible sub (decoded input) = IsWellFormed input × (input.user_id ≡ sub)

  -- What a request gets that stops at a check.
  abbrev pub IsRefused : World p → Answer p → Type 0
  IsRefused w (response, tasks, w') =
      ((response.status ≡ 400) ⊎ (response.status ≡ 403)) × (tasks ≡ []) × (w' ≡ w)

  -- A body that cannot be read, is not well formed, or names another user than the token is
  -- answered with 400 or 403, starts no goroutine, and makes no call: nothing at all changes.
  pub create_refuses :
      (sub trace : String) (body : Decoded (TradeInput p)) (w : World p)
      → ¬ IsAdmissible sub body
      → IsRefused w (create sub trace body w)
  unfolding create
  create_refuses sub trace (malformed message) w bad = (inl refl, refl, refl)
  create_refuses sub trace (decoded input) w bad =
      create_by (IsRefused w) sub trace input w (λ r status _. (status, refl, refl))
        (λ good owner. absurd (bad (good, owner)))

  -- What an answer of GET /trades/{tradeId} says of the tables.
  pub record Guards (sub id : String) (d : Db p) (response : Response p) : Type 0 where
    pub owned :
        response.status ≡ 200
        → (u : String) × (row : Trade p) × (p.uuid id ≡ some u)
          × (trade_of u d.trades ≡ some row)
          × (row.user_id ≡ sub)
          × (response.body ≡ trade row)
    pub foreign :
        response.status ≡ 403
        → (u : String) × (row : Trade p) × (p.uuid id ≡ some u)
          × (trade_of u d.trades ≡ some row)
          × (row.user_id ≢ sub)
    pub missing :
        response.status ≡ 404 → (u : String) × (p.uuid id ≡ some u) × (trade_of u d.trades ≡ none)

  by_owner :
      (sub trace id u : String) (d : Db p) (row : Trade p)
      → p.uuid id ≡ some u
      → trade_of u d.trades ≡ some row
      → Guards sub id d (answer_get sub trace (ok row))
  by_owner sub trace id u d row key held = elim (Bool-cases (row.user_id == sub)) [
    | inl same ↦ rw same (record {
      owned = λ _. (u, row, key, held, (eq_iff _ _).0 same, refl);
      foreign = λ h. ground arith;
      missing = λ h. ground arith;
    })
    | inr other ↦ rw other (record {
      owned = λ h. ground arith;
      foreign = λ _. (u, row, key, held, ground (arith, eq_iff row.user_id sub));
      missing = λ h. ground arith;
    })
  ]

  answer_get-Guards :
      (sub trace id : String) (w : World p) (r : Result (Trade p))
      → (get_by_id id w).0 ≡ r
      → Guards sub id w.db (answer_get sub trace r)
  answer_get-Guards sub trace id w (ok row) e =
      let (u, key, held) = get_by_id_ok id w row e in by_owner sub trace id u w.db row key held
  answer_get-Guards sub trace id w (err not_found) e = record {
    owned = λ h. ground arith;
    foreign = λ h. ground arith;
    missing = λ _. get_by_id_missing id w e;
  }
  answer_get-Guards sub trace id w (err _) e = record {
    owned = λ h. ground arith;
    foreign = λ h. ground arith;
    missing = λ h. ground arith;
  }

  -- A trade is shown only to its owner: a 200 answer holds the row that is recorded under the id,
  -- and its user is the user of the token; 403 is given only for a recorded row of another user,
  -- and 404 only for an id that is not recorded. The request changes no table.
  pub get-Guards :
      (sub trace id : String) (w : World p)
      → Guards sub id w.db (get sub trace id w).0 × ((get sub trace id w).1.db ≡ w.db)
  unfolding get
  get-Guards sub trace id w =
      (answer_get-Guards sub trace id w (get_by_id id w).0 refl, get_by_id_frame id w)

-- ===== src/Api/TradeHandler/Resubmission.antt =====
-- What a POST /trades does whose trade id is recorded already.
use trade_journal.Prelude.{
  String, ◌≡◌, refl, sym, ap, ◌∙◌, ◌≢◌, Option, none, some, [], arith, Result, ok, err, eq_iff,
  refl,
}
use trade_journal.Platform.{Platform}
use trade_journal.Domain.Trade.{Trade, TradeInput}
use trade_journal.Store.World.{World}
use trade_journal.Store.Trades.{trade_of, upsert}
use trade_journal.Store.Trades.Laws.{upsert_resubmits}
use trade_journal.Cache.LastLoss.Laws.{get_last_loss_answered}
use trade_journal.Api.TradeHandler.Tenancy.{IsAdmissible}
use trade_journal.Store.Columns.{trade_row}
use trade_journal.Store.Columns.Laws.{trade_row-Keeps}
use trade_journal.Store.Trades.Progress.{upsert_taken}
use trade_journal.Store.Trades.Reads.{get_by_id_answered}
use trade_journal.Api.Response.{trade, respond_json, respond_forbidden}
use trade_journal.Api.TradeHandler.{
  Answer, decoded, answer_upsert, submit, create, get, answer_get, side_effects, build, price,
  flag_state, check_revenge,
}
use trade_journal.Api.TradeHandler.Submission.{prepared, prepared-Checked, create_by}

module _ {p : Platform} where
  -- The answer of a resubmission: the tables are as before, and a 200 holds the recorded row and
  -- starts the goroutines of the recorded row.
  abbrev pub IsRepeat : Trade p → World p → Answer p → Type 0
  IsRepeat row w (response, tasks, w') =
      (w'.db ≡ w.db)
      × (response.status ≡ 200 → (response.body ≡ trade row) × (tasks ≡ side_effects row))

  answer_upsert-IsRepeat :
      (row : Trade p) (trace : String) (w : World p) (x : Result (Trade p) × World p)
      → x.1.db ≡ w.db
      → ((r : Trade p) → x.0 ≡ ok r → r ≡ row)
      → IsRepeat row w (answer_upsert trace x)
  answer_upsert-IsRepeat row trace w (ok r, v) same only =
      (same, λ _. (ap trade (only r refl), ap side_effects (only r refl)))
  answer_upsert-IsRepeat row trace w (err e, v) same only = (same, λ h. ground arith)

  -- A trade id is taken once. Once a row is recorded under it, a request with this id, whoever
  -- sends it and whatever else it holds, changes no table; if it is answered with 200, then with
  -- the row recorded first.
  pub create_resubmits :
      (sub trace u : String) (input : TradeInput p) (row : Trade p) (w : World p)
      → p.uuid input.trade_id ≡ some u
      → trade_of u w.db.trades ≡ some row
      → IsRepeat row w (create sub trace (decoded input) w)
  unfolding submit
  create_resubmits sub trace u input row w key held =
      create_by (IsRepeat row w) sub trace input w (λ r status _. (refl, λ h. ground arith))
        (λ _ _. submitted)
    where
      submitted : IsRepeat row w (submit trace input w)
      submitted =
          let c = prepared-Checked input w in
          let (same, only) =
            upsert_resubmits (prepared input w).0 row u (rw c.trade_id key) (prepared input w).1
              (rw c.db held) in
          answer_upsert-IsRepeat row trace w (upsert (prepared input w).0 (prepared input w).1)
            (same ∙ c.db) only

  -- With no fault ahead the revenge check leaves the world as it is.
  pub prepared-world :
      (input : TradeInput p) (w : World p) → w.schedule ≡ [] → (prepared input w).1 ≡ w
  unfolding check_revenge
  prepared-world input w quiet = by_state (price (build input)).emotional_state
    where
      by_state : (o : Option String) → (flag_state (price (build input)) o w).1 ≡ w
      by_state none = refl
      by_state (some e) =
          ap (λ x. x.1) (get_last_loss_answered (price (build input)).user_id w quiet)

  -- With every call answered and parameters that fit the columns, an id that is recorded is answered
  -- with its row, whose goroutines are started.
  pub create_taken :
      (sub trace : String) (input : TradeInput p) (new row : Trade p) (w : World p)
      → IsAdmissible sub (decoded input)
      → w.schedule ≡ []
      → trade_row w.now (prepared input w).0 ≡ some new
      → trade_of new.trade_id w.db.trades ≡ some row
      → create sub trace (decoded input) w ≡ (respond_json 200 (trade row), side_effects row, w)
  unfolding submit
  create_taken sub trace input new row w good quiet made taken =
      create_by (λ a. a ≡ (respond_json 200 (trade row), side_effects row, w)) sub trace input w
        (λ _ _ bad. absurd (bad good))
        (λ _ _.
          ap (λ v. answer_upsert trace (upsert (prepared input w).0 v))
            (prepared-world input w quiet)
          ∙ ap (answer_upsert trace) (upsert_taken (prepared input w).0 new w quiet made row taken))

  -- A trade id that is recorded for another user: with every call answered and parameters that fit
  -- the columns, POST /trades answers the recorded trade of that user with 200 and starts the
  -- goroutines of that trade, though GET /trades/{tradeId} answers the same user with 403.
  pub create_discloses :
      (sub trace : String) (input : TradeInput p) (new row : Trade p) (w : World p)
      → IsAdmissible sub (decoded input)
      → w.schedule ≡ []
      → trade_row w.now (prepared input w).0 ≡ some new
      → trade_of new.trade_id w.db.trades ≡ some row
      → row.user_id ≢ sub
      → (create sub trace (decoded input) w ≡ (respond_json 200 (trade row), side_effects row, w))
        × ((get sub trace input.trade_id w).0 ≡ respond_forbidden trace)
  unfolding get
  create_discloses sub trace input new row w good quiet made taken foreign =
      (create_taken sub trace input new row w good quiet made taken, refused)
    where
      refused : (get sub trace input.trade_id w).0 ≡ respond_forbidden trace
      refused =
          let kept = (trade_row-Keeps w.now (prepared input w).0 new made).trade_id in
          let key = ap p.uuid (sym (prepared-Checked input w).trade_id) ∙ kept in
          ap (λ x. answer_get sub trace x.0)
            (get_by_id_answered input.trade_id new.trade_id row w quiet key taken)
          ∙ ground (arith, eq_iff row.user_id sub)

-- ===== src/Api/TradeHandler/Submission.antt =====
-- What `Create` hands to the store, and what it keeps of the tables.
use trade_journal.Prelude.{
  String, ◌≡◌, refl, ◌∙◌, ◌⊎◌, inl, inr, Bool, true, false, Option, none, some, [], ◌==◌, eq_iff,
  arith, Result, ok, err,
}
use trade_journal.Prelude.Int.{ℤ}
use trade_journal.Prelude.Time.{Time}
use trade_journal.Platform.{Platform}
use trade_journal.Domain.Trade.{Trade, TradeInput, validate, compute_pnl}
use trade_journal.Domain.Trade.Validation.{IsWellFormed, validate_iff}
use trade_journal.Store.Tables.{Db}
use trade_journal.Store.World.{World}
use trade_journal.Store.Trades.{insert_trade, upsert}
use trade_journal.Store.Trades.Laws.{upsert-db}
use trade_journal.Cache.LastLoss.{get_last_loss}
use trade_journal.Cache.LastLoss.Laws.{get_last_loss-db}
use trade_journal.Api.Response.{Response}
use trade_journal.Api.TradeHandler.{
  Decoded, malformed, decoded, build, price, flag, flag_state, check_revenge, submit, answer_upsert,
  create_checked, create, Answer,
}

module _ {p : Platform} where
  -- The revenge check writes no table, and keeps the key and the owner of the trade.
  pub record Checked (t : Trade p) (w : World p) (x : Trade p × World p) : Type 0 where
    pub db : x.1.db ≡ w.db
    pub trade_id : x.0.trade_id ≡ t.trade_id
    pub user_id : x.0.user_id ≡ t.user_id

  flag_keys :
      (t : Trade p) (e : String) (r : Result ℤ)
      → ((flag t e r).trade_id ≡ t.trade_id) × ((flag t e r).user_id ≡ t.user_id)
  flag_keys t e (err _) = (refl, refl)
  flag_keys t e (ok n) = ground arith

  flag_state-Checked :
      (t : Trade p) (o : Option String) (w : World p) → Checked t w (flag_state t o w)
  flag_state-Checked t none w = record { db = refl; trade_id = refl; user_id = refl }
  flag_state-Checked t (some e) w =
      let (trade_id, user_id) = flag_keys t e (get_last_loss t.user_id w).0 in
      record { db = get_last_loss-db t.user_id w; trade_id = trade_id; user_id = user_id }

  price_keys : (t : Trade p) → ((price t).trade_id ≡ t.trade_id) × ((price t).user_id ≡ t.user_id)
  unfolding price compute_pnl
  price_keys t = ground arith

  -- The trade that `Create` hands to the store.
  abbrev pub prepared : TradeInput p → World p → Trade p × World p
  prepared input w = check_revenge (price (build input)) w

  pub prepared-Checked :
      (input : TradeInput p) (w : World p) → Checked (build input) w (prepared input w)
  unfolding check_revenge
  prepared-Checked input w =
      let t = price (build input) in
      let (trade_id, user_id) = price_keys (build input) in
      let c = flag_state-Checked t t.emotional_state w in
      record { db = c.db; trade_id = c.trade_id ∙ trade_id; user_id = c.user_id ∙ user_id }

  answer_upsert-world :
      (trace : String) (x : Result (Trade p) × World p) → (answer_upsert trace x).2 ≡ x.1
  answer_upsert-world trace (ok row, w) = refl
  answer_upsert-world trace (err e, w) = refl

  pub submit-world :
      (trace : String) (input : TradeInput p) (w : World p)
      → (submit trace input w).2 ≡ (upsert (prepared input w).0 (prepared input w).1).1
  unfolding submit
  submit-world trace input w = answer_upsert-world trace _

  -- A request with a readable body stops at a check, with 400 or 403, or is submitted.
  pub create_by :
      (Q : Answer p → Type 0) (sub trace : String) (input : TradeInput p) (w : World p)
      → ((r : Response p)
          → (r.status ≡ 400) ⊎ (r.status ≡ 403)
          → ¬ (IsWellFormed input × (input.user_id ≡ sub))
          → Q (r, [], w))
      → (IsWellFormed input → input.user_id ≡ sub → Q (submit trace input w))
      → Q (create sub trace (decoded input) w)
  unfolding create
  create_by Q sub trace input w refused accepted = by_verdict (validate input) refl
    where
      by_owner :
          (b : Bool)
          → (input.user_id == sub) ≡ b
          → IsWellFormed input
          → Q (create_checked sub trace input (ok tt) w)
      by_owner false e good =
          rw e (refused _ (inr refl) (λ a. cc ((eq_iff input.user_id sub).1 a.1)))
      by_owner true e good = rw e (accepted good ((eq_iff _ _).0 e))

      by_verdict :
          (r : Result (Unit {0})) → validate input ≡ r → Q (create_checked sub trace input r w)
      by_verdict (err x) e = refused _ (inl refl) (λ a. cc ((validate_iff input).1 a.0))
      by_verdict (ok tt) e = by_owner (input.user_id == sub) refl ((validate_iff input).0 e)

  -- What every submission keeps of the tables, `Create` keeps for the user of the token.
  pub create-db :
      (P : Db p → Type 0) (sub trace : String) (body : Decoded (TradeInput p)) (w : World p)
      → ((t : Trade p)
          → t.user_id ≡ sub
          → (now : Time) (d : Db p) → P d
          → P (insert_trade t now d).1)
      → P w.db
      → P (create sub trace body w).2.db
  unfolding create
  create-db P sub trace (malformed m) w keeps h = h
  create-db P sub trace (decoded input) w keeps h =
      create_by (λ a. P a.2.db) sub trace input w (λ _ _ _. h)
        (λ _ owner.
          let c = prepared-Checked input w in
          rw (submit-world trace input w) (
            upsert-db P (prepared input w).0 (prepared input w).1
              (keeps (prepared input w).0 (c.user_id ∙ owner)) (rw c.db h)))

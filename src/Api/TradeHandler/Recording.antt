-- ===== src/Api/TradeHandler/Recording.antt =====
-- What a POST /trades of a new trade records, and when it flags a revenge trade.
use mathlib.Core.Option.{some-injective}
use trade_journal.Prelude.{
  subst, String, ◌≡◌, refl, ap, sym, ◌∙◌, ◌↔◌, ◌++◌, true, false, Option, none, some, [], ◌∷◌,
  arith, Result,
}
use trade_journal.Prelude.Int.{ℤ, pos, ltb_ℤ}
use trade_journal.Prelude.Time.{Time, from_unix}
use trade_journal.Platform.{Platform, Payload, digits, bytes}
use trade_journal.Domain.Revenge.{is_revenge}
use trade_journal.Domain.Trade.{Trade, TradeInput}
use trade_journal.Cache.LastLoss.{last_loss_key, int_reply}
use trade_journal.Cache.LastLoss.Laws.{get_last_loss_answered}
use trade_journal.Store.Columns.{trade_row}
use trade_journal.Store.Trades.{trade_of, has_user, has_session, upsert}
use trade_journal.Store.Trades.Progress.{upsert_new}
use trade_journal.Store.World.{World}
use trade_journal.Api.Response.{trade, respond_json}
use trade_journal.Api.TradeHandler.{
  decoded, answer_upsert, submit, create, side_effects, build, price, flag, flag_from, flag_state,
  check_revenge,
}
use trade_journal.Api.TradeHandler.Submission.{prepared, create_by}
use trade_journal.Api.TradeHandler.Tenancy.{IsAdmissible}
use trade_journal.Api.TradeHandler.Resubmission.{prepared-world}

abbrev number_of : Payload → ℤ
number_of (digits n) = n
number_of (bytes b) = pos 0

module _ {p : Platform} where
  -- A well-formed trade of the token's user under a new id is recorded, if every call is answered,
  -- its values fit the columns, and its user and its session are there: the answer is 200 with the
  -- row, which is appended to the table, and the row's goroutines are started. The session can be
  -- another user's.
  pub create_records :
      (sub trace : String) (input : TradeInput p) (new : Trade p) (w : World p)
      → IsAdmissible sub (decoded input)
      → w.schedule ≡ []
      → trade_row w.now (prepared input w).0 ≡ some new
      → trade_of new.trade_id w.db.trades ≡ none
      → has_user w.db new.user_id ≡ true
      → has_session w.db new.session_id ≡ true
      → create sub trace (decoded input) w ≡ (
        respond_json 200 (trade new),
        side_effects new,
        record w { db = record w.db { trades = w.db.trades ++ new ∷ [] } },
      )
  unfolding submit
  create_records sub trace input new w good quiet made free user session =
      create_by
        (λ a. a ≡ (
          respond_json 200 (trade new),
          side_effects new,
          record w { db = record w.db { trades = w.db.trades ++ new ∷ [] } },
        ))
        sub trace input w (λ _ _ bad. absurd (bad good))
        (λ _ _.
          ap (λ v. answer_upsert trace (upsert (prepared input w).0 v))
            (prepared-world input w quiet)
          ∙ ap (answer_upsert trace)
              (upsert_new (prepared input w).0 new w quiet made free user session))

  -- An emotional state is given, a last loss of the user is stored, and the trade is a revenge
  -- trade after it.
  abbrev pub IsFlagged : Option String → String → Time → World p → Type 0
  IsFlagged state user entry_at w =
      (e : String) × (n : ℤ) × (state ≡ some e)
      × (p.redis_get w.redis w.now (last_loss_key user) ≡ some (digits n))
      × (ltb_ℤ (pos 0) n ≡ true)
      × (is_revenge (from_unix n) entry_at e ≡ true)

  flag-IsFlagged :
      (t : Trade p) (e : String) (w : World p) (reply : Option Payload)
      → t.revenge_flag ≡ false
      → p.redis_get w.redis w.now (last_loss_key t.user_id) ≡ reply
      → ((flag t e (int_reply reply)).revenge_flag ≡ true)
        ↔ IsFlagged (some e) t.user_id t.entry_at w
  flag-IsFlagged t e w none plain stored = (
    λ h. ground (arith, plain),
    λ (e', n, same, found, after, revenge). let no = sym stored ∙ found in cc,
  )
  flag-IsFlagged t e w (some (bytes b)) plain stored = (
    λ h. ground (arith, plain),
    λ (e', n, same, found, after, revenge). let no = sym stored ∙ found in cc,
  )
  flag-IsFlagged t e w (some (digits n)) plain stored = (
    λ h. (e, n, refl, stored, ground (arith, plain), ground (arith, plain)),
    λ (e', m, same, found, after, revenge).
        let given : e ≡ e' = some-injective _ _ same in
        let number : ◌≡◌ {A = Payload} (digits n) (digits m) =
          some-injective _ _ (sym stored ∙ found) in
        let last : n ≡ m = ap number_of number in
        let late : ltb_ℤ (pos 0) n ≡ true = ap (ltb_ℤ (pos 0)) last ∙ after in
        let soon : is_revenge (from_unix n) t.entry_at e ≡ true =
          ap (λ k. is_revenge (from_unix k) t.entry_at e) last
          ∙ ap (is_revenge (from_unix m) t.entry_at) given
          ∙ revenge in
        rw (late, soon) refl,
  )

  flag_state-IsFlagged :
      (t : Trade p) (o : Option String) (w : World p)
      → w.schedule ≡ []
      → t.revenge_flag ≡ false
      → ((flag_state t o w).0.revenge_flag ≡ true) ↔ IsFlagged o t.user_id t.entry_at w
  flag_state-IsFlagged t none w quiet plain = (λ h. cc, λ (e, n, same, found, after, revenge). cc)
  flag_state-IsFlagged t (some e) w quiet plain =
      subst
        (λ (x : Result ℤ × World p).
          ((flag_from t e x).0.revenge_flag ≡ true) ↔ IsFlagged (some e) t.user_id t.entry_at w)
        (sym (get_last_loss_answered t.user_id w quiet))
        (flag-IsFlagged t e w (p.redis_get w.redis w.now (last_loss_key t.user_id)) plain refl)

  price_fields :
      (t : Trade p)
      → ((price t).emotional_state ≡ t.emotional_state)
        × ((price t).user_id ≡ t.user_id)
        × ((price t).entry_at ≡ t.entry_at)
        × ((price t).revenge_flag ≡ t.revenge_flag)
  unfolding price trade_journal.Domain.Trade.compute_pnl
  price_fields t = ground arith

  -- If its call is answered, the revenge check flags a trade exactly if the request gives an
  -- emotional state, Redis holds a last loss of the user after the epoch, and the trade's entry and
  -- state make it a revenge trade after that loss.
  pub prepared-IsFlagged :
      (input : TradeInput p) (w : World p)
      → w.schedule ≡ []
      → ((prepared input w).0.revenge_flag ≡ true)
        ↔ IsFlagged input.emotional_state input.user_id input.entry_at w
  unfolding check_revenge
  prepared-IsFlagged input w quiet =
      let t = price (build input) in
      let (state, user, entry_at, plain) = price_fields (build input) in
      let here : ((prepared input w).0.revenge_flag ≡ true)
          ↔ IsFlagged t.emotional_state t.user_id t.entry_at w =
        flag_state-IsFlagged t t.emotional_state w quiet plain in
      subst
        (λ e.
          ((prepared input w).0.revenge_flag ≡ true) ↔ IsFlagged e input.user_id input.entry_at w)
        state
        (subst
          (λ u.
            ((prepared input w).0.revenge_flag ≡ true)
            ↔ IsFlagged t.emotional_state u input.entry_at w)
          user
          (subst
            (λ a.
              ((prepared input w).0.revenge_flag ≡ true)
              ↔ IsFlagged t.emotional_state t.user_id a w)
            entry_at here))

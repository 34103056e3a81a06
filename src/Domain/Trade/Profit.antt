-- ===== src/Domain/Trade/Profit.antt =====
-- What `ComputePnL` makes of a closed trade.
use trade_journal.Prelude.{String, ◌≡◌, ◌↔◌, ◌≢◌, Bool, true, arith, eq_iff, if◌then◌else◌}
use trade_journal.Platform.{Platform}
use trade_journal.Platform.Laws.{DecimalLaws}
use trade_journal.Domain.Enums.{outcome_win, outcome_loss}
use trade_journal.Domain.Trade.{compute_pnl}

loss-ne-win : outcome_loss ≢ outcome_win
loss-ne-win = ground (arith, eq_iff outcome_loss outcome_win)

-- The outcome that a sign gives is a win exactly when the sign is positive.
outcome_iff : (b : Bool) → ((if b then outcome_win else outcome_loss) ≡ outcome_win) ↔ (b ≡ true)
outcome_iff b = ground (arith, loss-ne-win)

module _ {p : Platform} (laws : DecimalLaws p) where
  -- With a positive quantity a long trade wins exactly when the exit price is above the entry
  -- price, and a short trade exactly when it is below; one trade never wins in both directions.
  pub compute_pnl_outcome :
      (e x q : p.Decimal)
      → p.dec_is_positive q ≡ true
      → (((compute_pnl p "long" e x q).1 ≡ outcome_win)
          ↔ (p.dec_is_positive (p.dec_sub x e) ≡ true))
        × (((compute_pnl p "short" e x q).1 ≡ outcome_win)
            ↔ (p.dec_is_positive (p.dec_sub e x) ≡ true))
        × ((compute_pnl p "long" e x q).1 ≡ outcome_win
            → (compute_pnl p "short" e x q).1 ≡ outcome_loss)
  unfolding compute_pnl
  compute_pnl_outcome e x q h =
      let long = laws.mul_positive (p.dec_sub x e) q h in
      let short = laws.mul_positive (p.dec_sub e x) q h in
      let opposed = laws.sub_asymm x e in
      (
        rw long (outcome_iff (p.dec_is_positive (p.dec_sub x e))),
        rw short (outcome_iff (p.dec_is_positive (p.dec_sub e x))),
        rw (long, short)
            (λ w. rw (opposed ((outcome_iff (p.dec_is_positive (p.dec_sub x e))).0 w))),
      )

-- A trade in neither direction has no profit, and is booked as a loss.
pub compute_pnl_undirected :
    {p : Platform} (laws : DecimalLaws p) (d : String) (e x q : p.Decimal)
    → d ≢ "long"
    → d ≢ "short"
    → compute_pnl p d e x q ≡ (p.dec_zero, outcome_loss)
unfolding compute_pnl
compute_pnl_undirected laws d e x q l s =
    ground (arith, eq_iff d "long", eq_iff d "short", laws.zero_not_positive)

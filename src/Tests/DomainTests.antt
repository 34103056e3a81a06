-- ===== src/Tests/DomainTests.antt =====
-- Package domain at concrete inputs.
use trade_journal.Prelude.{
  ℕ, ◌+◌, ◌*◌, ◌<◌, ◌≤◌, min, ◌≡◌, refl, ◌↔◌, ◌⊎◌, true, false, some, List, [], ◌∷◌, arith, length,
  Result, ok, err, bad_request,
}
use trade_journal.Prelude.Int.{pos, negsuc, ◌-ℤ◌, ◌+ℤ◌, ◌*ℤ◌}
use trade_journal.Domain.Averages.{sum_from, recent, rolling_avg}
use trade_journal.Domain.Averages.Bounds.{rolling_avg_lem, sum, last_of, ints}
use trade_journal.Domain.Enums.{
  is_valid_asset_class, is_valid_direction, is_valid_status, is_valid_emotional_state,
}
use trade_journal.Domain.Trade.{validate, compute_pnl}
use trade_journal.Domain.Trade.Validation.{IsWellFormed, validate_iff}
use trade_journal.Tests.Machine.{machine}
use trade_journal.Tests.Fixtures.{losing_input}

validate_accepts : validate losing_input ≡ ok tt
unfolding validate is_valid_asset_class is_valid_direction is_valid_status is_valid_emotional_state
validate_accepts = refl

validate_first_fault :
    validate (record losing_input { direction = "up"; plan_adherence = some (pos 9) })
    ≡ err (bad_request "invalid direction: up")
unfolding validate is_valid_asset_class is_valid_direction is_valid_status is_valid_emotional_state
validate_first_fault = refl

-- Of four ratings the average is 10 / 4; of twelve only the last ten count.
rolling_avg_few : rolling_avg machine (ints (1 ∷ 2 ∷ 3 ∷ 4 ∷ [])) ≡ (pos 10, pos 4)
unfolding rolling_avg recent sum_from ◌+ℤ◌ ◌*ℤ◌ trade_journal.Prelude.Int.wrap64
rolling_avg_few = refl

short_wins : compute_pnl machine "short" (pos 10) (pos 7) (pos 2) ≡ (pos 6, "win")
unfolding compute_pnl ◌-ℤ◌ ◌*ℤ◌
short_wins = refl

validate_iff_example : (validate losing_input ≡ ok tt) ↔ IsWellFormed losing_input
validate_iff_example = validate_iff losing_input

abbrev twelve : List ℕ
twelve = 1 ∷ 1 ∷ 1 ∷ 1 ∷ 1 ∷ 1 ∷ 1 ∷ 5 ∷ 5 ∷ 5 ∷ 5 ∷ 5 ∷ []

rolling_avg_lem_example :
    (rolling_avg machine (ints twelve) ≡ (pos 30, pos 10))
    × (min 10 (length twelve) ≤ sum (last_of 10 twelve))
    × (sum (last_of 10 twelve) ≤ 5 * min 10 (length twelve))
unfolding ◌*ℤ◌
rolling_avg_lem_example = rolling_avg_lem machine twelve (λ e. cc) (omega arith)

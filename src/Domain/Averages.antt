-- ===== src/Domain/Averages.antt =====
-- internal/domain/adherence.go and tilt.go: averages as float64 quotients of int sums.
pub mod Bounds
use trade_journal.Prelude.{◌-◌, List, [], ◌∷◌, ltb, if◌then◌else◌, length, drop}
use trade_journal.Prelude.Int.{ℤ, pos, ◌+ℤ◌, eqb_ℤ, wrap64}
use trade_journal.Platform.{Platform}

-- `for _, r := range subset { sum += r }`
unfoldable pub sum_from : ℤ → List ℤ → ℤ
sum_from sum [] = sum
sum_from sum (r ∷ rs) = sum_from (wrap64 (sum +ℤ r)) rs

-- `ratings[start:]`: at most the last ten.
unfoldable pub recent : List ℤ → List ℤ
recent ratings = drop (if ltb 10 (length ratings) then length ratings - 10 else 0) ratings

unfoldable pub rolling_avg : (p : Platform) → List ℤ → p.Float
rolling_avg p [] = p.to_float (pos 0)
rolling_avg p (r ∷ rs) =
    let subset = recent (r ∷ rs) in
    p.float_div (p.to_float (sum_from (pos 0) subset)) (p.to_float (pos (length subset)))

unfoldable pub session_tilt_index : (p : Platform) → ℤ → ℤ → p.Float
session_tilt_index p loss_follow_count total_count =
    if eqb_ℤ total_count (pos 0)
    then p.to_float (pos 0)
    else p.float_div (p.to_float loss_follow_count) (p.to_float total_count)

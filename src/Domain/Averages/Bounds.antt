-- ===== src/Domain/Averages/Bounds.antt =====
-- What the averages compute: no overflow, the last ten ratings only, values in range.
use trade_journal.Prelude.{
  ℕ, zero, suc, ◌+◌, ◌-◌, ◌*◌, ◌≤◌, ◌<◌, min, ◌≡◌, refl, ap, ◌∙◌, ◌≢◌, List, [], ◌∷◌, ltb, arith,
  if◌then◌else◌, length, drop, length-drop, All,
}
use trade_journal.Prelude.Int.{ℤ, pos, ◌+ℤ◌, wrap64, half_word}
use trade_journal.Platform.{Platform}
use trade_journal.Domain.Averages.{sum_from, recent, rolling_avg}

abbrev pub sum : List ℕ → ℕ
sum [] = 0
sum (x ∷ xs) = x + sum xs

-- The last `n` members of a list, or all of a shorter one.
abbrev pub last_of {ℓ} : {A : Type ℓ} → ℕ → List A → List A
last_of n xs = drop (length xs - n) xs

-- Numbers as Go's ints.
abbrev pub ints : List ℕ → List ℤ
ints [] = []
ints (x ∷ xs) = pos x ∷ ints xs

abbrev pub IsRating : ℕ → Type 0
IsRating r = (1 ≤ r) × (r ≤ 5)

add_small : (a r : ℕ) → a + r < half_word → wrap64 (pos a +ℤ pos r) ≡ pos (a + r)
unfolding wrap64 ◌+ℤ◌
add_small a r h = ground arith

sum_from_lem :
    (a : ℕ) (rs : List ℕ) → a + sum rs < half_word → sum_from (pos a) (ints rs) ≡ pos (a + sum rs)
unfolding sum_from
sum_from_lem a [] h = ground arith
sum_from_lem a (r ∷ rs) h =
    ap (λ s. sum_from s (ints rs)) (add_small a r (omega arith))
    ∙ sum_from_lem (a + r) rs (omega arith)
    ∙ ap pos (omega arith)

sum_bounds : (rs : List ℕ) → All IsRating rs → (length rs ≤ sum rs) × (sum rs ≤ 5 * length rs)
sum_bounds [] h = omega arith
sum_bounds (r ∷ rs) h = let ih = sum_bounds rs h.1 in omega arith

All-drop : (P : ℕ → Type 0) (n : ℕ) (xs : List ℕ) → All P xs → All P (drop n xs)
All-drop P zero xs h = h
All-drop P (suc n) [] h = tt
All-drop P (suc n) (x ∷ xs) h = All-drop P n xs h.1

drop-ints : (n : ℕ) (xs : List ℕ) → drop n (ints xs) ≡ ints (drop n xs)
drop-ints zero xs = refl
drop-ints (suc n) [] = refl
drop-ints (suc n) (x ∷ xs) = drop-ints n xs

length-ints : (xs : List ℕ) → length (ints xs) ≡ length xs
length-ints [] = refl
length-ints (x ∷ xs) = omega (arith, length-ints xs)

start_lem : (n : ℕ) → (if ltb 10 n then n - 10 else 0) ≡ n - 10
start_lem n = ground arith

recent-ints : (rs : List ℕ) → recent (ints rs) ≡ ints (last_of 10 rs)
unfolding recent
recent-ints rs = rw (start_lem (length (ints rs)), length-ints rs) (drop-ints (length rs - 10) rs)

-- Of ratings from 1 to 5 the rolling average is the quotient of the exact sum of the last ten, or
-- of all if there are fewer, by their number; so it lies between 1 and 5, and no sum overflows.
pub rolling_avg_lem :
    (p : Platform) (rs : List ℕ)
    → rs ≢ []
    → All IsRating rs
    → (rolling_avg p (ints rs)
        ≡ p.float_div
            (p.to_float (pos (sum (last_of 10 rs))))
            (p.to_float (pos (min 10 (length rs)))))
      × (min 10 (length rs) ≤ sum (last_of 10 rs))
      × (sum (last_of 10 rs) ≤ 5 * min 10 (length rs))
unfolding rolling_avg
rolling_avg_lem p [] ne h = absurd (ne refl)
rolling_avg_lem p (r ∷ rs) ne h =
    let most = last_of 10 (r ∷ rs) in
    let bounds = sum_bounds most (All-drop IsRating (length (r ∷ rs) - 10) (r ∷ rs) h) in
    let size : length most ≡ min 10 (length (r ∷ rs)) =
      omega (arith, length-drop {0} (length (r ∷ rs) - 10) (r ∷ rs)) in
    let exact : sum_from (pos 0) (ints most) ≡ pos (sum most) =
      sum_from_lem 0 most (omega arith) ∙ ap pos (omega arith) in
    (rw (recent-ints (r ∷ rs), exact, length-ints most, size), omega arith, omega arith)

-- ===== src/Prelude/Search.antt =====
-- A loop of attempts, described: the first that succeeds, and what those before it add up to.
use Prim.Native.Nat.{ℕ, zero, suc, ◌+◌, ◌≤◌, ◌<◌}
use mathlib.Core.Path.{◌≡◌, subst}
use mathlib.Core.Logic.{inl, inr}
use mathlib.Core.Bool.{Bool, true, false}
use mathlib.Core.Option.{Option, none, some, some-injective}
use native.Mathlib.Omega.{arith}
use trade_journal.Prelude.Tests.{if◌then◌else◌, Bool-cases}

-- The first number from `i` on, of so many, that passes a test.
abbrev pub first_from : ℕ → ℕ → (ℕ → Bool) → Option ℕ
first_from zero i ok = none
first_from (suc n) i ok = if ok i then some i else first_from n (suc i) ok

-- The sum of the values before that number, or of all so many.
abbrev pub sum_before : ℕ → ℕ → (ℕ → Bool) → (ℕ → ℕ) → ℕ
sum_before zero i ok f = 0
sum_before (suc n) i ok f = if ok i then 0 else f i + sum_before n (suc i) ok f

pub first_from-lt :
    (n i k : ℕ) (ok : ℕ → Bool) → first_from n i ok ≡ some k → (i ≤ k) × (k < i + n) × (ok k ≡ true)
first_from-lt zero i k ok e = cc
first_from-lt (suc n) i k ok e = elim (Bool-cases (ok i)) [
  | inl good ↦
      let same : i ≡ k = some-injective _ _ (rw good at e) in
      (omega (arith, same), omega (arith, same), subst (λ j. ok j ≡ true) same good)
  | inr bad ↦
      let (low, high, good) = first_from-lt n (suc i) k ok (rw bad at e) in
      (omega (arith, low), omega (arith, high), good)
]

-- With a test that never passes, the sum is over all.
pub sum_before-le :
    (n i : ℕ) (ok : ℕ → Bool) (f : ℕ → ℕ) → sum_before n i ok f ≤ sum_before n i (λ _. false) f
sum_before-le zero i ok f = omega arith
sum_before-le (suc n) i ok f = elim (Bool-cases (ok i)) [
  | inl good ↦ rw good (omega arith)
  | inr bad ↦ rw bad (omega (arith, sum_before-le n (suc i) ok f))
]

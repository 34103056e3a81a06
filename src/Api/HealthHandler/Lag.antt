-- ===== src/Api/HealthHandler/Lag.antt =====
-- The lag of an id as Redis writes it: a time in milliseconds, a dash and a sequence number.
use trade_journal.Prelude.{
  ℕ, ◌+◌, ◌*◌, ◌-◌, ◌≤◌, ◌<◌, ◌≡◌, refl, ap, ◌∙◌, List, [], ◌∷◌, ◌++◌, map, some, arith, All,
}
use trade_journal.Prelude.Int.{pos, ◌+ℤ◌, ◌-ℤ◌, ◌*ℤ◌, wrap64, half_word}
use trade_journal.Api.HealthHandler.{before_dash, read_number, lag_of}

abbrev IsDigit : ℕ → Type 0
IsDigit d = d < 10

-- The number that digits write behind a number.
abbrev pub number : ℕ → List ℕ → ℕ
number n [] = n
number n (d ∷ ds) = number (n * 10 + d) ds

-- The characters of digits.
abbrev pub printed : List ℕ → List ℕ
printed ds = map (λ d. 48 + d) ds

before_dash-printed :
    (ds rest : List ℕ)
    → All IsDigit ds
    → before_dash (printed ds ++ (45 ∷ rest)) ≡ some (printed ds)
unfolding before_dash
before_dash-printed [] rest h = refl
before_dash-printed (d ∷ ds) rest h = ground (arith, before_dash-printed ds rest h.1, h.0)

number-ge : (n : ℕ) (ds : List ℕ) → n ≤ number n ds
number-ge n [] = omega arith
number-ge n (d ∷ ds) = omega (arith, number-ge (n * 10 + d) ds)

wrap64_small : (n : ℕ) → n < half_word → wrap64 (pos n) ≡ pos n
unfolding wrap64
wrap64_small n h = ground arith

-- One round adds a digit.
round_digit :
    (n d : ℕ)
    → d < 10
    → n * 10 + d < half_word
    → wrap64 (wrap64 (pos n *ℤ pos 10) +ℤ (pos (48 + d) -ℤ pos 48)) ≡ pos (n * 10 + d)
unfolding ◌*ℤ◌ ◌+ℤ◌ ◌-ℤ◌
round_digit n d digit fits =
    let times : pos n *ℤ pos 10 ≡ pos (n * 10) = ground arith in
    let small : wrap64 (pos (n * 10)) ≡ pos (n * 10) =
      wrap64_small (n * 10) (omega (arith, fits)) in
    let plus : pos (n * 10) +ℤ (pos (48 + d) -ℤ pos 48) ≡ pos (n * 10 + d) = ground arith in
    ap (λ z. wrap64 (wrap64 z +ℤ (pos (48 + d) -ℤ pos 48))) times
    ∙ ap (λ z. wrap64 (z +ℤ (pos (48 + d) -ℤ pos 48))) small
    ∙ ap wrap64 plus
    ∙ wrap64_small (n * 10 + d) fits

read_number-printed :
    (n : ℕ) (ds : List ℕ)
    → All IsDigit ds
    → number n ds < half_word
    → read_number (pos n) (printed ds) ≡ pos (number n ds)
unfolding read_number
read_number-printed n [] h fits = refl
read_number-printed n (d ∷ ds) h fits =
    ap (λ z. read_number z (printed ds))
      (round_digit n d h.0 (omega (arith, number-ge (n * 10 + d) ds, fits)))
    ∙ read_number-printed (n * 10 + d) ds h.1 fits

-- For an id with a time that fits into int64, the lag is the time since then, and 0 for a time to
-- come; the sequence number does not count.
pub lag_of-printed :
    (now : ℕ) (ds rest : List ℕ)
    → All IsDigit ds
    → 1 ≤ number 0 ds
    → number 0 ds < half_word
    → now < half_word
    → lag_of (pos now) (printed ds ++ (45 ∷ rest)) ≡ pos (now - number 0 ds)
unfolding lag_of ◌-ℤ◌ wrap64
lag_of-printed now ds rest h some_time fits fits_now =
    let prefix = before_dash-printed ds rest h in
    let read = read_number-printed 0 ds h fits in
    rw (prefix, read) (ground (arith, some_time, fits, fits_now))

-- ===== src/Tests/TextMachine.antt =====
-- A platform whose times and decimals are printed as so many strokes, and read back.
use Prim.Native.String.{◌++◌, len}
use text.Mathlib.TextPositions.{len-append}
use trade_journal.Prelude.{
  ℕ, zero, suc, ◌+◌, ◌*◌, ◌-◌, ◌/◌, ◌%◌, String, ◌≡◌, refl, ap, ◌∙◌, sym, false, Option, none, some,
  arith, eqb, if◌then◌else◌, ◌==◌, eq_iff, Bool-cases, inl, inr,
}
use trade_journal.Prelude.Int.{ℤ, pos, negsuc}
use trade_journal.Prelude.Time.{Time, second}
use trade_journal.Platform.{Platform}
use trade_journal.Platform.Laws.{TextLaws}
use trade_journal.Tests.Machine.{machine}

unfoldable pub strokes : ℕ → String
strokes zero = ""
strokes (suc n) = "1" ++ strokes n

pub len-strokes : (n : ℕ) → len (strokes n) ≡ n
unfolding strokes
len-strokes zero = refl
len-strokes (suc n) = omega (arith, len-append "1" (strokes n), len-strokes n)

-- An integer as a positive number.
abbrev pub number : ℤ → ℕ
number (pos n) = 2 * n + 1
number (negsuc n) = 2 * n + 2

unfoldable pub of_number : ℕ → Option ℤ
of_number n =
    if eqb n 0
    then none
    else if eqb (n % 2) 1
    then some (pos (n / 2))
    else some (negsuc (n / 2 - 1))

of_number-number : (z : ℤ) → of_number (number z) ≡ some z
unfolding of_number
of_number-number (pos n) = let half : (2 * n + 1) / 2 ≡ n = omega arith in ground (arith, half)
of_number-number (negsuc n) =
    let half : (2 * n + 2) / 2 - 1 ≡ n = omega arith in ground (arith, half)

abbrev pub text_machine : Platform
text_machine = record machine {
  dec_show = λ z. strokes (number z);
  dec_parse = λ s. of_number (len s);
  format_time = λ t. strokes (t / second);
  parse_time = λ s. some (len s * second);
}

pub strokes_nonempty : (z : ℤ) → (strokes (number z) == "") ≡ false
strokes_nonempty z = elim (Bool-cases (strokes (number z) == "")) [
  | inl empty ↦
      let none_left : number z ≡ 0 = sym (len-strokes (number z)) ∙ ap len ((eq_iff _ _).0 empty) in
      absurd (positive z none_left)
  | inr full ↦ full
]
  where
    positive : (z : ℤ) → ¬ (number z ≡ 0)
    positive (pos n) e = omega (arith, e)
    positive (negsuc n) e = omega (arith, e)

pub parse-show_strokes : (z : ℤ) → of_number (len (strokes (number z))) ≡ some z
parse-show_strokes z = ap of_number (len-strokes (number z)) ∙ of_number-number z

pub parse-format_strokes :
    (t : Time)
    → ◌≡◌ {A = Option Time} (some (len (strokes (t / second)) * second)) (some (t - t % second))
parse-format_strokes t =
    let whole : len (strokes (t / second)) * second ≡ t - t % second =
      omega (arith, len-strokes (t / second)) in
    ap some whole

abbrev pub texts : TextLaws text_machine
texts = record {
  parse-format = parse-format_strokes;
  parse-show = parse-show_strokes;
  show_nonempty = strokes_nonempty;
  arg_str = λ s. refl;
  arg_int_nonempty = λ n. refl;
  arg_true = refl;
  arg_false = refl;
}

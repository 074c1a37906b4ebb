-- ===== src/Base/Text/Numbers.antt =====
-- `Atoi` reads back what `%d` wrote of an `int`.
use web_rtcsfu.Base.Tests.{lt_wf, Bool-cases, nat_beq, ltb}
use web_rtcsfu.Base.Lists.{All, length, length-append}
use web_rtcsfu.Base.Bytes.{Bytes}
use web_rtcsfu.Base.Text.{
  ℤ, pos, negsuc, digits, format_uint, format_int, scan_digits, magnitude, positive, negative, atoi,
  tenth_lt, is_digit, to_bits, from_bits, wrap_int,
}
use web_rtcsfu.Base.Text.Laws.{
  IsDigit, Lacks, Lacks-digits, format_uint-IsDigit, scan-digits, scan_digits_step,
}
use Prim.Native.Nat.{ℕ, ◌+◌, ◌-◌, ◌*◌, ◌/◌, ◌%◌, ◌^◌, ◌<◌}
use mathlib.Core.List.{[], ◌∷◌, ◌++◌, append-nil}
use mathlib.Core.Bool.{true}
use mathlib.Core.Option.{some, none}
use mathlib.Core.Path.{◌≡◌, refl, sym, ap, ◌∙◌}
use mathlib.Core.Logic.{◌≢◌, inl, inr, dif_pos, dif_neg}
use mathlib.Core.WellFounded.{Acc}
use native.Mathlib.Bridge.{le_prop}
use native.Mathlib.Decide.{dec_lt}
use native.Mathlib.Omega.{arith}

-- The numbers that an `int` of 64 bits has.
abbrev pub IsInt : ℤ → Type 0
IsInt (pos n) = n < 2 ^ 63
IsInt (negsuc n) = n < 2 ^ 63

scan_digits-format_uint : (n : ℕ) → scan_digits (format_uint n) 0 ≡ some n
unfolding format_uint scan_digits
scan_digits-format_uint n =
    ap (λ s. scan_digits s 0) (sym (append-nil (digits n (lt_wf.apply n))))
    ∙ scan-digits scan_digits n (λ q d rest h fits. scan_digits_step q d rest h) n (lt_wf.apply n)
        [] (omega arith)

-- A text of digits that is read as a number is not empty, and has no sign in front.
magnitude_lem : (s : Bytes) (n : ℕ) → s ≢ [] → scan_digits s 0 ≡ some n → magnitude s ≡ some n
unfolding magnitude
magnitude_lem [] n h e = absurd (h refl)
magnitude_lem (c ∷ s) n h e = e

atoi_digits :
    (s : Bytes) (n : ℕ)
    → s ≢ []
    → All IsDigit s
    → scan_digits s 0 ≡ some n
    → n < 2 ^ 63
    → atoi s ≡ some (pos n)
unfolding atoi magnitude positive
atoi_digits [] n h d e fits = absurd (h refl)
atoi_digits (c ∷ s) n h d e fits = ground (arith, d.0.0, d.0.1)

digits_pos : (n : ℕ) (w : Acc ◌<◌ n) → 0 < length (digits n w)
unfolding digits
digits_pos n (Acc.intro _ smaller) = elim (dec_lt 9 n) [
  | yes more ↦
      let front = digits (n / 10) (smaller (n / 10) (tenth_lt n more)) in
      rw (dif_pos (dec_lt 9 n) le_prop more)
        (omega (arith, length-append front ((b'0' + n % 10) ∷ [])))
  | no last ↦ rw (dif_neg (dec_lt 9 n) last) (omega arith)
]

format_uint_ne : (n : ℕ) → format_uint n ≢ []
unfolding format_uint
format_uint_ne n e = omega (arith, digits_pos n (lt_wf.apply n), ap length e)

atoi_minus :
    (s : Bytes) (n : ℕ)
    → s ≢ []
    → scan_digits s 0 ≡ some (n + 1)
    → n < 2 ^ 63
    → atoi (b'-' ∷ s) ≡ some (negsuc n)
unfolding atoi negative
atoi_minus s n h e fits = rw (magnitude_lem s (n + 1) h e) (ground arith)

pub atoi-format_int : (z : ℤ) → IsInt z → atoi (format_int z) ≡ some z
unfolding format_int
atoi-format_int (pos n) h =
    atoi_digits (format_uint n) n (format_uint_ne n) (format_uint-IsDigit n)
      (scan_digits-format_uint n) h
atoi-format_int (negsuc n) h =
    atoi_minus (format_uint (n + 1)) n (format_uint_ne (n + 1)) (scan_digits-format_uint (n + 1)) h

pub format_int-Lacks : (z : ℤ) (sep : ℕ) → ¬ IsDigit sep → b'-' ≢ sep → Lacks sep (format_int z)
unfolding format_int
format_int-Lacks (pos n) sep h k = Lacks-digits sep (format_uint n) h (format_uint-IsDigit n)
format_int-Lacks (negsuc n) sep h k =
    (k, Lacks-digits sep (format_uint (n + 1)) h (format_uint-IsDigit (n + 1)))

-- A text with a byte 0 in it is no number.
scan_digits-zero : (s zs : Bytes) (n : ℕ) → scan_digits (s ++ 0 ∷ zs) n ≡ none
unfolding scan_digits
scan_digits-zero [] zs n = refl
scan_digits-zero (c ∷ s) zs n = elim (Bool-cases (is_digit c)) [
  | inl digit ↦ rw digit (scan_digits-zero s zs (n * 10 + (c - b'0')))
  | inr other ↦ rw other refl
]

magnitude-zero : (s zs : Bytes) → magnitude (s ++ 0 ∷ zs) ≡ none
unfolding magnitude
magnitude-zero [] zs = scan_digits-zero [] zs 0
magnitude-zero (c ∷ s) zs = scan_digits-zero (c ∷ s) zs 0

pub atoi-zero : (s zs : Bytes) → atoi (s ++ 0 ∷ zs) ≡ none
unfolding atoi positive negative
atoi-zero [] zs = ap positive (magnitude-zero [] zs)
atoi-zero (c ∷ s) zs = elim (Bool-cases (nat_beq c b'-')) [
  | inl minus ↦ rw (minus, magnitude-zero s zs) refl
  | inr no_minus ↦ elim (Bool-cases (nat_beq c b'+')) [
    | inl plus ↦ rw (no_minus, plus, magnitude-zero s zs) refl
    | inr no_plus ↦ rw (no_minus, no_plus, magnitude-zero (c ∷ s) zs) refl
  ]
]

-- A product or a sum that an int can hold.
pub wrap_int-pos : (n : ℕ) → n < 2 ^ 63 → wrap_int (pos n) ≡ pos n
unfolding wrap_int from_bits to_bits
wrap_int-pos n h =
    let same : n % 2 ^ 64 ≡ n = omega arith in
    let fits : ltb n (2 ^ 63) ≡ true = ground arith in rw (same, fits) refl

-- ===== src/Base/Text/Laws.antt =====
-- Numbers are read back, and a text is split at its separators.
use web_rtcsfu.Base.Tests.{nat_beq, if◌then◌else◌, lt_wf, Bool-cases}
use web_rtcsfu.Base.Lists.{All, All-append, length}
use web_rtcsfu.Base.Bytes.{Bytes}
use web_rtcsfu.Base.Text.{
  digits, format_uint, scan_uint, parse_uint, max_u64, split, cons_first, tenth_lt, scan_digits,
}
use Prim.Native.Nat.{ℕ, suc, ◌+◌, ◌*◌, ◌/◌, ◌%◌, ◌≤◌, ◌<◌}
use mathlib.Core.Bool.{true, false}
use mathlib.Core.List.{List, [], ◌∷◌, ◌++◌, append_assoc, append-nil}
use mathlib.Core.Logic.{◌≢◌, ◌⊎◌, inl, inr, dif_pos, dif_neg}
use mathlib.Core.Path.{◌≡◌, refl, sym, subst, ap, ◌∙◌}
use mathlib.Core.WellFounded.{Acc}
use native.Mathlib.Bridge.{le_prop}
use native.Mathlib.Decide.{dec_lt}
use native.Mathlib.Omega.{arith}

abbrev pub IsDigit : ℕ → Type 0
IsDigit c = (b'0' ≤ c) × (c ≤ b'9')

abbrev pub Lacks : ℕ → Bytes → Type 0
Lacks sep = All (λ c. c ≢ sep)

scan_uint_step :
    (q d : ℕ) (rest : Bytes)
    → d ≤ 9
    → q * 10 + d ≤ max_u64
    → scan_uint ((b'0' + d) ∷ rest) q ≡ scan_uint rest (q * 10 + d)
unfolding scan_uint
scan_uint_step q d rest h fits = ground arith

pub scan_digits_step :
    (q d : ℕ) (rest : Bytes)
    → d ≤ 9
    → scan_digits ((b'0' + d) ∷ rest) q ≡ scan_digits rest (q * 10 + d)
unfolding scan_digits
scan_digits_step q d rest h = ground arith

last_digit : (n : ℕ) → n / 10 * 10 + n % 10 ≡ n
last_digit n = omega arith

-- Any reader that takes a digit as `q * 10 + d` reads the digits of `n` as `n`.
module _ {ℓ} {A : Type ℓ} (scan : Bytes → ℕ → A) (bound : ℕ)
    (step : (q d : ℕ) (rest : Bytes)
      → d ≤ 9
      → q * 10 + d ≤ bound
      → scan ((b'0' + d) ∷ rest) q ≡ scan rest (q * 10 + d)) where
  pub scan-digits :
      (n : ℕ) (w : Acc ◌<◌ n) (rest : Bytes) → n ≤ bound → scan (digits n w ++ rest) 0 ≡ scan rest n
  unfolding digits
  scan-digits n (Acc.intro _ smaller) rest h = elim (dec_lt 9 n) [
    | yes more ↦
        rw (dif_pos (dec_lt 9 n) le_prop more, append_assoc)
          (scan-digits (n / 10) (smaller (n / 10) (tenth_lt n more)) ((b'0' + n % 10) ∷ rest)
              (omega arith)
            ∙ step (n / 10) (n % 10) rest (omega arith) (omega arith)
            ∙ ap (scan rest) (last_digit n))
    | no last ↦
        rw (dif_neg (dec_lt 9 n) last)
          (step 0 n rest (omega arith) (omega arith) ∙ ap (scan rest) {y = n} (omega arith))
  ]

-- `ParseUint` reads back what `%d` wrote.
pub parse_uint-format_uint : (n : ℕ) → n ≤ max_u64 → parse_uint (format_uint n) ≡ n
unfolding parse_uint format_uint scan_uint
parse_uint-format_uint n h =
    ap (λ s. scan_uint s 0) (sym (append-nil (digits n (lt_wf.apply n))))
    ∙ scan-digits scan_uint max_u64 scan_uint_step n (lt_wf.apply n) [] h

All-digits : (n : ℕ) (w : Acc ◌<◌ n) → All IsDigit (digits n w)
unfolding digits
All-digits n (Acc.intro _ smaller) = elim (dec_lt 9 n) [
  | yes more ↦ rw (dif_pos (dec_lt 9 n) le_prop more) (
      All-append IsDigit _ _ (All-digits (n / 10) (smaller (n / 10) (tenth_lt n more)))
        (omega arith))
  | no last ↦ rw (dif_neg (dec_lt 9 n) last) (omega arith)
]

pub format_uint-IsDigit : (n : ℕ) → All IsDigit (format_uint n)
unfolding format_uint
format_uint-IsDigit n = All-digits n (lt_wf.apply n)

pub Lacks-digits : (sep : ℕ) (s : Bytes) → ¬ IsDigit sep → All IsDigit s → Lacks sep s
Lacks-digits sep [] h d = tt
Lacks-digits sep (c ∷ s) h d = (λ e. h (subst IsDigit e d.0), Lacks-digits sep s h d.1)

-- The first separator ends the first part.
pub split-append :
    (sep : ℕ) (p s : Bytes) → Lacks sep p → split (p ++ sep ∷ s) sep ≡ p ∷ split s sep
unfolding split
split-append sep [] s h = ground arith
split-append sep (c ∷ p) s h = ground (arith, split-append sep p s h.1)

pub split-Lacks : (sep : ℕ) (p : Bytes) → Lacks sep p → split p sep ≡ p ∷ []
unfolding split
split-Lacks sep [] h = refl
split-Lacks sep (c ∷ p) h = ground (arith, split-Lacks sep p h.1)

-- A text lacks the separator, or there is a first one.
pub first_separator :
    (sep : ℕ) (s : Bytes) → Lacks sep s ⊎ ((p q : Bytes) × (s ≡ p ++ sep ∷ q) × Lacks sep p)
first_separator sep [] = inl tt
first_separator sep (c ∷ s) = elim (Bool-cases (nat_beq c sep)) [
  | inl here ↦ let same : c ≡ sep = ground arith in inr ([], s, ap (λ x. x ∷ s) same, tt)
  | inr apart ↦
      let other : c ≢ sep = ground arith in
      elim (first_separator sep s) [
        | inl lacks ↦ inl (other, lacks)
        | inr (p, q, e, lacks) ↦ inr (c ∷ p, q, ap (λ x. c ∷ x) e, (other, lacks))
      ]
]

-- The text in front of the first separator, and the whole text if there is none.
abbrev pub until : ℕ → Bytes → Bytes
until sep [] = []
until sep (c ∷ s) = if nat_beq c sep then [] else c ∷ until sep s

pub until-Lacks : (sep : ℕ) (s : Bytes) → Lacks sep s → until sep s ≡ s
until-Lacks sep [] h = refl
until-Lacks sep (c ∷ s) h = ground (arith, until-Lacks sep s h.1)

-- Every split has a first part.
pub split-until : (sep : ℕ) (s : Bytes) → (ps : List Bytes) × (split s sep ≡ until sep s ∷ ps)
unfolding split
split-until sep [] = ([], refl)
split-until sep (c ∷ s) = elim (Bool-cases (nat_beq c sep)) [
  | inl here ↦ (split s sep, rw here)
  | inr later ↦ let (ps, e) = split-until sep s in (ps, rw (later, e))
]

-- How often a byte stands in a text.
abbrev pub count : ℕ → Bytes → ℕ
count sep [] = 0
count sep (c ∷ s) = if nat_beq c sep then suc (count sep s) else count sep s

length-cons_first : (c : ℕ) (ps : List Bytes) → 0 < length ps → length (cons_first c ps) ≡ length ps
unfolding cons_first
length-cons_first c [] h = absurd (omega arith)
length-cons_first c (p ∷ ps) h = refl

split_here : (c sep : ℕ) (s : Bytes) → nat_beq c sep ≡ true → split (c ∷ s) sep ≡ [] ∷ split s sep
unfolding split
split_here c sep s e = rw e

split_later :
    (c sep : ℕ) (s : Bytes) → nat_beq c sep ≡ false → split (c ∷ s) sep ≡ cons_first c (split s sep)
unfolding split
split_later c sep s e = rw e

split_nil : (sep : ℕ) → split [] sep ≡ [] ∷ []
unfolding split
split_nil sep = refl

pub length-split : (sep : ℕ) (s : Bytes) → length (split s sep) ≡ count sep s + 1
length-split sep [] = rw split_nil
length-split sep (c ∷ s) = elim (Bool-cases (nat_beq c sep)) [
  | inl here ↦ rw (split_here c sep s here, here) (omega (arith, length-split sep s))
  | inr later ↦
      let ih = length-split sep s in
      rw (split_later c sep s later, length-cons_first c (split s sep) (omega (arith, ih)), later)
        ih
]

-- ===== src/Base/Text.antt =====
-- What the code uses of strconv, strings and fmt, over bytes: `%d`, `ParseUint`, `Atoi`, `Split`.
pub mod Laws
pub mod Numbers
pub mod Join
use web_rtcsfu.Base.Tests.{ltb, leb, nat_beq, if◌then◌else◌, lt_wf}
use web_rtcsfu.Base.Bytes.{Bytes}
use Prim.Native.Nat.{ℕ, zero, suc, ◌+◌, ◌-◌, ◌*◌, ◌/◌, ◌%◌, ◌^◌, ◌<◌}
use mathlib.Core.Bool.{Bool, true, false, ◌&&◌, ◌||◌}
use mathlib.Core.List.{List, [], ◌∷◌, ◌++◌}
use mathlib.Core.Logic.{dite}
use mathlib.Core.Option.{Option, none, some}
use mathlib.Core.WellFounded.{Acc}
use native.Mathlib.Decide.{dec_lt}
use native.Mathlib.Omega.{arith}

-- A Go `int`; `negsuc n` is -(n + 1).
pub data ℤ : Type 0 where
  pos : ℕ → ℤ
  negsuc : ℕ → ℤ

abbrev pub ℤ_beq : ℤ → ℤ → Bool
ℤ_beq (pos a) (pos b) = nat_beq a b
ℤ_beq (negsuc a) (negsuc b) = nat_beq a b
ℤ_beq _ _ = false

abbrev pub ℤ_leb : ℤ → ℤ → Bool
ℤ_leb (pos a) (pos b) = leb a b
ℤ_leb (pos a) (negsuc b) = false
ℤ_leb (negsuc a) (pos b) = true
ℤ_leb (negsuc a) (negsuc b) = leb b a

pub tenth_lt : (n : ℕ) → 9 < n → n / 10 < n
tenth_lt n h = omega arith

pub digits : (n : ℕ) → Acc ◌<◌ n → Bytes
digits n (Acc.intro _ smaller) =
    dite (dec_lt 9 n)
      (λ more. digits (n / 10) (smaller (n / 10) (tenth_lt n more)) ++ (b'0' + n % 10) ∷ [])
      (λ _. (b'0' + n) ∷ [])

-- `%d` of an unsigned number, and of an `int`.
unfoldable pub format_uint : ℕ → Bytes
unfolding digits lt_wf
format_uint n = digits n (lt_wf.apply n)

unfoldable pub format_int : ℤ → Bytes
unfolding format_uint
format_int (pos n) = format_uint n
format_int (negsuc n) = b'-' ∷ format_uint (n + 1)

abbrev pub is_digit : ℕ → Bool
is_digit c = leb b'0' c && leb c b'9'

abbrev pub max_u64 : ℕ
max_u64 = 2 ^ 64 - 1

-- `v, _ := strconv.ParseUint(s, 10, 64)`: 0 on a byte that is no digit, the largest number on
-- overflow, whichever is met first.
scan_uint : Bytes → ℕ → ℕ
scan_uint [] n = n
scan_uint (c ∷ s) n =
    let m = n * 10 + (c - b'0') in
    if is_digit c then if ltb max_u64 m then max_u64 else scan_uint s m else 0

unfoldable pub parse_uint : Bytes → ℕ
unfolding scan_uint
parse_uint s = scan_uint s 0

-- The digits of `strconv.Atoi`, with no bound: `none` on the empty text and on any other byte.
pub scan_digits : Bytes → ℕ → Option ℕ
scan_digits [] n = some n
scan_digits (c ∷ s) n = if is_digit c then scan_digits s (n * 10 + (c - b'0')) else none

magnitude : Bytes → Option ℕ
unfolding scan_digits
magnitude [] = none
magnitude (c ∷ s) = scan_digits (c ∷ s) 0

-- An int as 64 bits, and back.
unfoldable pub to_bits : ℤ → ℕ
to_bits (pos n) = n % 2 ^ 64
to_bits (negsuc n) = 2 ^ 64 - 1 - n % 2 ^ 64

unfoldable pub from_bits : ℕ → ℤ
from_bits n = if ltb n (2 ^ 63) then pos n else negsuc (2 ^ 64 - 1 - n)

-- The int that a sum or a product of ints wraps to.
unfoldable pub wrap_int : ℤ → ℤ
unfolding from_bits to_bits
wrap_int i = from_bits (to_bits i)

-- The range of a 64-bit `int`.
positive : Option ℕ → Option ℤ
positive none = none
positive (some n) = if ltb n (2 ^ 63) then some (pos n) else none

negative : Option ℕ → Option ℤ
negative none = none
negative (some n) =
    if nat_beq n 0 then some (pos 0) else if leb n (2 ^ 63) then some (negsuc (n - 1)) else none

-- `strconv.Atoi`; `none` is its error.
unfoldable pub atoi : Bytes → Option ℤ
unfolding magnitude positive negative
atoi [] = none
atoi (c ∷ s) =
    if nat_beq c b'-'
    then negative (magnitude s)
    else if nat_beq c b'+'
    then positive (magnitude s)
    else positive (magnitude (c ∷ s))

cons_first : ℕ → List Bytes → List Bytes
cons_first c [] = (c ∷ []) ∷ []
cons_first c (p ∷ ps) = (c ∷ p) ∷ ps

-- `strings.Split(s, sep)` for a separator of one byte.
unfoldable pub split : Bytes → ℕ → List Bytes
unfolding cons_first
split [] sep = [] ∷ []
split (c ∷ s) sep = let rest = split s sep in if nat_beq c sep then [] ∷ rest else cons_first c rest

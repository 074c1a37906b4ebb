-- ===== src/Base/Bytes.antt =====
-- Byte slices: Go's `copy`, slicing with its bounds check, and little-endian 32-bit fields.
use web_rtcsfu.Base.Lists.{length, take, drop, get_elem?}
use web_rtcsfu.Base.Tests.{leb, if◌then◌else◌}
use Prim.Native.Nat.{ℕ, zero, suc, ◌+◌, ◌-◌, ◌*◌, ◌/◌, ◌%◌, ◌^◌, ◌≤◌, ◌<◌}
use mathlib.Core.Path.{◌≡◌, refl, ap, ◌∙◌}
use mathlib.Core.Bool.{◌&&◌}
use mathlib.Core.List.{List, [], ◌∷◌, ◌++◌}
use mathlib.Core.Option.{Option, none, some}
use native.Mathlib.Omega.{arith}
use Prim.Native.Char.{code}
use Prim.Native.String.{String}

abbrev pub Bytes : Type 0
Bytes = List ℕ

abbrev pub u32 : ℕ → ℕ
u32 n = n % 2 ^ 32

-- The bytes of an ASCII literal.
abbrev pub codes : String → Bytes
codes String.[] = []
codes (String.◌∷◌ c s) = code c ∷ codes s

-- `copy(dst[off:], src)`: what does not fit is left out.
abbrev pub copy : ℕ → Bytes → Bytes → Bytes
copy zero [] dst = dst
copy zero (b ∷ src) [] = []
copy zero (b ∷ src) (d ∷ dst) = b ∷ copy zero src dst
copy (suc off) src [] = []
copy (suc off) src (d ∷ dst) = d ∷ copy off src dst

-- `s[lo:hi]` of a slice whose capacity is its length; `none` is the panic of the bounds check.
abbrev pub slice : ℕ → ℕ → Bytes → Option Bytes
slice lo hi s = if leb lo hi && leb hi (length s) then some (take (hi - lo) (drop lo s)) else none

-- The four bytes that `binary.LittleEndian.PutUint32` writes.
abbrev pub le_bytes : ℕ → Bytes
le_bytes v = (v % 256) ∷ (v / 256 % 256) ∷ (v / 65536 % 256) ∷ (v / 16777216 % 256) ∷ []

-- `binary.LittleEndian.PutUint32(buf[off:], v)` of a buffer with four bytes from `off` on.
abbrev pub put_uint32 : ℕ → ℕ → Bytes → Bytes
put_uint32 off v buf = copy off (le_bytes v) buf

-- `binary.LittleEndian.Uint32(s[off:])`; `none` is the panic on a slice that is too short.
abbrev pub uint32 : Bytes → Option ℕ
uint32 (a ∷ b ∷ c ∷ d ∷ rest) = some (a + b * 256 + c * 65536 + d * 16777216)
uint32 _ = none

pub length-copy : (off : ℕ) (src dst : Bytes) → length (copy off src dst) ≡ length dst
length-copy zero [] dst = refl
length-copy zero (b ∷ src) [] = refl
length-copy zero (b ∷ src) (d ∷ dst) = ap suc (length-copy zero src dst)
length-copy (suc off) src [] = refl
length-copy (suc off) src (d ∷ dst) = ap suc (length-copy off src dst)

-- A copy behind a prefix keeps the prefix, and a copy of the whole length replaces everything.
pub copy-append :
    (front src dst : Bytes) → copy (length front) src (front ++ dst) ≡ front ++ copy 0 src dst
copy-append [] src dst = refl
copy-append (b ∷ front) src dst = ap (λ t. b ∷ t) (copy-append front src dst)

pub copy_exact : (src dst : Bytes) → length src ≡ length dst → copy 0 src dst ≡ src
copy_exact [] [] h = refl
copy_exact [] (d ∷ dst) h = absurd (omega arith)
copy_exact (b ∷ src) [] h = absurd (omega arith)
copy_exact (b ∷ src) (d ∷ dst) h = ap (λ t. b ∷ t) (copy_exact src dst (omega arith))

pub take-copy :
    (src dst : Bytes) → length src ≤ length dst → take (length src) (copy 0 src dst) ≡ src
take-copy [] dst h = refl
take-copy (b ∷ src) [] h = absurd (omega arith)
take-copy (b ∷ src) (d ∷ dst) h = ap (λ t. b ∷ t) (take-copy src dst (omega arith))

pub slice-eq_some :
    (lo hi : ℕ) (s : Bytes)
    → lo ≤ hi
    → hi ≤ length s
    → slice lo hi s ≡ some (take (hi - lo) (drop lo s))
slice-eq_some lo hi s h k = ground arith

pub fits_u32 : (n : ℕ) → n < 2 ^ 32 → u32 n ≡ n
fits_u32 n h = omega arith

-- A slice by its start and length, where the sum does not wrap.
pub slice-u32 :
    (lo len : ℕ) (s : Bytes)
    → lo + len ≤ length s
    → length s < 2 ^ 32
    → slice lo (u32 (lo + len)) s ≡ some (take len (drop lo s))
slice-u32 lo len s h k =
    rw (fits_u32 (lo + len) (omega arith), slice-eq_some lo (lo + len) s (omega arith) h)
      (ap (λ (n : ℕ). some (take n (drop lo s))) (omega arith))

-- What a copy leaves at an index outside of its range, and what it writes inside.
pub get_elem?-copy_below :
    (off i : ℕ) (src dst : Bytes) → i < off → get_elem? (copy off src dst) i ≡ get_elem? dst i
get_elem?-copy_below zero i src dst h = absurd (omega arith)
get_elem?-copy_below (suc off) i src [] h = refl
get_elem?-copy_below (suc off) zero src (d ∷ dst) h = refl
get_elem?-copy_below (suc off) (suc i) src (d ∷ dst) h =
    get_elem?-copy_below off i src dst (omega arith)

pub get_elem?-copy_above :
    (off i : ℕ) (src dst : Bytes)
    → off + length src ≤ i
    → get_elem? (copy off src dst) i ≡ get_elem? dst i
get_elem?-copy_above zero i [] dst h = refl
get_elem?-copy_above zero i (b ∷ src) [] h = refl
get_elem?-copy_above zero zero (b ∷ src) (d ∷ dst) h = absurd (omega arith)
get_elem?-copy_above zero (suc i) (b ∷ src) (d ∷ dst) h =
    get_elem?-copy_above zero i src dst (omega arith)
get_elem?-copy_above (suc off) i src [] h = refl
get_elem?-copy_above (suc off) zero src (d ∷ dst) h = refl
get_elem?-copy_above (suc off) (suc i) src (d ∷ dst) h =
    get_elem?-copy_above off i src dst (omega arith)

pub get_elem?-copy_inside :
    (off j : ℕ) (src dst : Bytes)
    → j < length src
    → off + length src ≤ length dst
    → get_elem? (copy off src dst) (off + j) ≡ get_elem? src j
get_elem?-copy_inside zero j src dst h k =
    ap (get_elem? (copy 0 src dst)) {x = 0 + j} {y = j} (omega arith)
    ∙ front j src dst h (omega arith)
  where
    front :
        (j : ℕ) (src dst : Bytes)
        → j < length src
        → length src ≤ length dst
        → get_elem? (copy 0 src dst) j ≡ get_elem? src j
    front j [] dst h k = absurd (omega arith)
    front j (b ∷ src) [] h k = absurd (omega arith)
    front zero (b ∷ src) (d ∷ dst) h k = refl
    front (suc j) (b ∷ src) (d ∷ dst) h k = front j src dst (omega arith) (omega arith)
get_elem?-copy_inside (suc off) j src [] h k = absurd (omega arith)
get_elem?-copy_inside (suc off) j src (d ∷ dst) h k =
    ap (get_elem? (copy (suc off) src (d ∷ dst))) {x = suc off + j} {y = suc (off + j)}
      (omega arith)
    ∙ get_elem?-copy_inside off j src dst h (omega arith)

-- A field that was written is read back.
pub uint32-le_bytes :
    (v : ℕ)
    → v < 2 ^ 32
    → v % 256 + v / 256 % 256 * 256 + v / 65536 % 256 * 65536 + v / 16777216 % 256 * 16777216 ≡ v
uint32-le_bytes v h = omega arith

-- A copy to the front of a buffer with room for it.
pub copy-front :
    (src dst : Bytes) → length src ≤ length dst → copy 0 src dst ≡ src ++ drop (length src) dst
copy-front [] dst h = refl
copy-front (b ∷ src) [] h = absurd (omega arith)
copy-front (b ∷ src) (d ∷ dst) h = ap (λ t. b ∷ t) (copy-front src dst (omega arith))

-- ===== src/Base/Text/Join.antt =====
-- Texts with a separator between them, and what strings.Split makes of them.
use web_rtcsfu.Base.Lists.{All, All-append}
use web_rtcsfu.Base.Bytes.{Bytes}
use web_rtcsfu.Base.Text.{ℤ, split, format_int}
use web_rtcsfu.Base.Text.Laws.{IsDigit, Lacks, split-append, split-Lacks}
use web_rtcsfu.Base.Text.Numbers.{format_int-Lacks}
use Prim.Native.Nat.{ℕ}
use mathlib.Core.Path.{◌≡◌, ap, ◌∙◌}
use mathlib.Core.Logic.{◌≢◌}
use mathlib.Core.List.{List, [], ◌∷◌, ◌++◌, map}

abbrev pub join : ℕ → Bytes → List Bytes → Bytes
join sep first [] = first
join sep first (p ∷ ps) = first ++ sep ∷ join sep p ps

pub split-join :
    (sep : ℕ) (first : Bytes) (ps : List Bytes)
    → Lacks sep first
    → All (Lacks sep) ps
    → split (join sep first ps) sep ≡ first ∷ ps
split-join sep first [] h tt = split-Lacks sep first h
split-join sep first (p ∷ ps) h (now, later) =
    split-append sep first (join sep p ps) h
    ∙ ap (λ parts. first ∷ parts) (split-join sep p ps now later)

pub join-Lacks :
    (other sep : ℕ) (first : Bytes) (ps : List Bytes)
    → sep ≢ other
    → Lacks other first
    → All (Lacks other) ps
    → Lacks other (join sep first ps)
join-Lacks other sep first [] apart h tt = h
join-Lacks other sep first (p ∷ ps) apart h (now, later) =
    All-append (λ c. c ≢ other) first (sep ∷ join sep p ps) h
      (apart, join-Lacks other sep p ps apart now later)

pub format_ints-Lacks :
    (sep : ℕ) (zs : List ℤ) → ¬ IsDigit sep → b'-' ≢ sep → All (Lacks sep) (map format_int zs)
format_ints-Lacks sep [] digit minus = tt
format_ints-Lacks sep (z ∷ zs) digit minus =
    (format_int-Lacks z sep digit minus, format_ints-Lacks sep zs digit minus)

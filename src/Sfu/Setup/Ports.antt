-- ===== src/Sfu/Setup/Ports.antt =====
-- The range of ports that the flag names.
use web_rtcsfu.Base.{ℕ, ◌^◌, ◌<◌, ◌≡◌, some, ◌∷◌, ◌++◌, arith}
use web_rtcsfu.Base.Text.{pos, format_int}
use web_rtcsfu.Base.Text.Laws.{split-append, split-Lacks}
use web_rtcsfu.Base.Text.Numbers.{format_int-Lacks, atoi-format_int}
use web_rtcsfu.Sfu.Setup.{settings, read_ports, u16}

u16-pos : (n : ℕ) → n < 2 ^ 16 → u16 (pos n) ≡ n
unfolding u16
u16-pos n h = omega arith

-- For two numbers below 2^16 with a colon in between, the flag -p of the unit sets the range of
-- UDP ports to these numbers.
pub settings-udp_ports :
    (low high : ℕ)
    → low < 2 ^ 16
    → high < 2 ^ 16
    → (settings (format_int (pos low) ++ b':' ∷ format_int (pos high))).udp_ports ≡ some (low, high)
unfolding settings read_ports
settings-udp_ports low high hl hh =
    rw
      (
        split-append b':' (format_int (pos low)) (format_int (pos high))
            (format_int-Lacks (pos low) b':' (omega arith) (omega arith)),
        split-Lacks b':' (format_int (pos high))
            (format_int-Lacks (pos high) b':' (omega arith) (omega arith)),
        atoi-format_int (pos low) (omega arith),
        atoi-format_int (pos high) (omega arith),
      )
      (λ i. some (u16-pos low hl i, u16-pos high hh i))

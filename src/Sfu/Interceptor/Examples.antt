-- ===== src/Sfu/Interceptor/Examples.antt =====
-- Packets of two tracks that reach one stream.
use web_rtcsfu.Base.{ℕ, ◌%◌, ◌^◌, ◌≡◌, refl, List, [], ◌∷◌, ◌++◌, length, map}
use web_rtcsfu.Base.Bytes.{Bytes}
use web_rtcsfu.Sfu.Interceptor.{RtpHeader, bind_local_stream, write_all}
use web_rtcsfu.Sfu.Interceptor.Numbers.{renumbered, passed_on, write_all-renumbered}

-- A writer that keeps what it is given.
abbrev keep :
    RtpHeader ℕ → Bytes → List (RtpHeader ℕ × Bytes) → Unit {0} × List (RtpHeader ℕ × Bytes)
keep header payload seen = (tt, seen ++ (header, payload) ∷ [])

abbrev packets : List (RtpHeader ℕ × Bytes)
packets =
    (record { sequence_number = 40; rest = 1 }, 1 ∷ [])
    ∷ (record { sequence_number = 7; rest = 2 }, [])
    ∷ []

two_numbers : map (λ p. p.0.sequence_number) (passed_on keep (renumbered 0 packets) []) ≡ 0 ∷ 1 ∷ []
two_numbers = refl

write_all-renumbered_example :
    write_all keep packets (bind_local_stream keep [])
    ≡ record { seq_nr = length packets % 2 ^ 16; writer = passed_on keep (renumbered 0 packets) [] }
write_all-renumbered_example = write_all-renumbered keep packets []

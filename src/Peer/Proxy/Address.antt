-- ===== src/Peer/Proxy/Address.antt =====
-- `SetupConnection`: the address of the DLL, whose port is one above the client's own.
mod Examples
use web_rtcsfu.Base.{
  ℕ, zero, suc, refl, ◌+◌, ◌^◌, ◌<◌, ◌≡◌, Bool, Option, none, some, ◌>>=◌, List, [], ◌∷◌, ◌++◌,
  ◌==◌, bytes_eq, if◌then◌else◌, get_elem?, arith, ◌≢◌, ◌⊎◌, inl, inr,
}
use web_rtcsfu.Base.Bytes.{Bytes, codes}
use web_rtcsfu.Base.Text.{ℤ, pos, negsuc, split, atoi, format_int, wrap_int}
use web_rtcsfu.Base.Text.Laws.{
  Lacks, split-append, split-Lacks, split-until, until, first_separator,
}
use web_rtcsfu.Base.Text.Numbers.{wrap_int-pos, format_int-Lacks, atoi-format_int}

-- `port_int + 1`
next_port : ℤ → ℤ
next_port (pos n) = wrap_int (pos (n + 1))
next_port (negsuc zero) = pos 0
next_port (negsuc (suc n)) = negsuc n

-- `port_int, _ := strconv.Atoi(…)`: 0 for a text that is no number. One that no int can hold does not
-- come this far, since `ResolveUDPAddr` refuses it.
port_number : Option ℤ → ℤ
port_number none = pos 0
port_number (some n) = n

-- The new text of the port; `none` is a panic.
unfoldable pub dll_address : Bytes → Option Bytes
unfolding next_port port_number
dll_address port = do
  let port_info = split port b':'
  host ← get_elem? port_info 0
  number ← get_elem? port_info 1
  let port_string = format_int (next_port (port_number (atoi number)))
  some ((if host == [] then codes "127.0.0.1" else host) ++ b':' ∷ port_string)

-- For a host without a colon and a port below 2^63 - 1, `SetupConnection` takes the address of the DLL
-- to be the same host with the next port, and 127.0.0.1 where the host is empty.
pub dll_address-next :
    (host : Bytes) (n : ℕ)
    → Lacks b':' host
    → n + 1 < 2 ^ 63
    → dll_address (host ++ b':' ∷ format_int (pos n))
      ≡ some ((if host == [] then codes "127.0.0.1" else host) ++ b':' ∷ format_int (pos (n + 1)))
unfolding dll_address next_port port_number
dll_address-next host n lacks small =
    rw
      (
        split-append b':' host (format_int (pos n)) lacks,
        split-Lacks b':' (format_int (pos n))
            (format_int-Lacks (pos n) b':' (omega arith) (omega arith)),
        atoi-format_int (pos n) (omega arith),
        wrap_int-pos (n + 1) small,
      )
      refl

dll_address-found :
    (port host number : Bytes) (ps : List Bytes)
    → split port b':' ≡ host ∷ number ∷ ps
    → (Lacks b':' port × (dll_address port ≡ none))
      ⊎ ((text : Bytes) × (dll_address port ≡ some text))
unfolding dll_address
dll_address-found port host number ps e =
    let port_string = format_int (next_port (port_number (atoi number))) in
    inr ((if host == [] then codes "127.0.0.1" else host) ++ b':' ∷ port_string, rw e refl)

pub dll_address-Lacks : (port text : Bytes) → Lacks b':' port → dll_address port ≢ some text
unfolding dll_address
dll_address-Lacks port text lacks e = absurd (cc (rw (split-Lacks b':' port lacks) at e))

-- Only a text without a colon has no address of the DLL.
pub dll_address-cases :
    (port : Bytes)
    → (Lacks b':' port × (dll_address port ≡ none))
      ⊎ ((text : Bytes) × (dll_address port ≡ some text))
unfolding dll_address
dll_address-cases port = elim (first_separator b':' port) [
  | inl lacks ↦ inl (lacks, rw (split-Lacks b':' port lacks) refl)
  | inr (p, q, e, lacks) ↦
      let (ps, first) = split-until b':' q in
      dll_address-found port p (until b':' q) ps (rw (e, split-append b':' p q lacks, first) refl)
]

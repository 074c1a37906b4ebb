-- ===== src/Peer/Proxy/Connecting.antt =====
-- `SetupConnection`: the socket of the client, the address of the DLL, and the packet that greets it.
-- Waiting for the answer without end is not modelled.
use web_rtcsfu.Base.{
  ◌≡◌, refl, Bool, true, false, Option, none, some, ◌>>=◌, ◌⊎◌, inl, inr, Bool-cases, Option-cases,
  if◌then◌else◌, replicate, arith,
}
use web_rtcsfu.Base.Bytes.{Bytes}
use web_rtcsfu.Base.Text.Laws.{Lacks}
use web_rtcsfu.Peer.Proxy.Address.{dll_address, dll_address-cases, dll_address-Lacks}
use web_rtcsfu.Peer.Proxy.Send.{send_peer_ready_packet, framed, send_packet-framed}

-- The calls of net: `ResolveUDPAddr`, `ListenUDP`, `WriteToUDP`, each with whether it goes well, and the
-- sender of the first datagram that `ReadFromUDP` reads; `none` is an error.
pub record Udp : Type 1 where
  pub Address : Type 0
  pub resolve : Bytes → Option Address
  pub listen : Address → Bool
  pub write : Address → Bytes → Bool
  pub read : Option Address

module _ (udp : Udp) where
  open udp use {Address, resolve, listen, write, read}

  -- `pc.conn`, which may be nil, and `pc.addr`.
  pub record Socket : Type 0 where
    pub conn : Bool
    pub addr : Option Address

  abbrev pub no_socket : Socket
  no_socket = record { conn = false; addr = none }

  greet_dll : Option Address → Option Socket
  greet_dll none = some (record { conn = true; addr = none })
  greet_dll (some dll) = send_peer_ready_packet >>= λ packet.
      if write dll packet then some (record { conn = true; addr = read }) else none

  -- `none` is a panic.
  unfoldable pub setup_connection : Bytes → Option Socket
  unfolding greet_dll
  setup_connection port = elim (resolve port) [
    | none ↦ some no_socket
    | some address ↦
        if listen address
        then (dll_address port >>= λ text. greet_dll (resolve text))
        else some no_socket
  ]

  -- The packet that greets the DLL: its type, 0, and zeros.
  abbrev pub greeting : Bytes
  greeting = framed 0 (replicate 100 0)

  -- The client's address is good, and its text has no colon or the DLL cannot be written to.
  abbrev pub Panics : Bytes → Type 0
  Panics port =
      (address : Address) × (resolve port ≡ some address)
      × (listen address ≡ true)
      × (Lacks b':' port
          ⊎ ((text : Bytes) × (dll : Address) × (dll_address port ≡ some text)
              × (resolve text ≡ some dll)
              × (write dll greeting ≡ false)))

  greets : send_peer_ready_packet ≡ some greeting
  unfolding send_peer_ready_packet
  greets = send_packet-framed (replicate 100 0) 0 0 (omega arith)

  setup_connection-Panics : (port : Bytes) → Panics port → setup_connection port ≡ none
  unfolding setup_connection greet_dll
  setup_connection-Panics port (address, here, bound, inl lacks) = elim (dll_address-cases port) [
    | inl (l, failed) ↦ rw (setup_connection, here, bound, failed, ◌>>=◌) refl
    | inr (text, found) ↦ absurd (dll_address-Lacks port text lacks found)
  ]
  setup_connection-Panics port (address, here, bound, inr (text, dll, found, there, refused)) =
      rw (setup_connection, here, bound, found, there, greet_dll, greets, refused, ◌>>=◌) refl

  greet_dll-cases :
      (text : Bytes)
      → ((dll : Address) × (resolve text ≡ some dll) × (write dll greeting ≡ false))
        ⊎ ((s : Socket) × (greet_dll (resolve text) ≡ some s))
  unfolding greet_dll
  greet_dll-cases text = elim (Option-cases (resolve text)) [
    | inl failed ↦ inr (record { conn = true; addr = none }, rw failed refl)
    | inr (dll, found) ↦ elim (Bool-cases (write dll greeting)) [
      | inl good ↦ inr (record { conn = true; addr = read }, rw (found, greets, good, ◌>>=◌) refl)
      | inr bad ↦ inl (dll, found, bad)
    ]
  ]

  finished : (port : Bytes) → Panics port ⊎ ((s : Socket) × (setup_connection port ≡ some s))
  unfolding setup_connection
  finished port = elim (Option-cases (resolve port)) [
    | inl failed ↦ inr (no_socket, rw (setup_connection, failed) refl)
    | inr (address, here) ↦ elim (Bool-cases (listen address)) [
      | inr unbound ↦ inr (no_socket, rw (setup_connection, here, unbound) refl)
      | inl bound ↦ elim (dll_address-cases port) [
        | inl (lacks, failed) ↦ inl (address, here, bound, inl lacks)
        | inr (text, found) ↦ elim (greet_dll-cases text) [
          | inl (dll, there, refused) ↦
              inl (address, here, bound, inr (text, dll, found, there, refused))
          | inr (s, opened) ↦ inr (s, rw (setup_connection, here, bound, found, ◌>>=◌) opened)
        ]
      ]
    ]
  ]

  -- `SetupConnection` panics in exactly these cases, and returns in all others.
  pub setup_connection-cases :
      (port : Bytes)
      → (Panics port × (setup_connection port ≡ none))
        ⊎ ((¬ Panics port) × (s : Socket) × (setup_connection port ≡ some s))
  setup_connection-cases port = elim (finished port) [
    | inl h ↦ inl (h, setup_connection-Panics port h)
    | inr (s, opened) ↦ inr (λ h. absurd (cc (opened, setup_connection-Panics port h)), s, opened)
  ]

-- ===== src/Peer/Start/Outcome.antt =====
-- What the flags lead to, and what the goroutines of a connected client meet first.
use web_rtcsfu.Base.{
  ℕ, Bool, ◌<◌, ◌≡◌, refl, true, none, some, ◌==◌, bytes_eq, Bool-cases, inl, inr, ◌>>=◌, ◌⊎◌,
  false, if◌then◌else◌,
}
use web_rtcsfu.Base.Bytes.{codes, u32}
use web_rtcsfu.Base.Map.{lookup}
use web_rtcsfu.Peer.Proxy.Types.{ProxyConnection, key_eq}
use web_rtcsfu.Peer.Proxy.Connecting.{Udp, Socket, Panics, setup_connection, setup_connection-cases}
use web_rtcsfu.Peer.Proxy.{new_proxy_connection, start_listening}
use web_rtcsfu.Peer.Proxy.Consumers.{waits, next_tile, wait_for, next_audio_frame}
use web_rtcsfu.Peer.Transcoder.{
  Transcoder, encoded, blocked, encode_frame, new_transcoder_remote, new_transcoder_dummy, remote,
  dummy,
}
use web_rtcsfu.Peer.Start.{Flags, rounds, exits, panics, runs, start}
use web_rtcsfu.Peer.Start.Listening.{start_listening-waited}

-- The goroutines wait for the DLL: the one for audio, and those for tiles.
abbrev pub Waits : Flags → ProxyConnection → Transcoder → Type 0
Waits f pc t =
    (next_audio_frame pc ≡ some waits)
    × ((tile quality : ℕ)
        → tile < rounds f.n_tiles
        → quality < rounds f.n_qualities
        → encode_frame t pc (u32 tile) (u32 quality) ≡ some blocked)

-- The goroutine for audio panics, and those for tiles never get a frame and never wait for one.
abbrev pub Breaks : ProxyConnection → Transcoder → Type 0
Breaks pc t =
    (next_audio_frame pc ≡ none)
    × ((tile quality : ℕ) → encode_frame t pc tile quality ≡ some (encoded pc none))

abbrev pub After : Udp → Flags → Type 0
After udp f =
    (socket : Socket udp) × (pc : ProxyConnection) × (t : Transcoder) × (setup_connection udp
        f.proxy_port
      ≡ some socket)
    × (start udp f ≡ runs socket pc t)
    × (pc.ws_handler ≡ true)
    × (if f.use_proxy_input then Waits f pc t else Breaks pc t)

in_then : (b : Bool) (A B : Type 0) → b ≡ true → A → if b then A else B
in_then b A B h a = rw h a

in_else : (b : Bool) (A B : Type 0) → b ≡ false → B → if b then A else B
in_else b A B h a = rw h a

module _ (udp : Udp) (f : Flags) where
  -- The connection of a client with `-i`.
  abbrev listening : ProxyConnection
  listening =
      record (start_listening new_proxy_connection (rounds f.n_tiles) (rounds f.n_qualities)) {
        ws_handler = true;
      }

  abbrev quiet : ProxyConnection
  quiet = record new_proxy_connection { ws_handler = true }

  listening-Waits : Waits f listening (remote new_transcoder_remote)
  unfolding next_audio_frame encode_frame next_tile start_listening new_proxy_connection lookup
  listening-Waits = (
    refl,
    λ tile quality ht hq.
        rw
          (
            start_listening-waited tile quality (rounds f.n_tiles) (rounds f.n_qualities) ht hq,
            wait_for,
          )
          refl,
  )

  quiet-Breaks : Breaks quiet (dummy new_transcoder_dummy)
  unfolding next_audio_frame encode_frame new_proxy_connection
  quiet-Breaks = (refl, λ tile quality. refl)

  continues :
      (socket : Socket udp)
      → f.enable_debug ≡ false
      → (f.proxy_port == codes ":0") ≡ false
      → setup_connection udp f.proxy_port ≡ some socket
      → After udp f
  unfolding start
  continues socket normal port opened = elim (Bool-cases f.use_proxy_input) [
    | inl input ↦ (
      socket,
      listening,
      remote new_transcoder_remote,
      opened,
      rw (normal, port, opened, input, ◌>>=◌) refl,
      refl,
      rw input listening-Waits,
    )
    | inr no_input ↦ (
      socket,
      quiet,
      dummy new_transcoder_dummy,
      opened,
      rw (normal, port, opened, no_input, ◌>>=◌) refl,
      refl,
      rw no_input quiet-Breaks,
    )
  ]

  debugs : f.enable_debug ≡ true → start udp f ≡ panics
  unfolding start
  debugs debug = elim (Bool-cases (f.proxy_port == codes ":0")) [
    | inl zero_port ↦ rw (debug, zero_port) refl
    | inr port ↦ rw (debug, port) refl
  ]

  no_port : f.enable_debug ≡ false → (f.proxy_port == codes ":0") ≡ true → start udp f ≡ exits
  unfolding start
  no_port normal zero_port = rw (normal, zero_port) refl

  stops :
      f.enable_debug ≡ false
      → (f.proxy_port == codes ":0") ≡ false
      → setup_connection udp f.proxy_port ≡ none
      → start udp f ≡ panics
  unfolding start
  stops normal port failed = rw (normal, port, failed, ◌>>=◌) refl

  connects :
      f.enable_debug ≡ false
      → (f.proxy_port == codes ":0") ≡ false
      → (Panics udp f.proxy_port × (start udp f ≡ panics))
        ⊎ ((¬ Panics udp f.proxy_port) × After udp f)
  connects normal port = elim (setup_connection-cases udp f.proxy_port) [
    | inl (h, failed) ↦ inl (h, stops normal port failed)
    | inr (fine, socket, opened) ↦ inr (fine, continues socket normal port opened)
  ]

  pub start-outcome :
      (if f.enable_debug
        then start udp f ≡ panics
        else (if f.proxy_port == codes ":0"
            then start udp f ≡ exits
            else (Panics udp f.proxy_port × (start udp f ≡ panics))
            ⊎ ((¬ Panics udp f.proxy_port) × After udp f)))
  start-outcome = elim (Bool-cases f.enable_debug) [
    | inl debug ↦ in_then f.enable_debug _ _ debug (debugs debug)
    | inr normal ↦ elim (Bool-cases (f.proxy_port == codes ":0")) [
      | inl zero_port ↦
          in_else f.enable_debug _ _ normal
            (in_then (f.proxy_port == codes ":0") _ _ zero_port (no_port normal zero_port))
      | inr port ↦
          in_else f.enable_debug _ _ normal
            (in_else (f.proxy_port == codes ":0") _ _ port (connects normal port))
    ]
  ]

-- ===== src/Peer/Signaling/Listening.antt =====
-- The messages that are sent reach the callback of the listener, in order.
use web_rtcsfu.Base.{
  ◌≤◌, ◌≡◌, refl, Option, none, some, ◌>>=◌, List, [], ◌∷◌, ◌++◌, map, All, Option-cases, inl, inr,
}
use web_rtcsfu.Base.Bytes.{Bytes}
use web_rtcsfu.Base.Text.{max_u64}
use web_rtcsfu.Base.Text.Laws.{Lacks}
use web_rtcsfu.Peer.Signaling.{WebsocketPacket, send_message, listen}
use web_rtcsfu.Peer.Signaling.RoundTrip.{read_message-intact}

-- Two numbers of 64 bits, and a message without `@`.
abbrev pub IsPlain : WebsocketPacket → Type 0
IsPlain p = (p.client_id ≤ max_u64) × (p.message_type ≤ max_u64) × Lacks b'@' p.message

module _ {S : Type 0} (callback : WebsocketPacket → S → Option S) where
  -- The callback on one packet after another.
  abbrev pub deliver : List WebsocketPacket → S → Option S
  deliver [] s = some s
  deliver (p ∷ ps) s = callback p s >>= λ s'. deliver ps s'

  abbrev pub texts : List WebsocketPacket → List (Option Bytes)
  texts = map (λ p. some (send_message p))

  -- Take packets whose numbers fit 64 bits and whose messages have no `@`. A listener that reads
  -- the texts that `SendMessage` writes for them, up to an error, gives its callback these
  -- packets, in order, and nothing else; it ends as the callback on them ends, with a panic
  -- exactly if the callback panics.
  pub listen-send_message :
      (ps : List WebsocketPacket) (later : List (Option Bytes)) (s : S)
      → All IsPlain ps
      → listen callback (texts ps ++ none ∷ later) s ≡ deliver ps s
  unfolding listen
  listen-send_message [] later s h = refl
  listen-send_message (p ∷ ps) later s (now, h) = elim (Option-cases (callback p s)) [
    | inl panic ↦ rw (read_message-intact p now.0 now.1 now.2, panic, ◌>>=◌) refl
    | inr (s', handled) ↦
        rw (read_message-intact p now.0 now.1 now.2, handled, ◌>>=◌)
          (listen-send_message ps later s' h)
  ]

-- ===== src/Peer/Proxy/Waiting/Found.antt =====
-- A goroutine that is woken finds its frame, and none waits while its frame is there.
use web_rtcsfu.Base.{
  ◌≡◌, ◌≢◌, refl, ap, Option, some, List, [], ◌∷◌, true, false, ◌==◌, Bool-cases, inl, inr,
  beq_refl,
}
use web_rtcsfu.Base.Bytes.{Bytes}
use web_rtcsfu.Base.Map.{Map, lookup, insert, remove, lookup-insert, lookup-remove}
use web_rtcsfu.Peer.Proxy.Types.{
  VideoKey, key_eq, RemoteTile, ProxyConnection, Effect, wake_video, wake_audio, forward,
}
use web_rtcsfu.Peer.Proxy.Consumers.{take_tile}
use web_rtcsfu.Peer.Proxy.Consumers.Taking.{
  has_tile, take_tile-some, take_tile-has, next_tile-ready, next_tile-waits, next_audio_frame-tiles,
}
use web_rtcsfu.Peer.Proxy.Waiting.{
  Consumer, outside, waiting, woken, broadcast, place, wake, Step, arrives, finds, blocks, takes,
  finds_audio, Reach, start, next,
}
use web_rtcsfu.Peer.Proxy.Waiting.Effects.{IsQuiet, Puts, completed, receive-Puts}

abbrev Tiles : Type 0
Tiles = Map VideoKey (List RemoteTile)

-- The goroutine of a key, next to the key's slot.
record Agrees (c : Consumer) (slot : Option (List RemoteTile)) : Type 0 where
  found : c ≡ woken → has_tile slot ≡ true
  missed : c ≡ waiting → has_tile slot ≡ false

abbrev Synced : Tiles → (VideoKey → Consumer) → Type 0
Synced tiles consumers = (key : VideoKey) → Agrees (consumers key) (lookup key tiles)

waiting_ne : waiting ≢ woken
waiting_ne e = cc e

outside-Agrees : (slot : Option (List RemoteTile)) → Agrees outside slot
outside-Agrees slot = record { found = λ e. absurd (cc e); missed = λ e. absurd (cc e) }

broadcast-Agrees :
    (c : Consumer) (r : RemoteTile) (older : List RemoteTile)
    → Agrees (broadcast c) (some (r ∷ older))
broadcast-Agrees outside r older = outside-Agrees (some (r ∷ older))
broadcast-Agrees waiting r older = record { found = λ e. refl; missed = λ e. absurd (cc e) }
broadcast-Agrees woken r older = record { found = λ e. refl; missed = λ e. absurd (cc e) }

wake-IsQuiet :
    (es : List Effect) (consumers : VideoKey → Consumer)
    → IsQuiet es
    → wake es consumers ≡ consumers
unfolding wake
wake-IsQuiet [] consumers h = refl
wake-IsQuiet (wake_video key ∷ es) consumers h = absurd h
wake-IsQuiet (wake_audio ∷ es) consumers h = wake-IsQuiet es consumers h
wake-IsQuiet (forward message ∷ es) consumers h = wake-IsQuiet es consumers h

-- A change of one key's goroutine and slot.
place-Synced :
    (tiles tiles' : Tiles) (consumers : VideoKey → Consumer) (key : VideoKey) (c : Consumer)
    → Agrees c (lookup key tiles')
    → ((k : VideoKey) → (key == k) ≡ false → lookup k tiles' ≡ lookup k tiles)
    → Synced tiles consumers
    → Synced tiles' (place key c consumers)
unfolding place
place-Synced tiles tiles' consumers key c own others h k = elim (Bool-cases (key == k)) [
  | inl here ↦ let same : key ≡ k = (key_eq.beq_iff key k).0 here in rw (here, ← same) own
  | inr other ↦ rw (other, others k other) (h k)
]

-- A goroutine that stays where it is.
kept_place :
    (consumers : VideoKey → Consumer) (key k : VideoKey)
    → place key (consumers key) consumers k ≡ consumers k
unfolding place
kept_place consumers key k = elim (Bool-cases (key == k)) [
  | inl here ↦ rw here (ap consumers ((key_eq.beq_iff key k).0 here))
  | inr other ↦ rw other refl
]

removed-others :
    (tiles tiles' : Tiles) (key : VideoKey)
    → tiles' ≡ remove key tiles
    → (k : VideoKey) → (key == k) ≡ false
    → lookup k tiles' ≡ lookup k tiles
removed-others tiles tiles' key e k other = rw (e, lookup-remove key k tiles, other) refl

arrives-Synced :
    (whole : Option (VideoKey × Bytes)) (pc : ProxyConnection) (now : ProxyConnection × List Effect)
    (consumers : VideoKey → Consumer)
    → Puts whole pc now
    → Synced pc.complete_tiles consumers
    → Synced now.0.complete_tiles (wake now.1 consumers)
unfolding wake
arrives-Synced whole pc now consumers (inl (same, quiet, nothing)) h =
    rw (same, wake-IsQuiet now.1 consumers quiet) h
arrives-Synced whole pc now consumers (inr (key, r, older, put, woke, frame)) h =
    rw (woke, put)
      (place-Synced pc.complete_tiles (insert key (r ∷ older) pc.complete_tiles) consumers key
        (broadcast (consumers key))
        (rw (lookup-insert key key (r ∷ older) pc.complete_tiles, beq_refl key)
          (broadcast-Agrees (consumers key) r older))
        (λ k other. rw (lookup-insert key k (r ∷ older) pc.complete_tiles, other) refl) h)

Step-Synced :
    (pc : ProxyConnection) (consumers : VideoKey → Consumer) (pc' : ProxyConnection)
    (consumers' : VideoKey → Consumer)
    → Step pc consumers pc' consumers'
    → Synced pc.complete_tiles consumers
    → Synced pc'.complete_tiles consumers'
Step-Synced _ _ _ _ (arrives pc pc' consumers datagram effects run) h =
    arrives-Synced (completed pc datagram) pc (pc', effects) consumers
      (receive-Puts pc datagram (pc', effects) run) h
Step-Synced _ _ _ _ (finds pc pc' consumers key bytes out run) h = λ k.
    rw (← kept_place consumers key k) (
      place-Synced pc.complete_tiles pc'.complete_tiles consumers key (consumers key)
        (rw out (outside-Agrees (lookup key pc'.complete_tiles)))
        (removed-others pc.complete_tiles pc'.complete_tiles key
          (next_tile-ready pc key pc' bytes run))
        h k)
Step-Synced _ _ _ _ (blocks pc consumers key out run) h =
    place-Synced pc.complete_tiles pc.complete_tiles consumers key waiting
      (record { found = λ e. absurd (waiting_ne e); missed = λ e. next_tile-waits pc key run })
      (λ k other. refl) h
Step-Synced _ _ _ _ (takes pc pc' consumers key bytes up run) h =
    place-Synced pc.complete_tiles pc'.complete_tiles consumers key outside
      (outside-Agrees (lookup key pc'.complete_tiles))
      (removed-others pc.complete_tiles pc'.complete_tiles key
        (take_tile-some pc key (pc', bytes) run))
      h
Step-Synced _ _ _ _ (finds_audio pc pc' consumers bytes run) h =
    rw (next_audio_frame-tiles pc pc' bytes run) h

Reach-Synced :
    (pc0 pc : ProxyConnection) (consumers : VideoKey → Consumer)
    → Reach pc0 pc consumers
    → Synced pc.complete_tiles consumers
Reach-Synced pc0 _ _ start = λ key. outside-Agrees (lookup key pc0.complete_tiles)
Reach-Synced pc0 _ _ (next pc consumers pc' consumers' reach step) =
    Step-Synced pc consumers pc' consumers' step (Reach-Synced pc0 pc consumers reach)

-- Let each tile and quality have one goroutine that calls `NextTile`, all outside of it at first.
-- However their calls interleave with each other, with the datagrams that arrive (none of which
-- panics) and with the audio goroutine, one that `Wait` has let go finds a frame of its key:
-- `NextTile` does not panic behind `Wait`.
pub Reach-found :
    (pc0 pc : ProxyConnection) (consumers : VideoKey → Consumer) (key : VideoKey)
    → Reach pc0 pc consumers
    → consumers key ≡ woken
    → (now : ProxyConnection × Bytes) × (take_tile pc key ≡ some now)
Reach-found pc0 pc consumers key reach up =
    take_tile-has pc key ((Reach-Synced pc0 pc consumers reach key).found up)

-- Let each tile and quality have one goroutine that calls `NextTile`, all outside of it at first.
-- However their calls interleave with each other, with the datagrams that arrive (none of which
-- panics) and with the audio goroutine, none is in `Wait` while there is a complete frame of its
-- key.
pub Reach-missed :
    (pc0 pc : ProxyConnection) (consumers : VideoKey → Consumer) (key : VideoKey)
    → Reach pc0 pc consumers
    → consumers key ≡ waiting
    → has_tile (lookup key pc.complete_tiles) ≡ false
Reach-missed pc0 pc consumers key reach waits =
    (Reach-Synced pc0 pc consumers reach key).missed waits

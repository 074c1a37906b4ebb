-- ===== src/Peer/Proxy/Waiting/Mailbox.antt =====
-- The complete tiles are a mailbox for one frame of each key: a frame that is put replaces the one that
-- is there, and a frame that is delivered is gone.
use web_rtcsfu.Base.{
  ◌≡◌, refl, sym, ap, ◌∙◌, subst, Option, none, some, List, [], ◌∷◌, ◌++◌, ◌==◌, if◌then◌else◌,
  Bool-cases, inl, inr,
}
use web_rtcsfu.Base.Bytes.{Bytes}
use web_rtcsfu.Base.Map.{lookup, remove, lookup-insert, lookup-remove}
use web_rtcsfu.Peer.Proxy.Types.{VideoKey, key_eq, RemoteTile, ProxyConnection, Effect}
use web_rtcsfu.Peer.Proxy.Consumers.Taking.{
  newest, take_tile-some, take_tile-newest_data, next_tile-ready, next_tile-newest_data,
  next_audio_frame-tiles,
}
use web_rtcsfu.Peer.Proxy.Waiting.{
  Consumer, Step, arrives, finds, blocks, takes, finds_audio, Reach, start, next,
}
use web_rtcsfu.Peer.Proxy.Waiting.Effects.{Puts, completed, receive-Puts}

abbrev pub Mailbox : Type 0
Mailbox = VideoKey → Option Bytes

pub with_mail : VideoKey → Option Bytes → Mailbox → Mailbox
with_mail key mail box k = if key == k then mail else box k

-- What happens to a mailbox.
pub data Event : Type 0 where
  arrived : VideoKey → Bytes → Event
  delivered : VideoKey → Bytes → Event

-- The specification: from each event, how the mailbox goes on.
pub data Mail : Mailbox → List Event → Mailbox → Type 0 where
  keep : (box : Mailbox) → Mail box [] box
  put :
      (box : Mailbox) (key : VideoKey) (bytes : Bytes)
      → Mail box (arrived key bytes ∷ []) (with_mail key (some bytes) box)
  deliver :
      (box : Mailbox) (key : VideoKey) (bytes : Bytes)
      → box key ≡ some bytes
      → Mail box (delivered key bytes ∷ []) (with_mail key none box)

pub data Mails (box0 : Mailbox) : List Event → Mailbox → Type 0 where
  empty : Mails box0 [] box0
  more :
      (out new : List Event) (box box' : Mailbox)
      → Mails box0 out box
      → Mail box new box'
      → Mails box0 (out ++ new) box'

-- The mailbox of a connection.
pub mailbox : ProxyConnection → Mailbox
mailbox pc key = newest (lookup key pc.complete_tiles)

-- The frame that a datagram completes arrives.
abbrev arrival : Option (VideoKey × Bytes) → List Event
arrival none = []
arrival (some (key, bytes)) = arrived key bytes ∷ []

-- What a step does: the frame that its datagram completes, or the one that it hands out.
unfoldable pub events :
    {pc pc' : ProxyConnection} {consumers consumers' : VideoKey → Consumer}
    → Step pc consumers pc' consumers'
    → List Event
events (arrives pc pc' consumers datagram effects run) = arrival (completed pc datagram)
events (finds pc pc' consumers key bytes out run) = delivered key bytes ∷ []
events (blocks pc consumers key out run) = []
events (takes pc pc' consumers key bytes up run) = delivered key bytes ∷ []
events (finds_audio pc pc' consumers bytes run) = []

unfoldable pub history :
    {pc0 pc : ProxyConnection} {consumers : VideoKey → Consumer}
    → Reach pc0 pc consumers
    → List Event
history start = []
history (next pc consumers pc' consumers' reach step) = history reach ++ events step

same_mailbox :
    (pc pc' : ProxyConnection) → pc'.complete_tiles ≡ pc.complete_tiles → mailbox pc ≡ mailbox pc'
unfolding mailbox
same_mailbox pc pc' e = let back = sym e in λ i key. newest (lookup key (back i))

-- One slot is changed.
changed_mailbox :
    (pc pc' : ProxyConnection) (key : VideoKey) (slot : Option (List RemoteTile))
    → ((k : VideoKey)
        → lookup k pc'.complete_tiles ≡ (if key == k then slot else lookup k pc.complete_tiles))
    → with_mail key (newest slot) (mailbox pc) ≡ mailbox pc'
unfolding mailbox with_mail
changed_mailbox pc pc' key slot h = λ i k. at k i
  where
    at :
        (k : VideoKey)
        → (if key == k then newest slot else newest (lookup k pc.complete_tiles))
          ≡ newest (lookup k pc'.complete_tiles)
    at k = elim (Bool-cases (key == k)) [
      | inl here ↦ rw (h k, here) refl
      | inr other ↦ rw (h k, other) refl
    ]

emptied :
    (pc pc' : ProxyConnection) (key : VideoKey) (bytes : Bytes)
    → newest (lookup key pc.complete_tiles) ≡ some bytes
    → pc'.complete_tiles ≡ remove key pc.complete_tiles
    → Mail (mailbox pc) (delivered key bytes ∷ []) (mailbox pc')
emptied pc pc' key bytes here gone =
    subst (Mail (mailbox pc) (delivered key bytes ∷ []))
      (changed_mailbox pc pc' key none
        (λ k. ap (lookup k) gone ∙ lookup-remove key k pc.complete_tiles))
      (deliver (mailbox pc) key bytes (unfold mailbox in here))

arrives-Mail :
    (whole : Option (VideoKey × Bytes)) (pc : ProxyConnection) (now : ProxyConnection × List Effect)
    → Puts whole pc now
    → Mail (mailbox pc) (arrival whole) (mailbox now.0)
arrives-Mail whole pc now (inl (same, quiet, nothing)) =
    rw nothing (subst (Mail (mailbox pc) []) (same_mailbox pc now.0 same) (keep (mailbox pc)))
arrives-Mail whole pc now (inr (key, r, older, stored, woke, frame)) = rw frame (
    subst (Mail (mailbox pc) (arrived key r.file_data ∷ []))
      (changed_mailbox pc now.0 key (some (r ∷ older))
        (λ k. ap (lookup k) stored ∙ lookup-insert key k (r ∷ older) pc.complete_tiles))
      (put (mailbox pc) key r.file_data))

Step-Mail :
    (pc : ProxyConnection) (consumers : VideoKey → Consumer) (pc' : ProxyConnection)
    (consumers' : VideoKey → Consumer) (step : Step pc consumers pc' consumers')
    → Mail (mailbox pc) (events step) (mailbox pc')
unfolding events
Step-Mail _ _ _ _ (arrives pc pc' consumers datagram effects run) =
    arrives-Mail (completed pc datagram) pc (pc', effects)
      (receive-Puts pc datagram (pc', effects) run)
Step-Mail _ _ _ _ (finds pc pc' consumers key bytes out run) =
    emptied pc pc' key bytes (next_tile-newest_data pc key pc' bytes run)
      (next_tile-ready pc key pc' bytes run)
Step-Mail _ _ _ _ (blocks pc consumers key out run) = keep (mailbox pc)
Step-Mail _ _ _ _ (takes pc pc' consumers key bytes up run) =
    emptied pc pc' key bytes (take_tile-newest_data pc key (pc', bytes) run)
      (take_tile-some pc key (pc', bytes) run)
Step-Mail _ _ _ _ (finds_audio pc pc' consumers bytes run) =
    subst (Mail (mailbox pc) []) (same_mailbox pc pc' (next_audio_frame-tiles pc pc' bytes run))
      (keep (mailbox pc))

-- Let each tile and quality have one goroutine that calls `NextTile`, all outside of it at first.
-- Take any run of them with the datagrams that arrive (none of which panics) and the audio
-- goroutine, and its history: the frame that each datagram completes, which is its part copied to
-- its place in the bytes of the frame's entry once the lengths of the parts make up the frame's,
-- and the frame that each `NextTile` returns. A mailbox with one place for each key that starts
-- with the connection's newest complete frames and has exactly this history ends with those at the
-- end: a frame that arrives takes the place of the one that is there, and a frame that is
-- delivered is the one that was there, and is gone.
pub Reach-Mails :
    (pc0 pc : ProxyConnection) (consumers : VideoKey → Consumer) (reach : Reach pc0 pc consumers)
    → Mails (mailbox pc0) (history reach) (mailbox pc)
unfolding history
Reach-Mails pc0 _ _ start = empty
Reach-Mails pc0 _ _ (next pc consumers pc' consumers' reach step) =
    more (history reach) (events step) (mailbox pc) (mailbox pc')
      (Reach-Mails pc0 pc consumers reach) (Step-Mail pc consumers pc' consumers' step)

-- ===== src/Peer/Proxy/Waiting.antt =====
-- The goroutines that wait for tiles, one for each tile and quality, next to the one that receives
-- datagrams. Between two calls that take the mutex any of them may run, so a run is a sequence of steps.
pub mod Effects
pub mod Found
pub mod Mailbox
mod Examples
use web_rtcsfu.Base.{◌≡◌, Option, some, List, [], ◌∷◌, Bool, true, false, ◌==◌, if◌then◌else◌}
use web_rtcsfu.Base.Bytes.{Bytes}
use web_rtcsfu.Peer.Proxy.{receive}
use web_rtcsfu.Peer.Proxy.Types.{
  VideoKey, key_eq, ProxyConnection, Effect, wake_video, wake_audio, forward,
}
use web_rtcsfu.Peer.Proxy.Consumers.{ready, waits, next_tile, take_tile, next_audio_frame}

-- Where the goroutine of a key is: outside of `NextTile`, in `Wait`, or past it without the mutex.
pub data Consumer : Type 0 where
  outside : Consumer
  waiting : Consumer
  woken : Consumer

abbrev pub broadcast : Consumer → Consumer
broadcast waiting = woken
broadcast outside = outside
broadcast woken = woken

pub place : VideoKey → Consumer → (VideoKey → Consumer) → VideoKey → Consumer
place key c consumers k = if key == k then c else consumers k

-- What the broadcasts of a datagram do.
pub wake : List Effect → (VideoKey → Consumer) → VideoKey → Consumer
wake [] consumers = consumers
wake (wake_video key ∷ es) consumers = wake es (place key (broadcast (consumers key)) consumers)
wake (wake_audio ∷ es) consumers = wake es consumers
wake (forward message ∷ es) consumers = wake es consumers

pub data Step
    : ProxyConnection
      → (VideoKey → Consumer)
      → ProxyConnection
      → (VideoKey → Consumer)
      → Type 0 where
  arrives :
      (pc pc' : ProxyConnection) (consumers : VideoKey → Consumer) (datagram : Bytes)
      (effects : List Effect)
      → receive pc datagram ≡ some (pc', effects)
      → Step pc consumers pc' (wake effects consumers)
  finds :
      (pc pc' : ProxyConnection) (consumers : VideoKey → Consumer) (key : VideoKey) (bytes : Bytes)
      → consumers key ≡ outside
      → next_tile pc key ≡ some (ready pc' bytes)
      → Step pc consumers pc' consumers
  blocks :
      (pc : ProxyConnection) (consumers : VideoKey → Consumer) (key : VideoKey)
      → consumers key ≡ outside
      → next_tile pc key ≡ some waits
      → Step pc consumers pc (place key waiting consumers)
  takes :
      (pc pc' : ProxyConnection) (consumers : VideoKey → Consumer) (key : VideoKey) (bytes : Bytes)
      → consumers key ≡ woken
      → take_tile pc key ≡ some (pc', bytes)
      → Step pc consumers pc' (place key outside consumers)
  finds_audio :
      (pc pc' : ProxyConnection) (consumers : VideoKey → Consumer) (bytes : Bytes)
      → next_audio_frame pc ≡ some (ready pc' bytes)
      → Step pc consumers pc' consumers

-- From a connection on, with every goroutine outside.
pub data Reach (pc0 : ProxyConnection) : ProxyConnection → (VideoKey → Consumer) → Type 0 where
  start : Reach pc0 pc0 (λ key. outside)
  next :
      (pc : ProxyConnection) (consumers : VideoKey → Consumer) (pc' : ProxyConnection)
      (consumers' : VideoKey → Consumer)
      → Reach pc0 pc consumers
      → Step pc consumers pc' consumers'
      → Reach pc0 pc' consumers'

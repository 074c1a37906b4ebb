-- ===== src/Peer/Proxy/Consumers.antt =====
-- `NextTile` and `NextAudioFrame`. Between the test and the frame that is taken lies `Cond.Wait`,
-- which gives up the mutex: `next_*` is the part before it, `take_*` what is done behind it.
pub mod Taking
use web_rtcsfu.Base.{◌≡◌, Option, none, some, ◌>>=◌, List, [], ◌∷◌, if◌then◌else◌}
use web_rtcsfu.Base.Bytes.{Bytes}
use web_rtcsfu.Base.Map.{lookup, remove}
use web_rtcsfu.Peer.Proxy.{found_or}
use web_rtcsfu.Peer.Proxy.Types.{VideoKey, key_eq, RemoteTile, ProxyConnection}

pub data Poll : Type 0 where
  ready : ProxyConnection → Bytes → Poll
  waits : Poll

take_first_tile : List RemoteTile → ProxyConnection → VideoKey → Option (ProxyConnection × Bytes)
take_first_tile [] pc key = none
take_first_tile (r ∷ rs) pc key =
    some (record pc { complete_tiles = remove key pc.complete_tiles }, r.file_data)

-- `complete_tiles[key][0].fileData`, and `delete(complete_tiles, key)`. There is no test here.
unfoldable pub take_tile : ProxyConnection → VideoKey → Option (ProxyConnection × Bytes)
unfolding take_first_tile
take_tile pc key = take_first_tile (found_or (lookup key pc.complete_tiles) []) pc key

-- `Wait` on the condition variable of the key, which may be a nil pointer.
unfoldable pub wait_for : Option (Unit {0}) → Option Poll
wait_for none = none
wait_for (some cond) = some waits

unfoldable pub poll_tile : List RemoteTile → ProxyConnection → VideoKey → Option Poll
unfolding wait_for
poll_tile [] pc key = wait_for (lookup key pc.cond_video)
poll_tile (r ∷ rs) pc key = take_tile pc key >>= λ t. some (ready t.0 t.1)

unfoldable pub next_tile : ProxyConnection → VideoKey → Option Poll
unfolding poll_tile
next_tile pc key = poll_tile (found_or (lookup key pc.complete_tiles) []) pc key

unfoldable pub take_first_audio :
    List RemoteTile → ProxyConnection → Option (ProxyConnection × Bytes)
take_first_audio [] pc = none
take_first_audio (r ∷ rs) pc = some (record pc { complete_audio_frames = [] }, r.file_data)

unfoldable pub take_audio : ProxyConnection → Option (ProxyConnection × Bytes)
unfolding take_first_audio
take_audio pc = take_first_audio pc.complete_audio_frames pc

unfoldable pub poll_audio : List RemoteTile → ProxyConnection → Option Poll
poll_audio [] pc = if pc.cond_audio then some waits else none
poll_audio (r ∷ rs) pc = take_audio pc >>= λ t. some (ready t.0 t.1)

unfoldable pub next_audio_frame : ProxyConnection → Option Poll
unfolding poll_audio
next_audio_frame pc = poll_audio pc.complete_audio_frames pc

-- With a frame of the key at hand, both ways of taking it give its data and forget it.
pub take_tile-newest :
    (pc : ProxyConnection) (key : VideoKey) (r : RemoteTile) (older : List RemoteTile)
    → lookup key pc.complete_tiles ≡ some (r ∷ older)
    → take_tile pc key
      ≡ some (record pc { complete_tiles = remove key pc.complete_tiles }, r.file_data)
unfolding take_tile
take_tile-newest pc key r older e = rw e

pub next_tile-newest :
    (pc : ProxyConnection) (key : VideoKey) (r : RemoteTile) (older : List RemoteTile)
    → lookup key pc.complete_tiles ≡ some (r ∷ older)
    → next_tile pc key
      ≡ some (ready (record pc { complete_tiles = remove key pc.complete_tiles }) r.file_data)
unfolding next_tile
next_tile-newest pc key r older e = rw (e, take_tile-newest pc key r older e)

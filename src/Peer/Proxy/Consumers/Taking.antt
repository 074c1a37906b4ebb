-- ===== src/Peer/Proxy/Consumers/Taking.antt =====
-- What the calls that take a frame do to the complete tiles.
use web_rtcsfu.Base.{
  ◌≡◌, refl, Option, none, some, List, [], ◌∷◌, Bool, true, false, if◌then◌else◌, Bool-cases, inl,
  inr, >>=-eq_some,
}
use web_rtcsfu.Base.Bytes.{Bytes}
use web_rtcsfu.Base.Map.{lookup, remove}
use web_rtcsfu.Peer.Proxy.{found_or}
use web_rtcsfu.Peer.Proxy.Types.{VideoKey, key_eq, RemoteTile, ProxyConnection}
use web_rtcsfu.Peer.Proxy.Consumers.{
  ready, waits, take_first_tile, take_tile, wait_for, poll_tile, next_tile, take_first_audio,
  take_audio, poll_audio, next_audio_frame,
}

-- Is there a frame in the slot of a key?
abbrev pub has_tile : Option (List RemoteTile) → Bool
has_tile none = false
has_tile (some []) = false
has_tile (some (r ∷ rs)) = true

-- The data of the newest frame in it.
abbrev pub newest : Option (List RemoteTile) → Option Bytes
newest none = none
newest (some []) = none
newest (some (r ∷ rs)) = some r.file_data

module _ (pc : ProxyConnection) (key : VideoKey) where
  pub take_tile-some :
      (now : ProxyConnection × Bytes)
      → take_tile pc key ≡ some now
      → now.0.complete_tiles ≡ remove key pc.complete_tiles
  unfolding take_tile
  take_tile-some now e = by_slot (found_or (lookup key pc.complete_tiles) []) e
    where
      by_slot :
          (slot : List RemoteTile)
          → take_first_tile slot pc key ≡ some now
          → now.0.complete_tiles ≡ remove key pc.complete_tiles
      by_slot [] h =
          let none_there : none ≡ some now = (unfold take_first_tile in h) in absurd (cc none_there)
      by_slot (r ∷ rs) h =
          let last : (record pc { complete_tiles = remove key pc.complete_tiles }, r.file_data)
              ≡ now =
            (unfold take_first_tile in cc h) in
          rw (← last) refl

  -- What is taken is the newest frame.
  pub take_tile-newest_data :
      (now : ProxyConnection × Bytes)
      → take_tile pc key ≡ some now
      → newest (lookup key pc.complete_tiles) ≡ some now.1
  unfolding take_tile
  take_tile-newest_data now e = by_slot (lookup key pc.complete_tiles) e
    where
      none_there : ¬ (take_first_tile [] pc key ≡ some now)
      none_there h = let broken : none ≡ some now = (unfold take_first_tile in h) in cc broken

      by_slot :
          (slot : Option (List RemoteTile))
          → take_first_tile (found_or slot []) pc key ≡ some now
          → newest slot ≡ some now.1
      by_slot none h = absurd (none_there h)
      by_slot (some []) h = absurd (none_there h)
      by_slot (some (r ∷ rs)) h =
          let last : (record pc { complete_tiles = remove key pc.complete_tiles }, r.file_data)
              ≡ now =
            (unfold take_first_tile in cc h) in
          rw (← last) refl

  -- A frame that is there can be taken.
  pub take_tile-has :
      has_tile (lookup key pc.complete_tiles) ≡ true
      → (now : ProxyConnection × Bytes) × (take_tile pc key ≡ some now)
  unfolding take_tile
  take_tile-has h = by_slot (lookup key pc.complete_tiles) h
    where
      by_slot :
          (slot : Option (List RemoteTile))
          → has_tile slot ≡ true
          → (now : ProxyConnection × Bytes) × (take_first_tile (found_or slot []) pc key ≡ some now)
      by_slot none h = absurd (cc h)
      by_slot (some []) h = absurd (cc h)
      by_slot (some (r ∷ rs)) h = (
        (record pc { complete_tiles = remove key pc.complete_tiles }, r.file_data),
        (unfold take_first_tile in refl),
      )

  wait_for_waits :
      (cond : Option (Unit {0})) (pc' : ProxyConnection) (bytes : Bytes)
      → ¬ (wait_for cond ≡ some (ready pc' bytes))
  unfolding wait_for
  wait_for_waits none pc' bytes h = cc h
  wait_for_waits (some c) pc' bytes h = cc h

  pub next_tile-ready :
      (pc' : ProxyConnection) (bytes : Bytes)
      → next_tile pc key ≡ some (ready pc' bytes)
      → pc'.complete_tiles ≡ remove key pc.complete_tiles
  unfolding next_tile
  next_tile-ready pc' bytes e = by_slot (found_or (lookup key pc.complete_tiles) []) e
    where
      by_slot :
          (slot : List RemoteTile)
          → poll_tile slot pc key ≡ some (ready pc' bytes)
          → pc'.complete_tiles ≡ remove key pc.complete_tiles
      by_slot [] h =
          absurd (wait_for_waits (lookup key pc.cond_video) pc' bytes (unfold poll_tile in h))
      by_slot (r ∷ rs) h =
          let (now, taken, e1) =
            >>=-eq_some (take_tile pc key) (λ t. some (ready t.0 t.1)) (ready pc' bytes)
              (unfold poll_tile in h) in
          let last : ready (now.0) (now.1) ≡ ready pc' bytes = cc e1 in
          let same : now.0 ≡ pc' = cc last in rw (← same) (take_tile-some now taken)

  pub next_tile-newest_data :
      (pc' : ProxyConnection) (bytes : Bytes)
      → next_tile pc key ≡ some (ready pc' bytes)
      → newest (lookup key pc.complete_tiles) ≡ some bytes
  unfolding next_tile
  next_tile-newest_data pc' bytes e = by_slot (found_or (lookup key pc.complete_tiles) []) e
    where
      by_slot :
          (slot : List RemoteTile)
          → poll_tile slot pc key ≡ some (ready pc' bytes)
          → newest (lookup key pc.complete_tiles) ≡ some bytes
      by_slot [] h =
          absurd (wait_for_waits (lookup key pc.cond_video) pc' bytes (unfold poll_tile in h))
      by_slot (r ∷ rs) h =
          let (now, taken, e1) =
            >>=-eq_some (take_tile pc key) (λ t. some (ready t.0 t.1)) (ready pc' bytes)
              (unfold poll_tile in h) in
          let last : ready (now.0) (now.1) ≡ ready pc' bytes = cc e1 in
          let same : now.1 ≡ bytes = cc last in rw (← same) (take_tile-newest_data now taken)

  pub next_tile-waits :
      next_tile pc key ≡ some waits → has_tile (lookup key pc.complete_tiles) ≡ false
  unfolding next_tile
  next_tile-waits e = by_slot (lookup key pc.complete_tiles) e
    where
      by_slot :
          (slot : Option (List RemoteTile))
          → poll_tile (found_or slot []) pc key ≡ some waits
          → has_tile slot ≡ false
      by_slot none h = refl
      by_slot (some []) h = refl
      by_slot (some (r ∷ rs)) h =
          let (now, taken, e1) =
            >>=-eq_some (take_tile pc key) (λ t. some (ready t.0 t.1)) waits
              (unfold poll_tile in h) in
          absurd (cc e1)

pub next_audio_frame-tiles :
    (pc pc' : ProxyConnection) (bytes : Bytes)
    → next_audio_frame pc ≡ some (ready pc' bytes)
    → pc'.complete_tiles ≡ pc.complete_tiles
unfolding next_audio_frame
next_audio_frame-tiles pc pc' bytes e = by_frames pc.complete_audio_frames e
  where
    by_taken :
        (frames : List RemoteTile) (now : ProxyConnection × Bytes)
        → take_first_audio frames pc ≡ some now
        → now.0.complete_tiles ≡ pc.complete_tiles
    by_taken [] now h =
        let none_there : none ≡ some now = (unfold take_first_audio in h) in absurd (cc none_there)
    by_taken (r ∷ rs) now h =
        let last : (record pc { complete_audio_frames = [] }, r.file_data) ≡ now =
          (unfold take_first_audio in cc h) in
        rw (← last) refl

    by_frames :
        (frames : List RemoteTile)
        → poll_audio frames pc ≡ some (ready pc' bytes)
        → pc'.complete_tiles ≡ pc.complete_tiles
    by_frames [] h =
        let polled : (if pc.cond_audio then some waits else none) ≡ some (ready pc' bytes) =
          (unfold poll_audio in h) in
        elim (Bool-cases pc.cond_audio) [
          | inl set ↦ absurd (cc (rw set at polled))
          | inr unset ↦ absurd (cc (rw unset at polled))
        ]
    by_frames (r ∷ rs) h =
        let (now, taken, e1) =
          >>=-eq_some (take_audio pc) (λ t. some (ready t.0 t.1)) (ready pc' bytes)
            (unfold poll_audio in h) in
        let last : ready (now.0) (now.1) ≡ ready pc' bytes = cc e1 in
        let same : now.0 ≡ pc' = cc last in
        rw (← same) (by_taken pc.complete_audio_frames now (unfold take_audio in taken))

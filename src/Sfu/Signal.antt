-- ===== src/Sfu/Signal.antt =====
-- sfu/main.go: `signalPeerConnections` and the closure `attemptSync` in it. The lock is held all the
-- time, so a call is one step. `none` is a panic; an offer that is sent is a peer's ID and a text.
pub mod Turns
pub mod Follows
pub mod Missing
pub mod Loopback
pub mod Healthy
pub mod Offering
pub mod Closing
pub mod Settles
pub mod Ids
mod Examples
use web_rtcsfu.Base.{
  ℕ, zero, suc, ◌+◌, Bool, true, false, Option, none, some, List, [], ◌∷◌, ◌++◌, ◌>>=◌, ◌==◌, ◌||◌,
  bytes_eq, if◌then◌else◌, get_elem?,
}
use web_rtcsfu.Base.Bytes.{Bytes, codes}
use web_rtcsfu.Base.Map.{Map, lookup, remove}
use web_rtcsfu.Base.Text.{ℤ, pos, negsuc, split, atoi, format_uint}
use web_rtcsfu.Sfu.Types.{TrackLocal, Peer, Sfu, Library, audio_id, video_id}
use web_rtcsfu.Sfu.Tracks.{add_new_track_for_peer}

-- `existingSenders`, a set of IDs.
abbrev pub contains : Bytes → List Bytes → Bool
contains id [] = false
contains id (x ∷ xs) = (x == id) || contains id xs

-- A video that is received counts as its tile, whatever its quality; an index out of range and a part
-- that is no number are panics.
unfoldable pub received_id : Bytes → Option Bytes
received_id track_id = do
  let v = split track_id b'_'
  kind ← get_elem? v 0
  if kind == codes "video"
      then (do
        client ← get_elem? v 1
        client_id ← atoi client
        tile ← get_elem? v 2
        tile_id ← atoi tile
        some (video_id client_id tile_id))
      else some track_id

pub received_ids : List (Option Bytes) → List Bytes → Option (List Bytes)
received_ids [] ids = some ids
received_ids (none ∷ rs) ids = received_ids rs ids
received_ids (some track_id ∷ rs) ids = received_id track_id >>= λ id. received_ids rs (id ∷ ids)

-- `for j := 0; j < numberOfTiles; j++`
own_videos : ℤ → ℕ → ℕ → List Bytes → List Bytes
own_videos client_id j zero ids = ids
own_videos client_id j (suc left) ids =
    own_videos client_id (j + 1) left (video_id client_id (pos j) ∷ ids)

abbrev pub rounds : ℤ → ℕ
rounds (pos n) = n
rounds (negsuc n) = 0

pub own_ids : Peer → List Bytes → List Bytes
unfolding own_videos
own_ids p ids = own_videos p.client_id 0 (rounds p.number_of_tiles) (audio_id p.client_id ∷ ids)

-- The text of an offer: `fmt.Sprintf("%d@%d@%s", 0, 2, payload)`
unfoldable pub offer_text : Bytes → Bytes
offer_text payload = format_uint 0 ++ b'@' ∷ (format_uint 2 ++ b'@' ∷ payload)

module _ (lib : Library) where
  open lib use {
    Rtc, is_closed, get_senders, sender_track, get_receivers, remove_track, create_offer,
    set_local_description, marshal,
  }

  -- How one peer's turn ends: `return true`, or the offer's text.
  pub data Turn : Type 0 where
    again : Peer → Rtc → Turn
    offered : Peer → Rtc → Bytes → Turn

  -- The loop over the senders: whether it runs to its end, and the IDs that it saw.
  pub sync_senders :
      Map Bytes TrackLocal → Peer → Rtc → List ℕ → List Bytes → Bool × Peer × Rtc × List Bytes
  sync_senders locals p rtc [] ids = (true, p, rtc, ids)
  sync_senders locals p rtc (sender ∷ senders) ids = elim (sender_track rtc sender) [
    | none ↦ sync_senders locals p rtc senders ids
    | some t ↦ elim (lookup t.id locals) [
      | some _ ↦ sync_senders locals p rtc senders (t.id ∷ ids)
      | none ↦
          let p' = record p { track_rtp_senders = remove t.id p.track_rtp_senders } in
          let removed = remove_track rtc p.connection sender in
          let rest = sync_senders locals p' removed.1 senders (t.id ∷ ids) in
          if removed.0 then rest else (false, p', removed.1, t.id ∷ ids)
    ]
  ]

  -- The loop over `trackLocals`, in the order in which the map is ranged over.
  pub add_missing : Sfu → Peer → Rtc → Map Bytes TrackLocal → List Bytes → Option (Peer × Rtc)
  add_missing s p rtc [] ids = some (p, rtc)
  add_missing s p rtc ((track_id, t) ∷ locals) ids = elim (contains track_id ids) [
    | true ↦ add_missing s p rtc locals ids
    | false ↦ add_new_track_for_peer lib s rtc p track_id >>= λ added.
        add_missing s added.0 added.1 locals ids
  ]

  -- `CreateOffer`, `SetLocalDescription` and `json.Marshal`, each with its early return.
  make_offer : Peer → Rtc → Turn
  make_offer p rtc = elim (create_offer rtc p.connection) [
    | none ↦ again p rtc
    | some (offer, rtc') ↦
        let described = set_local_description rtc' p.connection offer in
        if described.0
        then elim (marshal offer) [
          | none ↦ again p described.1
          | some payload ↦ offered p described.1 (offer_text payload)
        ]
        else again p described.1
  ]

  -- A turn from the receivers on.
  pub sync_tracks : Sfu → Peer → Rtc → List Bytes → Option Turn
  sync_tracks s p rtc ids = do
    received ← received_ids (get_receivers rtc p.connection) ids
    added ← add_missing s p rtc s.track_locals (own_ids p received)
    some (make_offer added.0 added.1)

  pub sync_peer : Sfu → Peer → Rtc → Option Turn
  sync_peer s p rtc =
      let (complete, p', rtc', ids) =
        sync_senders s.track_locals p rtc (get_senders rtc p.connection) [] in
      if complete then sync_tracks s p' rtc' ids else some (again p' rtc')

  pub record Sync : Type 0 where
    pub try_again : Bool
    pub peers : List Peer
    pub rtc : Rtc
    pub offers : List (ℕ × Bytes)

  -- What follows a peer's turn: an early return, or the rest of the loop, `next`.
  pub after_turn :
      List Peer
      → Peer
      → List Peer
      → (List Peer → Rtc → List (ℕ × Bytes) → Option Sync)
      → List (ℕ × Bytes)
      → Turn
      → Option Sync
  after_turn before p ps next sent (again p' rtc) =
      some (record { try_again = true; peers = before ++ p' ∷ ps; rtc = rtc; offers = sent })
  after_turn before p ps next sent (offered p' rtc text) =
      next (before ++ p' ∷ []) rtc (sent ++ (p.id, text) ∷ [])

  -- The loop of `attemptSync` from one peer on; `before` are the peers that had their turn.
  pub sync_peers : Sfu → List Peer → List Peer → Rtc → List (ℕ × Bytes) → Option Sync
  sync_peers s before [] rtc sent =
      some (record { try_again = false; peers = before; rtc = rtc; offers = sent })
  sync_peers s before (p ∷ ps) rtc sent = elim (is_closed rtc p.connection) [
    | true ↦ some (record { try_again = true; peers = before ++ ps; rtc = rtc; offers = sent })
    | false ↦ sync_peer s p rtc >>= λ turn.
        after_turn before p ps (λ done rtc' sent'. sync_peers s done ps rtc' sent') sent turn
  ]

  -- One call of `signalPeerConnections`: `try_again` means that another is due in 50 ms.
  pub signal_peer_connections : Sfu → Rtc → Option Sync
  signal_peer_connections s rtc = sync_peers s [] s.peer_connections rtc []

  -- The calls that one call starts, one after another until no other is due, with nothing in between
  -- that changes the maps: at most `n` of them, and `none` if that is not enough.
  pub attempts : ℕ → Sfu → Rtc → Option Sync
  attempts zero s rtc = none
  attempts (suc n) s rtc = signal_peer_connections s rtc >>= λ sync. elim sync.try_again [
    | false ↦ some sync
    | true ↦ attempts n (record s { peer_connections = sync.peers }) sync.rtc
  ]

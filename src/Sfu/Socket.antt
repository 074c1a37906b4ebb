-- ===== src/Sfu/Socket.antt =====
-- sfu/main.go: the websocket handler's reading of the query, the tracks that it registers for a new
-- client, and its loop over the client's messages. The handler works on a copy of the peer's entry
-- in the list; the two maps of both are the same, so the peer here stands for both.
pub mod Decisions
pub mod Register
pub mod Entering
pub mod Messages
pub mod Queries
pub mod Texts
mod Examples
use web_rtcsfu.Base.{
  ℕ, zero, suc, ◌+◌, Bool, Option, none, some, List, [], ◌∷◌, ◌++◌, ◌>>=◌, ◌==◌, nat_eq, bytes_eq,
  if◌then◌else◌, get_elem?,
}
use web_rtcsfu.Base.Bytes.{Bytes, codes}
use web_rtcsfu.Base.Text.{ℤ, pos, negsuc, split, atoi, parse_uint, format_uint}
use web_rtcsfu.Sfu.Types.{TrackLocal, Peer, Sfu, Library, audio_id, video_id}
use web_rtcsfu.Sfu.Tracks.{add_track_local, add_quality_track, set_track_quality}
use web_rtcsfu.Sfu.Signal.{rounds}

-- A parameter of the query that must not be a number.
read_number : Bytes → ℤ → ℤ
read_number [] default = default
read_number (c ∷ text) default = elim (atoi (c ∷ text)) [ some i ↦ i | none ↦ default ]

-- `clientid`: `none` is the early return.
read_client : Bytes → Option ℤ
read_client [] = some (pos 0)
read_client (c ∷ text) = atoi (c ∷ text)

pub record Query : Type 0 where
  pub number_of_tiles : ℤ
  pub number_of_qualities : ℤ
  pub client_id : ℤ

-- The query's three texts, and `maxNumberOfTiles`.
pub read_query : ℤ → Bytes → Bytes → Bytes → Option Query
unfolding read_number read_client
read_query max_tiles ntiles nqualities clientid = do
  client_id ← read_client clientid
  some (record {
    number_of_tiles = read_number ntiles max_tiles;
    number_of_qualities = read_number nqualities (pos 1);
    client_id = client_id;
  })

module _ (lib : Library) where
  open lib use {
    Rtc, new_track, has_remote_description, set_remote_description, add_candidate, unmarshal,
  }

  -- `for j := 0; j < numberOfQualities; j++`
  unfoldable pub register_qualities : ℤ → ℕ → ℕ → ℕ → Sfu → Rtc → Option (Sfu × Rtc)
  register_qualities client_id i j zero s rtc = some (s, rtc)
  register_qualities client_id i j (suc left) s rtc = do
    (t, rtc') ← new_track rtc (video_id client_id (pos i)) (format_uint i)
    let s' = add_quality_track s t (pos j) (video_id client_id (pos i))
    register_qualities client_id i (j + 1) left (if j == 0 then add_track_local s' t else s') rtc'

  -- `for i := 0; i < numberOfTiles; i++`
  unfoldable pub register_tiles : ℤ → ℕ → ℕ → ℕ → Sfu → Rtc → Option (Sfu × Rtc)
  register_tiles client_id qualities i zero s rtc = some (s, rtc)
  register_tiles client_id qualities i (suc left) s rtc = do
    (s', rtc') ← register_qualities client_id i 0 qualities s rtc
    register_tiles client_id qualities (i + 1) left s' rtc'

  -- The tracks of a new client, and its entry in the list. `connection` and `id` are the new ones.
  unfoldable pub register_client : Sfu → Rtc → ℕ → ℕ → Query → Option (Sfu × Rtc)
  register_client s rtc connection id q = do
    (t, rtc') ← new_track rtc (audio_id q.client_id) (codes "99")
    (s', rtc'') ←
        register_tiles q.client_id (rounds q.number_of_qualities) 0 (rounds q.number_of_tiles)
          (add_track_local s t) rtc'
    let p : Peer = record {
      connection = connection;
      id = id;
      track_rtp_senders = [];
      quality_decisions = [];
      pending_candidates = [];
      client_id = q.client_id;
      number_of_tiles = q.number_of_tiles;
    }
    some (record s' { peer_connections = s'.peer_connections ++ p ∷ [] }, rtc'')

  -- `for tileID, sQuality := range x[1:]`: a text that is no number is passed over.
  unfoldable pub decide_tiles : Sfu → Bytes → ℕ → List Bytes → Peer → Rtc → Peer × Rtc
  decide_tiles s client tile [] p rtc = (p, rtc)
  decide_tiles s client tile (text ∷ texts) p rtc =
      let track_id = codes "video_" ++ client ++ b'_' ∷ format_uint tile in
      let now : Peer × Rtc = elim (atoi text) [
        | some quality ↦ set_track_quality lib s rtc p track_id quality
        | none ↦ (p, rtc)
      ] in
      decide_tiles s client (tile + 1) texts now.0 now.1

  -- One entry, `client,q0,q1,…`.
  unfoldable pub decide_client : Sfu → List Bytes → Peer → Rtc → Peer × Rtc
  decide_client s [] p rtc = (p, rtc)
  decide_client s (client ∷ texts) p rtc = decide_tiles s client 0 texts p rtc

  unfoldable pub decide_clients : Sfu → List Bytes → Peer → Rtc → Peer × Rtc
  decide_clients s [] p rtc = (p, rtc)
  decide_clients s (entry ∷ entries) p rtc =
      let now = decide_client s (split entry b',') p rtc in decide_clients s entries now.0 now.1

  -- The message of type 7.
  unfoldable pub quality_decisions : Sfu → Bytes → Peer → Rtc → Peer × Rtc
  quality_decisions s message p rtc = decide_clients s (split message b';') p rtc

  add_candidates : ℕ → List Bytes → Rtc → Option Rtc
  add_candidates connection [] rtc = some rtc
  add_candidates connection (c ∷ cs) rtc =
      add_candidate rtc connection c >>= λ rtc'. add_candidates connection cs rtc'

  -- The message of type 3. The pending candidates are kept.
  pub answer : Bytes → Peer → Rtc → Option (Peer × Rtc)
  answer message p rtc = do
    description ← unmarshal message
    rtc' ← set_remote_description rtc p.connection description
    rtc'' ← add_candidates p.connection p.pending_candidates rtc'
    some (p, rtc'')

  -- The message of type 4.
  pub candidate : Bytes → Peer → Rtc → Option (Peer × Rtc)
  candidate message p rtc =
      if has_remote_description rtc p.connection
      then (add_candidate rtc p.connection message >>= λ rtc'. some (p, rtc'))
      else some (record p { pending_candidates = p.pending_candidates ++ message ∷ [] }, rtc)

  -- One round of the handler's loop.
  unfoldable pub handle_message : Sfu → Bytes → Peer → Rtc → Option (Peer × Rtc)
  handle_message s raw p rtc = do
    let v = split raw b'@'
    kind ← get_elem? v 1
    message ← get_elem? v 2
    let message_type = parse_uint kind
    if message_type == 3
        then answer message p rtc
        else if message_type == 4
        then candidate message p rtc
        else if message_type == 7
        then some (quality_decisions s message p rtc)
        else some (p, rtc)

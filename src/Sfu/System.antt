-- ===== src/Sfu/System.antt =====
-- sfu/main.go as a whole: the clients that join, the callbacks for their tracks and their messages,
-- from the unit's start on. A step is what one goroutine does without giving a lock up, so handlers
-- overlap in every way that the locks allow. A handler that panics ends the program, so it is no step.
-- `addQualityTrack` takes a lock of its own: while another goroutine renegotiates or registers a
-- client, it runs here before or after that.
pub mod Invariants
pub mod Ids
mod Examples
use web_rtcsfu.Base.{ℕ, ◌+◌, ◌≡◌, Option, some, List, [], ◌∷◌, ◌++◌}
use web_rtcsfu.Base.Bytes.{Bytes}
use web_rtcsfu.Base.Text.{ℤ}
use web_rtcsfu.Sfu.Types.{TrackLocal, Peer, Sfu, Library}
use web_rtcsfu.Sfu.Tracks.{set_track_quality}
use web_rtcsfu.Sfu.Signal.{Sync, signal_peer_connections}
use web_rtcsfu.Sfu.Socket.{Query, register_client, handle_message}
use web_rtcsfu.Sfu.OnTrack.{RemoteName, read_name}
use web_rtcsfu.Sfu.OnTrack.Regions.{Region, start_regions, end_regions, local_track, run_region}

-- The global variables before the first client.
pub no_clients : Sfu
no_clients = record { track_locals = []; track_qualities = []; peer_connections = [] }

-- The callback for a track, with the regions that it has still to run before its loop over the
-- packets, or after it.
pub data Goroutine : Type 0 where
  starting : RemoteName → TrackLocal → List Region → Goroutine
  ending : RemoteName → TrackLocal → List Region → Goroutine

-- The same goroutine with other regions left.
unfoldable pub with_left : Goroutine → List Region → Goroutine
with_left (starting name t _) left = starting name t left
with_left (ending name t _) left = ending name t left

abbrev pub left_of : Goroutine → List Region
left_of (starting name t left) = left
left_of (ending name t left) = left

module _ (lib : Library) where
  open lib use {Rtc}

  -- `pc_id` is the number of the next connection (an int that is not taken to overflow), and
  -- `registering` are the numbers whose handlers have not put a client into the list so far.
  pub record State : Type 0 where
    pub sfu : Sfu
    pub rtc : Rtc
    pub callbacks : List Goroutine
    pub pc_id : ℕ
    pub registering : List ℕ

  -- `currentPCID := pcID; pcID++`
  pub take_number : State → State
  take_number x = record x { pc_id = x.pc_id + 1; registering = x.pc_id ∷ x.registering }

  -- A websocket handler takes its number, and returns early or lets the client join; a track of a
  -- client starts or ends, and the callback runs its next region; a renegotiation runs by itself,
  -- as it does when a client joins, when its connection is closed, and 50 ms after an attempt that
  -- asks for another; a client that is in the list sends a message, or has one decision of a
  -- message handled. Whatever else happens is the library's: connections come up and are closed,
  -- and clients that are no longer in the list send messages.
  pub data Step : State → State → Type 0 where
    arrives : (x : State) → Step x (take_number x)
    returns :
        (x : State) (id : ℕ) (before after : List ℕ)
        → x.registering ≡ before ++ id ∷ after
        → Step x (record x { registering = before ++ after })
    joins :
        (x : State) (connection id : ℕ) (before after : List ℕ) (q : Query) (now : Sfu × Rtc)
        → x.registering ≡ before ++ id ∷ after
        → register_client lib x.sfu x.rtc connection id q ≡ some now
        → Step x (record x { sfu = now.0; rtc = now.1; registering = before ++ after })
    starts :
        (x : State) (id stream_id : Bytes) (name : RemoteName) (made : TrackLocal × Rtc)
        → read_name id ≡ some name
        → local_track lib name x.rtc id stream_id ≡ some made
        → Step x (record x {
          rtc = made.1;
          callbacks = starting name (made.0) (start_regions name (made.0)) ∷ x.callbacks;
        })
    ends :
        (x : State) (name : RemoteName) (t : TrackLocal) (before after : List Goroutine)
        → x.callbacks ≡ before ++ starting name t [] ∷ after
        → Step x (record x { callbacks = before ++ ending name t (end_regions name t) ∷ after })
    works :
        (x : State) (g : Goroutine) (region : Region) (rest : List Region)
        (before after : List Goroutine) (now : Sfu × Rtc)
        → x.callbacks ≡ before ++ g ∷ after
        → left_of g ≡ region ∷ rest
        → run_region lib region x.sfu x.rtc ≡ some now
        → Step x
            (record x { sfu = now.0; rtc = now.1; callbacks = before ++ with_left g rest ∷ after })
    renegotiates :
        (x : State) (r : Sync lib)
        → signal_peer_connections lib x.sfu x.rtc ≡ some r
        → Step x (record x { sfu = record x.sfu { peer_connections = r.peers }; rtc = r.rtc })
    hears :
        (x : State) (raw : Bytes) (before after : List Peer) (p : Peer) (now : Peer × Rtc)
        → x.sfu.peer_connections ≡ before ++ p ∷ after
        → handle_message lib x.sfu raw p x.rtc ≡ some now
        → Step x (record x {
          sfu = record x.sfu { peer_connections = before ++ now.0 ∷ after };
          rtc = now.1;
        })
    decides :
        (x : State) (track_id : Bytes) (quality : ℤ) (before after : List Peer) (p : Peer)
        → x.sfu.peer_connections ≡ before ++ p ∷ after
        → Step x (record x {
          sfu = record x.sfu {
            peer_connections =
                before ++ (set_track_quality lib x.sfu x.rtc p track_id quality).0 ∷ after;
          };
          rtc = (set_track_quality lib x.sfu x.rtc p track_id quality).1;
        })
    elsewhere : (x : State) (rtc : Rtc) → Step x (record x { rtc = rtc })

  pub data Reach : State → Type 0 where
    start :
        (rtc : Rtc)
        → Reach
            (record { sfu = no_clients; rtc = rtc; callbacks = []; pc_id = 0; registering = [] })
    next : (x y : State) → Reach x → Step x y → Reach y

-- ===== src/Sfu/System/Invariants.antt =====
-- What stays true of the unit whatever its clients do, and what follows for renegotiation.
use web_rtcsfu.Base.{
  ℕ, ◌≡◌, refl, sym, ap, ◌∙◌, some, List, [], ◌∷◌, ◌++◌, subst, All, All-append, bytes_eq, ◌<◌,
}
use web_rtcsfu.Base.Map.{lookup}
use web_rtcsfu.Sfu.Types.{Peer, Sfu, Library}
use web_rtcsfu.Sfu.Signal.{Sync, attempts}
use web_rtcsfu.Sfu.Signal.Loopback.{IsOwn-same}
use web_rtcsfu.Sfu.Signal.Turns.{NoLoopback, signal-NoLoopback}
use web_rtcsfu.Sfu.Signal.Healthy.{IsHealthy, IsReadable}
use web_rtcsfu.Sfu.Signal.Settles.{Settled, attempts-Settled}
use web_rtcsfu.Sfu.Signal.Closing.{closed_count}
use web_rtcsfu.Sfu.Socket.Register.{NamingLaw, register_client-Published}
use web_rtcsfu.Sfu.Socket.{Query, register_client}
use web_rtcsfu.Sfu.Socket.Entering.{register_client-IsPublished, register_client-qualities}
use web_rtcsfu.Sfu.Socket.Messages.{
  SameSenders, handle_message-SameSenders, set_track_quality-SameSenders,
}
use web_rtcsfu.Sfu.OnTrack.Keeping.{Sound}
use web_rtcsfu.Sfu.OnTrack.Regions.{Region, end_regions, run_region}
use web_rtcsfu.Sfu.OnTrack.Regions.Ready.{
  Ready, Ready-Keeps, Keeps, start_regions-Ready, end_regions-Ready, run_region-Progress,
}
use web_rtcsfu.Sfu.Tracks.{set_track_quality}
use web_rtcsfu.Sfu.System.{
  no_clients, Goroutine, starting, ending, with_left, left_of, State, take_number, Step, arrives,
  returns, joins, starts, ends, works, renegotiates, hears, decides, elsewhere, Reach, start, next,
}

SameSenders-NoLoopback : (p q : Peer) → SameSenders p q → NoLoopback p → NoLoopback q
SameSenders-NoLoopback p q same h id own =
    ap (lookup id) same.senders ∙ h id (IsOwn-same q p id (sym same.client) (sym same.tiles) own)

-- A client without senders.
silent-NoLoopback : (p : Peer) → p.track_rtp_senders ≡ [] → NoLoopback p
unfolding lookup
silent-NoLoopback p e id own = rw e refl

-- One entry of a list in the place of another.
All-replaced :
    {A : Type 0} (P : A → Type 0) (before after : List A) (p q : A)
    → (P p → P q)
    → All P (before ++ p ∷ after)
    → All P (before ++ q ∷ after)
All-replaced P [] after p q f (h, hs) = (f h, hs)
All-replaced P (b ∷ before) after p q f (h, hs) = (h, All-replaced P before after p q f hs)

All-at :
    {A : Type 0} (P : A → Type 0) (before after : List A) (p : A)
    → All P (before ++ p ∷ after)
    → P p
All-at P [] after p (h, hs) = h
All-at P (b ∷ before) after p (h, hs) = All-at P before after p hs

-- Every callback that runs can go on.
abbrev AllReady : Sfu → List Goroutine → Type 0
AllReady s = All (λ g. Ready s (left_of g))

AllReady-Keeps : (s s' : Sfu) (gs : List Goroutine) → Keeps s s' → AllReady s gs → AllReady s' gs
AllReady-Keeps s s' [] h tt = tt
AllReady-Keeps s s' (g ∷ gs) h (ready, others) =
    (Ready-Keeps s s' (left_of g) h ready, AllReady-Keeps s s' gs h others)

left_of-with_left : (g : Goroutine) (left : List Region) → left_of (with_left g left) ≡ left
unfolding with_left
left_of-with_left (starting name t _) left = refl
left_of-with_left (ending name t _) left = refl

module _ (lib : Library) (naming : NamingLaw lib) where
  record Safe (x : State lib) : Type 0 where
    pub sound : Sound x.sfu
    pub ready : AllReady x.sfu x.callbacks

  -- The unit with other peers, each without a sender for a track of its own.
  Safe-peers :
      (x : State lib) (peers : List Peer) (rtc : lib.Rtc)
      → Safe x
      → All NoLoopback peers
      → Safe (record x { sfu = record x.sfu { peer_connections = peers }; rtc = rtc })
  Safe-peers x peers rtc h quiet = record {
    sound = record { published = h.sound.published; no_loopback = quiet };
    ready =
        AllReady-Keeps x.sfu (record x.sfu { peer_connections = peers }) x.callbacks (λ id q k. k)
          h.ready;
  }

  -- A peer of the list in its state after a message, or a part of one.
  Safe-peer :
      (x : State lib) (before after : List Peer) (p q : Peer) (rtc : lib.Rtc)
      → x.sfu.peer_connections ≡ before ++ p ∷ after
      → SameSenders p q
      → Safe x
      → Safe (record x { sfu = record x.sfu { peer_connections = before ++ q ∷ after }; rtc = rtc })
  Safe-peer x before after p q rtc e same h = Safe-peers x (before ++ q ∷ after) rtc h (
      All-replaced NoLoopback before after p q (SameSenders-NoLoopback p q same)
        (rw (← e) h.sound.no_loopback))

  works-Safe :
      (x : State lib) (g : Goroutine) (region : Region) (rest : List Region)
      (before after : List Goroutine) (now : Sfu × lib.Rtc)
      → x.callbacks ≡ before ++ g ∷ after
      → left_of g ≡ region ∷ rest
      → run_region lib region x.sfu x.rtc ≡ some now
      → Safe x
      → Safe (record x { sfu = now.0; rtc = now.1; callbacks = before ++ with_left g rest ∷ after })
  works-Safe x g region rest before after now here first run h =
      let ready : AllReady x.sfu (before ++ g ∷ after) = rw (← here) h.ready in
      let mine : Ready x.sfu (region ∷ rest) =
        subst (λ l. Ready x.sfu l) first
          (All-at (λ o. Ready x.sfu (left_of o)) before after g ready) in
      let step = run_region-Progress lib region rest x.sfu x.rtc now run h.sound mine in
      record {
        sound = step.sound;
        ready =
            All-replaced (λ o. Ready now.0 (left_of o)) before after g (with_left g rest)
              (λ old. rw (left_of-with_left g rest) step.ready)
              (AllReady-Keeps x.sfu now.0 (before ++ g ∷ after) step.keeps ready);
      }

  joins-Safe :
      (x : State lib) (connection id : ℕ) (q : Query) (now : Sfu × lib.Rtc)
      → register_client lib x.sfu x.rtc connection id q ≡ some now
      → Safe x
      → Safe (record x { sfu = now.0; rtc = now.1 })
  joins-Safe x connection id q now run h =
      let (_, _, _, (p, peers, _, silent, _)) =
        register_client-Published lib naming q.client_id x.sfu x.rtc connection id q.number_of_tiles
          q.number_of_qualities now.0 now.1 run in
      record {
        sound = record {
          published =
              register_client-IsPublished lib naming x.sfu x.rtc connection id q now.0 now.1 run
                h.sound.published;
          no_loopback = rw peers (
              All-append NoLoopback x.sfu.peer_connections (p ∷ []) h.sound.no_loopback
                (silent-NoLoopback p silent, tt));
        };
        ready =
            AllReady-Keeps x.sfu now.0 x.callbacks
              (register_client-qualities lib naming x.sfu x.rtc connection id q now.0 now.1 run)
              h.ready;
      }

  Step-Safe : (x y : State lib) → Step lib x y → Safe x → Safe y
  unfolding take_number
  Step-Safe _ _ (arrives x) h = record { sound = h.sound; ready = h.ready }
  Step-Safe _ _ (returns x id before after here) h = record { sound = h.sound; ready = h.ready }
  Step-Safe _ _ (joins x connection id before after q now here run) h =
      let joined = joins-Safe x connection id q now run h in
      record { sound = joined.sound; ready = joined.ready }
  Step-Safe _ _ (starts x id stream_id name made read fresh) h = record {
    sound = h.sound;
    ready = (start_regions-Ready lib naming name x.sfu x.rtc id stream_id made read fresh, h.ready);
  }
  Step-Safe _ _ (ends x name t before after here) h = record {
    sound = h.sound;
    ready =
        All-replaced (λ o. Ready x.sfu (left_of o)) before after (starting name t [])
          (ending name t (end_regions name t)) (λ old. end_regions-Ready name t x.sfu)
          (rw (← here) h.ready);
  }
  Step-Safe _ _ (works x g region rest before after now here first run) h =
      works-Safe x g region rest before after now here first run h
  Step-Safe _ _ (renegotiates x r run) h =
      Safe-peers x r.peers r.rtc h (signal-NoLoopback lib x.sfu x.rtc r h.sound.no_loopback run)
  Step-Safe _ _ (hears x raw before after p now e run) h =
      Safe-peer x before after p now.0 now.1 e
        (handle_message-SameSenders lib x.sfu raw p x.rtc now run) h
  Step-Safe _ _ (decides x track_id quality before after p e) h =
      let now = set_track_quality lib x.sfu x.rtc p track_id quality in
      Safe-peer x before after p now.0 now.1 e
        (set_track_quality-SameSenders lib x.sfu x.rtc p track_id quality) h
  Step-Safe _ _ (elsewhere x rtc) h = record { sound = h.sound; ready = h.ready }

  Reach-Safe : (x : State lib) → Reach lib x → Safe x
  unfolding no_clients
  Reach-Safe _ (start rtc) = record {
    sound = record {
      published = λ id here. absurd (here (unfold lookup in refl));
      no_loopback = tt;
    };
    ready = tt;
  }
  Reach-Safe _ (next x y reach step) = Step-Safe x y step (Reach-Safe x reach)

  -- Let a new track have the ID that it is asked for. Whatever clients join, tracks start and end,
  -- renegotiations run and messages come from the unit's start on, however the callbacks for
  -- tracks overlap between the regions that they run under the locks, none of which panics, and
  -- whatever else the library does: every ID of `trackLocals` that is not an audio track's has a
  -- track at quality 0 in `trackQualities`, and no peer of the list has a sender for a track of
  -- its own.
  pub Reach-Sound : (x : State lib) → Reach lib x → Sound x.sfu
  Reach-Sound x reach = (Reach-Safe x reach).sound

  -- Let a new track have the ID that it is asked for. On a connection that is not closed, let
  -- `RemoveTrack`, `AddTrack` of a track, `CreateOffer`, `SetLocalDescription` and `json.Marshal`
  -- go through, without closing a connection or changing which tracks the connections receive. In
  -- every state that the unit can reach in which the IDs of received tracks can be read: if
  -- nothing else happens, then after at most as many calls of `signalPeerConnections` as there are
  -- closed connections, and one more, no other call is due and none has panicked. The peers that
  -- are left are those whose connections were not closed, in their order, and the last call sent
  -- each of them one offer, in this order, and nobody else.
  pub Reach-Settled :
      (healthy : IsHealthy lib) (x : State lib) (n : ℕ)
      → Reach lib x
      → IsReadable lib x.rtc
      → closed_count lib x.rtc x.sfu.peer_connections < n
      → (r : Sync lib) × (attempts lib n x.sfu x.rtc ≡ some r)
        × Settled lib x.rtc x.sfu.peer_connections r
  Reach-Settled healthy x n reach readable enough =
      attempts-Settled lib healthy n x.sfu x.rtc (Reach-Sound x reach).published readable enough

-- ===== src/Sfu/System/Ids.antt =====
-- No two connections of the list have one number.
use web_rtcsfu.Base.{
  ℕ, ◌+◌, ◌≤◌, ◌≡◌, refl, ap, some, List, [], ◌∷◌, ◌++◌, ltb, nat_beq, if◌then◌else◌, arith,
  >>=-eq_some,
}
use web_rtcsfu.Sfu.Types.{Peer, Sfu, Library}
use web_rtcsfu.Sfu.Tracks.{
  add_track_local, remove_track_local, add_quality_track, set_track_quality,
}
use web_rtcsfu.Sfu.Signal.{signal_peer_connections}
use web_rtcsfu.Sfu.Signal.Ids.{id_count, id_count-append, id_count-replaced, signal-id_count}
use web_rtcsfu.Sfu.Socket.Register.{NamingLaw}
use web_rtcsfu.Sfu.Socket.Entering.{register_client-entry}
use web_rtcsfu.Sfu.Socket.Messages.{handle_message-SameSenders, set_track_quality-SameSenders}
use web_rtcsfu.Sfu.OnTrack.Regions.{
  Region, put_quality, put_local, drop_local, resync, update_audio, update_video, run_region,
}
use web_rtcsfu.Sfu.System.{
  no_clients, State, take_number, Step, arrives, returns, joins, starts, ends, works, renegotiates,
  hears, decides, elsewhere, Reach, start, next,
}

-- How often a number is in a list.
abbrev count : ℕ → List ℕ → ℕ
count n [] = 0
count n (x ∷ xs) = (if nat_beq x n then 1 else 0) + count n xs

count-middle :
    (n x : ℕ) (before after : List ℕ)
    → count n (before ++ x ∷ after) ≡ (if nat_beq x n then 1 else 0) + count n (before ++ after)
count-middle n x [] after = refl
count-middle n x (b ∷ before) after = omega (arith, count-middle n x before after)

module _ (lib : Library) (naming : NamingLaw lib) (n : ℕ) where
  -- The connections and the handlers that have the number `n`: at most one, and none before it is
  -- taken.
  abbrev IsSingle : ℕ → List Peer → List ℕ → Type 0
  IsSingle pc_id ps registering =
      id_count n ps + count n registering ≤ (if ltb n pc_id then 1 else 0)

  abbrev Single : State lib → Type 0
  Single x = IsSingle x.pc_id x.sfu.peer_connections x.registering

  run_region-id_count :
      (region : Region) (s : Sfu) (rtc : lib.Rtc) (now : Sfu × lib.Rtc)
      → run_region lib region s rtc ≡ some now
      → id_count n now.0.peer_connections ≤ id_count n s.peer_connections
  unfolding run_region add_quality_track add_track_local remove_track_local
  run_region-id_count (put_quality t quality new_id) s rtc now e =
      let same : s.peer_connections ≡ now.0.peer_connections = cc e in rw same (omega arith)
  run_region-id_count (put_local t) s rtc now e =
      let same : s.peer_connections ≡ now.0.peer_connections = cc e in rw same (omega arith)
  run_region-id_count (drop_local t) s rtc now e =
      let same : s.peer_connections ≡ now.0.peer_connections = cc e in rw same (omega arith)
  run_region-id_count resync s rtc now e =
      let (sync, run, last) = >>=-eq_some (signal_peer_connections lib s rtc) _ now e in
      let same : sync.peers ≡ now.0.peer_connections = cc last in
      rw (← same) (signal-id_count lib n s rtc sync run)
  run_region-id_count (update_audio t) s rtc now e =
      let same : s.peer_connections ≡ now.0.peer_connections = cc e in rw same (omega arith)
  run_region-id_count (update_video t quality) s rtc now e =
      let same : s.peer_connections ≡ now.0.peer_connections = cc e in rw same (omega arith)

  Step-Single : (x y : State lib) → Step lib x y → Single x → Single y
  unfolding take_number
  Step-Single _ _ (arrives x) h = grind arith
  Step-Single _ _ (returns x id before after here) h =
      omega (arith, ap (count n) here, count-middle n id before after)
  Step-Single _ _ (joins x connection id before after q now here run) h =
      let (p, name, peers) =
        register_client-entry lib naming x.sfu x.rtc connection id q (now.0) (now.1) run in
      omega (
        arith,
        ap (count n) here,
        count-middle n id before after,
        ap (id_count n) peers,
        id_count-append n x.sfu.peer_connections (p ∷ []),
        ap {B = ℕ} (λ (i : ℕ). if nat_beq i n then 1 else 0) name,
      )
  Step-Single _ _ (starts x id stream_id name made read fresh) h = h
  Step-Single _ _ (ends x name t before after here) h = h
  Step-Single _ _ (works x g region rest before after now here first run) h =
      omega (arith, run_region-id_count region x.sfu x.rtc now run)
  Step-Single _ _ (renegotiates x r run) h = omega (arith, signal-id_count lib n x.sfu x.rtc r run)
  Step-Single _ _ (hears x raw before after p now e run) h = omega (
    arith,
    ap (id_count n) e,
    id_count-replaced n before after p (now.0)
        (handle_message-SameSenders lib x.sfu raw p x.rtc now run).id,
  )
  Step-Single _ _ (decides x track_id quality before after p e) h = omega (
    arith,
    ap (id_count n) e,
    id_count-replaced n before after p (set_track_quality lib x.sfu x.rtc p track_id quality).0
        (set_track_quality-SameSenders lib x.sfu x.rtc p track_id quality).id,
  )
  Step-Single _ _ (elsewhere x rtc) h = h

  Reach-Single : (x : State lib) → Reach lib x → Single x
  unfolding no_clients
  Reach-Single _ (start rtc) = omega arith
  Reach-Single _ (next x y reach step) = Step-Single x y step (Reach-Single x reach)

-- Let a new track have the ID that it is asked for. In every state that the unit can reach, each
-- number is that of at most one connection of the list, and only of one if it is below `pcID`: a
-- number that has not been taken is in no entry.
pub Reach-single :
    (lib : Library) (naming : NamingLaw lib) (x : State lib)
    → Reach lib x
    → (n : ℕ) → id_count n x.sfu.peer_connections ≤ (if ltb n x.pc_id then 1 else 0)
Reach-single lib naming x reach n = omega (arith, Reach-Single lib naming n x reach)

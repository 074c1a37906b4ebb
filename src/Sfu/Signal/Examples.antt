-- ===== src/Sfu/Signal/Examples.antt =====
-- The theorems on `signalPeerConnections` in a room of two clients: one watches a tile of a third
-- client, the other has just come and is sent the tile for the first time.
use web_rtcsfu.Base.{
  inl, inr, ◌==◌, ◌≡◌, refl, some, [], ◌∷◌, bytes_eq, nat_eq, if◌then◌else◌, List, false, All,
}
use web_rtcsfu.Base.{dec_lt}
use web_rtcsfu.Base.Bytes.{Bytes, codes}
use web_rtcsfu.Base.Map.{lookup, insert}
use web_rtcsfu.Base.Text.{pos, split, atoi, parse_uint, format_uint, format_int}
use web_rtcsfu.Sfu.Types.{Peer, ℤ_eq, audio_id, video_id}
use web_rtcsfu.Sfu.Tracks.{add_new_track_for_peer, is_audio, add_video}
use web_rtcsfu.Sfu.Signal.{
  Sync, offered, received_id, received_ids, own_ids, sync_senders, add_missing, make_offer,
  sync_tracks, sync_peer, after_turn, sync_peers, signal_peer_connections, offer_text,
}
use web_rtcsfu.Sfu.Signal.Missing.{Completes}
use web_rtcsfu.Sfu.Signal.Loopback.{sync_tracks-Completes}
use web_rtcsfu.Sfu.Signal.Turns.{NoLoopback, Serves, signal-NoLoopback, signal-Serves}
use web_rtcsfu.Sfu.Fake.{FakeRtc, fake, fake_replace, low, viewer, newcomer, room, media}

abbrev newcomer_after : Peer
newcomer_after = record newcomer {
  track_rtp_senders = (codes "video_2_0", 6) ∷ [];
  quality_decisions = (codes "video_2_0", pos 0) ∷ [];
}

abbrev media_after : FakeRtc
media_after = record (fake_replace media 6 (some low)) {
  next = 7;
  senders = λ d. if 3 == d then 6 ∷ media.senders d else media.senders d;
}

abbrev after_signal : Sync fake
after_signal = record {
  try_again = false;
  peers = viewer ∷ newcomer_after ∷ [];
  rtc = media_after;
  offers = (1, codes "0@2@") ∷ (3, codes "0@2@") ∷ [];
}

newcomer_added :
    add_missing fake room newcomer media room.track_locals (codes "video_3_0" ∷ [])
    ≡ some (newcomer_after, media_after)
unfolding add_missing add_new_track_for_peer is_audio add_video split lookup insert
newcomer_added = refl

newcomer_turn :
    sync_tracks fake room newcomer media []
    ≡ some (offered newcomer_after media_after (codes "0@2@"))
unfolding sync_tracks received_ids received_id own_ids add_missing add_new_track_for_peer is_audio
    add_video make_offer offer_text split atoi parse_uint format_uint format_int audio_id video_id
    lookup insert dec_lt
newcomer_turn = refl

signal_run : signal_peer_connections fake room media ≡ some after_signal
unfolding signal_peer_connections sync_peers sync_peer sync_senders sync_tracks received_ids
    received_id own_ids add_missing add_new_track_for_peer is_audio add_video make_offer offer_text
    after_turn split atoi parse_uint format_uint format_int audio_id video_id lookup insert dec_lt
signal_run = refl

viewer_alone : NoLoopback viewer
unfolding lookup audio_id video_id format_int format_uint dec_lt
viewer_alone id (inl e) = rw e refl
viewer_alone id (inr (j, h, e)) = rw e refl

newcomer_alone : NoLoopback newcomer
unfolding lookup
newcomer_alone id own = refl

signal-NoLoopback_example : All NoLoopback after_signal.peers
signal-NoLoopback_example =
    signal-NoLoopback fake room media after_signal (viewer_alone, (newcomer_alone, tt)) signal_run

signal-Serves_example : Serves fake room.peer_connections [] after_signal
signal-Serves_example = signal-Serves fake room media after_signal signal_run

sync_tracks-Completes_example :
    (received : List Bytes) × (received_ids (fake.get_receivers media 3) [] ≡ some received)
    × Completes room.track_locals (own_ids newcomer received) newcomer newcomer_after
sync_tracks-Completes_example =
    sync_tracks-Completes fake room newcomer media []
      (offered newcomer_after media_after (codes "0@2@")) newcomer_turn

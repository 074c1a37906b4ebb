-- ===== src/Sfu/OnTrack/Examples.antt =====
-- Client 2 starts its tile's second quality anew, in the room of the tests.
use web_rtcsfu.Base.{
  ◌≡◌, refl, Bool, true, false, some, none, List, [], ◌∷◌, ◌++◌, arith, bytes_eq, nat_eq, dec_lt,
}
use web_rtcsfu.Base.Bytes.{Bytes, codes}
use web_rtcsfu.Base.Map.{lookup, insert}
use web_rtcsfu.Base.Text.{pos, negsuc, split, atoi, format_uint, format_int}
use web_rtcsfu.Peer.Tracks.{video_track_id}
use web_rtcsfu.Sfu.Types.{ℤ_eq, audio_id, video_id}
use web_rtcsfu.Sfu.Tracks.{add_quality_track}
use web_rtcsfu.Sfu.Signal.{received_id}
use web_rtcsfu.Sfu.OnTrack.{
  Started, video_name, read_name, on_track, start_named, start_video, add_first_quality, relay,
}
use web_rtcsfu.Sfu.OnTrack.Names.{video_track_id-understood}
use web_rtcsfu.Sfu.OnTrack.Published.{Announced, on_track-Announced}
use web_rtcsfu.Sfu.Fake.Naming.{fake_names}
use web_rtcsfu.Sfu.Fake.{fake, fake_law, room, media}

video_track_id-understood_example :
    (read_name (video_track_id (negsuc 1) 3 1) ≡ some (video_name (negsuc 1) (pos 3) (pos 1)))
    × (received_id (video_track_id (negsuc 1) 3 1) ≡ some (video_id (negsuc 1) (pos 3)))
video_track_id-understood_example =
    video_track_id-understood (negsuc 1) 3 1 (omega arith) (omega arith) (omega arith)

abbrev nowhere : Started fake
nowhere = record {
  sfu = room;
  rtc = media;
  offers = [];
  track = record { handle = 0; id = []; stream_id = [] };
}

abbrev restarted : Started fake
unfolding on_track start_named start_video add_first_quality add_quality_track insert
restarted = elim (on_track fake room media (video_track_id (pos 2) 0 1) (codes "0")) [
  | some r ↦ r
  | none ↦ nowhere
]

on_track-Announced_example :
    Announced fake fake_names fake_law room (pos 2) (pos 0) (pos 1) restarted
unfolding on_track start_named start_video add_first_quality add_quality_track insert lookup
    read_name split atoi video_track_id format_uint format_int dec_lt audio_id video_id
on_track-Announced_example =
    on_track-Announced fake fake_names fake_law room media (pos 2) 0 1 (codes "0") restarted
      (omega arith) (omega arith) (omega arith) refl

-- A write that keeps what it is given, and fails on an empty packet.
abbrev keep : Bytes → List Bytes → Bool × List Bytes
keep packet w = (elim packet [ [] ↦ false | c ∷ s ↦ true ], w ++ packet ∷ [])

relay_stops :
    relay keep (some (1 ∷ []) ∷ some [] ∷ some (2 ∷ []) ∷ none ∷ []) [] ≡ (1 ∷ []) ∷ [] ∷ []
unfolding relay
relay_stops = refl

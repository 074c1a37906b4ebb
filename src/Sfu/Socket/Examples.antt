-- ===== src/Sfu/Socket/Examples.antt =====
-- The handler of one client in the room of the tests.
use web_rtcsfu.Base.{◌≡◌, refl, some, none, [], ◌∷◌, bytes_eq, nat_eq, dec_lt, arith}
use web_rtcsfu.Base.Bytes.{Bytes, codes}
use web_rtcsfu.Base.Map.{lookup, insert}
use web_rtcsfu.Base.Text.{pos, negsuc, split, atoi, format_uint, format_int}
use web_rtcsfu.Sfu.Types.{Sfu, ℤ_eq, audio_id, video_id}
use web_rtcsfu.Sfu.Tracks.{add_track_local, add_quality_track, set_track_quality, decide, choose}
use web_rtcsfu.Sfu.Socket.{
  read_query, register_qualities, register_tiles, register_client, decide_tiles, decide_client,
  decide_clients, quality_decisions,
}
use web_rtcsfu.Sfu.Socket.Decisions.{quality_decisions-Forwards}
use web_rtcsfu.Sfu.Socket.Texts.{Entry, message_text, decide_all, quality_decisions-text}
use web_rtcsfu.Sfu.Socket.Register.{Published, register_client-Published}
use web_rtcsfu.Sfu.Fake.{FakeRtc, fake, fake_law, high, viewer, room, media}
use web_rtcsfu.Sfu.Fake.Naming.{fake_names}
use web_rtcsfu.Sfu.Fake.Viewer.{viewer-DistinctSenders, viewer-Forwards}

-- A text that is no number gives the default, but for the client's ID.
query_defaults :
    read_query (pos 16) (codes "x") [] (codes "-3")
    ≡ some (record { number_of_tiles = pos 16; number_of_qualities = pos 1; client_id = negsuc 2 })
unfolding read_query atoi
query_defaults = refl

query_refused : read_query (pos 16) [] [] (codes "x") ≡ none
unfolding read_query atoi
query_refused = refl

-- Two entries, the second for tiles that the peer is not sent; the text in the middle is no number.
abbrev decisions : Bytes
decisions = codes "2,1,x,0;3,1"

quality_decisions-Forwards_example :
    fake.sender_track (quality_decisions fake room decisions viewer media).1 5 ≡ some high
unfolding lookup insert quality_decisions decide_clients decide_client decide_tiles split atoi
    format_uint dec_lt set_track_quality decide choose
quality_decisions-Forwards_example =
    quality_decisions-Forwards fake fake_law room decisions viewer media viewer-DistinctSenders
      viewer-Forwards (codes "video_2_0") 5 (pos 1) refl refl

abbrev registered : Sfu × FakeRtc
unfolding register_client register_tiles register_qualities add_track_local add_quality_track insert
    lookup
registered =
    elim (register_client fake room media 9 4
      (record { number_of_tiles = pos 2; number_of_qualities = pos 2; client_id = pos 4 })) [
        | some r ↦ r
        | none ↦ (room, media)
      ]

register_client-Published_example : Published fake fake_names (pos 4) 2 2 room registered.0
unfolding register_client register_tiles register_qualities add_track_local add_quality_track insert
    lookup audio_id video_id format_int format_uint dec_lt
register_client-Published_example =
    register_client-Published fake fake_names (pos 4) room media 9 4 (pos 2) (pos 2) registered.0
      registered.1 refl

-- Two entries: two tiles of client 2, and one of client 3.
abbrev first_entry : Entry
first_entry = record { client = pos 2; qualities = pos 1 ∷ (negsuc 0 ∷ []) }

abbrev second_entry : Entry
second_entry = record { client = pos 3; qualities = pos 1 ∷ [] }

message_written : message_text first_entry (second_entry ∷ []) ≡ codes "2,1,-1;3,1"
unfolding format_int format_uint dec_lt
message_written = refl

quality_decisions-text_example :
    quality_decisions fake room (message_text first_entry (second_entry ∷ [])) viewer media
    ≡ decide_all fake room (first_entry ∷ (second_entry ∷ [])) viewer media
quality_decisions-text_example =
    quality_decisions-text fake room first_entry (second_entry ∷ []) viewer media (omega arith)

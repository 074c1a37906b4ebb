-- ===== src/Peer/Packet/Examples.antt =====
-- Tests of the payloaders on small frames.
use web_rtcsfu.Base.{◌+◌, ◌≡◌, refl, some, [], ◌∷◌, map, replicate, length, arith}
use web_rtcsfu.Base.Bytes.{Bytes, u32}
use web_rtcsfu.Peer.Packet.Payload.{video_fragments, payload_video-fragments}
use web_rtcsfu.Peer.Packet.{
  PointCloudPayloader, AudioPayloader, fragments, video_header, audio_header, payload_video,
  payload_audio, new_point_cloud_payloader, fragment_size, new_audio_payloader,
}
use mathlib.Core.Option
use web_rtcsfu.Base.{dec_lt}

-- Three bytes of audio from client 7 make one fragment of 23 bytes.
one_audio_fragment :
    Option.map (λ r. r.1) (payload_audio 7 new_audio_payloader (1 ∷ 2 ∷ 3 ∷ []))
    ≡ some (
        (7 ∷ 0 ∷ 0 ∷ 0 ∷ 0 ∷ 0 ∷ 0 ∷ 0 ∷ 3 ∷ 0 ∷ 0 ∷ 0 ∷ 0 ∷ 0 ∷ 0 ∷ 0 ∷ 3 ∷ 0 ∷ 0 ∷ 0 ∷ 1 ∷ 2 ∷ 3
          ∷ [])
        ∷ [])
unfolding payload_audio fragments audio_header new_audio_payloader fragment_size dec_lt
one_audio_fragment = refl

-- 2300 bytes of a tile make fragments of 1144, 1144 and 12 bytes behind 28 bytes of header.
three_video_fragments :
    Option.map
      (λ r. map length r.1)
      (payload_video 1 (new_point_cloud_payloader 2 0) (replicate 2300 9))
    ≡ some (1172 ∷ 1172 ∷ 40 ∷ [])
unfolding payload_video fragments video_header new_point_cloud_payloader fragment_size dec_lt
three_video_fragments = refl

abbrev points : Bytes
points = replicate 2300 9

abbrev tile_two : PointCloudPayloader
tile_two = record { frame_counter = 6; tile = 2; quality = 0 }

abbrev sound : Bytes
sound = 1 ∷ 2 ∷ 3 ∷ []

abbrev sound_source : AudioPayloader
sound_source = record { frame_counter = 6 }

payload_video-fragments_example :
    payload_video 1 tile_two points
    ≡ some (record tile_two { frame_counter = u32 (6 + 1) }, video_fragments 1 tile_two points)
payload_video-fragments_example = payload_video-fragments 1 tile_two points (omega arith)

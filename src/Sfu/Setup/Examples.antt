-- ===== src/Sfu/Setup/Examples.antt =====
-- An engine whose connections count their transceivers, and their senders; and ranges of ports.
use web_rtcsfu.Base.{ℕ, ◌+◌, ◌≡◌, refl, some, none, [], arith, false, nat_eq}
use web_rtcsfu.Base.Bytes.{codes}
use web_rtcsfu.Base.Text.{pos, atoi, split, format_int}
use web_rtcsfu.Engine.{CodecKind, audio, video, Engine}
use web_rtcsfu.Peer.Setup.{connect}
use web_rtcsfu.Peer.Setup.Senders.{SendingLaw}
use web_rtcsfu.Peer.Tracks.{video_tracks}
use web_rtcsfu.Sfu.Socket.{Query, read_query}
use web_rtcsfu.Sfu.Socket.Queries.{read_query-numbers}
use web_rtcsfu.Sfu.Setup.{
  settings, set_up, prepare, prepared, receive_only, add_transceivers, mul_int,
}
use web_rtcsfu.Sfu.Setup.Transceivers.{CountingLaw, prepare-connect}

record Counts : Type 0 where
  pub audios : ℕ
  pub videos : ℕ

abbrev one_more : CodecKind → Counts → Counts
one_more audio c = record c { audios = c.audios + 1 }
one_more video c = record c { videos = c.videos + 1 }

abbrev counting_engine : Engine
counting_engine = record {
  Setup = ℕ;
  Connection = Counts;
  empty = 0;
  transport_cc = codes "transport-cc";
  transport_cc_uri = codes "uri";
  register_default_codecs = λ m. some m;
  register_codec = λ c n kind m. some (m + 1);
  register_feedback = λ f kind m. m;
  register_header_extension = λ uri kind m. some m;
  configure_twcc_sender = λ m. some m;
  register_default_interceptors = λ m. some m;
  add_twcc_generator = λ interval m. some m;
  add_track_merger = λ m. m;
  new_peer_connection = λ s servers m. some (record { audios = 0; videos = 0 });
  add_transceiver = λ kind c. some (one_more kind c);
  add_track = λ codec id stream_id c. some (one_more video c);
}

abbrev count_of : CodecKind → Counts → ℕ
count_of audio c = c.audios
count_of video c = c.videos

none_yet : (kind : CodecKind) → count_of kind (record { audios = 0; videos = 0 }) ≡ 0
none_yet audio = refl
none_yet video = refl

abbrev counting : CountingLaw counting_engine
counting = record {
  count = count_of;
  fresh = λ s servers m c e kind.
      let here : record { audios = 0; videos = 0 } ≡ c = cc e in rw (← here) (none_yet kind);
  sound = λ c c' e.
      let here : record c { audios = c.audios + 1 } ≡ c' = cc e in rw (← here) (refl, refl);
  picture = λ c c' e.
      let here : record c { videos = c.videos + 1 } ≡ c' = cc e in rw (← here) (refl, refl);
}

abbrev sending : SendingLaw counting_engine
sending = record {
  senders = λ c. c.videos;
  fresh = λ s servers m c e.
      let here : record { audios = 0; videos = 0 } ≡ c = cc e in rw (← here) refl;
  added = λ codec id stream_id c c' e.
      let here : record c { videos = c.videos + 1 } ≡ c' = cc e in rw (← here) refl;
}

abbrev asked : Query
asked = record { number_of_tiles = pos 2; number_of_qualities = pos 3; client_id = pos 7 }

-- The client's seven tracks, and the unit's seven transceivers.
abbrev seven_sent : Counts
seven_sent = record { audios = 0; videos = 7 }

abbrev seven_received : Counts
seven_received = record { audios = 1; videos = 6 }

asked_read :
    read_query (pos 1) (format_int (pos 2)) (format_int (pos 3)) (format_int (pos 7)) ≡ some asked
asked_read =
    read_query-numbers (pos 1) (pos 2) (pos 3) (pos 7) (omega arith) (omega arith) (omega arith)

joined : connect counting_engine (pos 7) (pos 2) (pos 3) ≡ some seven_sent
unfolding connect video_tracks
joined = refl

prepared_seven : prepare counting_engine (settings []) false asked ≡ prepared seven_received
unfolding prepare set_up receive_only add_transceivers mul_int
prepared_seven = refl

prepare-connect_example :
    (counting.count audio seven_received ≡ 1)
    × (sending.senders seven_sent
        ≡ counting.count audio seven_received + counting.count video seven_received)
prepare-connect_example =
    prepare-connect counting_engine counting_engine sending counting (settings []) false (pos 1)
      (pos 7) 2 3 asked seven_sent seven_received (omega arith) (omega arith) (omega arith)
      (omega arith) asked_read joined prepared_seven

-- Numbers that do not fit 16 bits, and a text that is no range.
large_ports : (settings (codes "70000:-1")).udp_ports ≡ some (4464, 65535)
unfolding settings atoi split
large_ports = refl

no_ports : (settings (codes "1000")).udp_ports ≡ none
unfolding settings atoi split
no_ports = refl

-- ===== src/Sfu/Fake.antt =====
-- A small WebRTC library for the tests: senders are numbered as they are made, every call succeeds,
-- and an offer is an empty text.
pub mod Viewer
pub mod Naming
pub mod Departed
use web_rtcsfu.Base.{
  ℕ, ◌+◌, refl, true, false, Option, none, some, List, [], ◌∷◌, ◌==◌, nat_eq, if◌then◌else◌,
}
use web_rtcsfu.Base.Bytes.{Bytes, codes}
use web_rtcsfu.Base.Text.{pos}
use web_rtcsfu.Sfu.Types.{TrackLocal, Peer, Sfu, Library}
use web_rtcsfu.Sfu.Tracks.Quality.{ReplaceLaw}

-- The next sender, who has which senders, what each forwards, and what each connection receives.
pub record FakeRtc : Type 0 where
  pub next : ℕ
  pub senders : ℕ → List ℕ
  pub forwarded : ℕ → Option TrackLocal
  pub received : ℕ → List (Option Bytes)

abbrev pub fake_replace : FakeRtc → ℕ → Option TrackLocal → FakeRtc
fake_replace rtc sender t = record rtc {
  forwarded = λ x. if sender == x then t else rtc.forwarded x;
}

abbrev pub fake_add : FakeRtc → ℕ → Option TrackLocal → Option (ℕ × FakeRtc)
fake_add rtc c t = some (
  rtc.next,
  record (fake_replace rtc rtc.next t) {
    next = rtc.next + 1;
    senders = λ d. if c == d then rtc.next ∷ rtc.senders d else rtc.senders d;
  },
)

abbrev pub fake : Library
fake = record {
  Rtc = FakeRtc;
  is_closed = λ rtc c. false;
  get_senders = λ rtc c. rtc.senders c;
  sender_track = λ rtc x. rtc.forwarded x;
  get_receivers = λ rtc c. rtc.received c;
  add_track = fake_add;
  remove_track = λ rtc c x. (true, fake_replace rtc x none);
  replace_track = fake_replace;
  create_offer = λ rtc c. some ([], rtc);
  set_local_description = λ rtc c offer. (true, rtc);
  marshal = λ offer. some offer;
  unmarshal = λ text. some text;
  new_track = λ rtc id stream_id. some (
    record { handle = rtc.next; id = id; stream_id = stream_id },
    record rtc { next = rtc.next + 1 },
  );
  has_remote_description = λ rtc c. true;
  set_remote_description = λ rtc c description. some rtc;
  add_candidate = λ rtc c text. some rtc;
}

abbrev pub fake_law : ReplaceLaw fake
fake_law = record { replaced = λ rtc sender t x. refl }

-- Two clients with one tile each: client 1 has been given the tile of client 2 at quality 0.
abbrev pub low : TrackLocal
low = record { handle = 20; id = codes "video_2_0"; stream_id = codes "video" }

abbrev pub high : TrackLocal
high = record { handle = 21; id = codes "video_2_0"; stream_id = codes "video" }

abbrev pub viewer : Peer
viewer = record {
  connection = 1;
  id = 1;
  track_rtp_senders = (codes "video_2_0", 5) ∷ [];
  quality_decisions = (codes "video_2_0", pos 0) ∷ [];
  pending_candidates = [];
  client_id = pos 1;
  number_of_tiles = pos 1;
}

abbrev pub newcomer : Peer
newcomer = record {
  connection = 3;
  id = 3;
  track_rtp_senders = [];
  quality_decisions = [];
  pending_candidates = [];
  client_id = pos 3;
  number_of_tiles = pos 1;
}

abbrev pub room : Sfu
room = record {
  track_locals = (codes "video_2_0", low) ∷ [];
  track_qualities = (codes "video_2_0", (pos 0, low) ∷ (pos 1, high) ∷ []) ∷ [];
  peer_connections = viewer ∷ newcomer ∷ [];
}

abbrev pub media : FakeRtc
media = record {
  next = 6;
  senders = λ c. if c == 1 then 5 ∷ [] else [];
  forwarded = λ x. if x == 5 then some low else none;
  received = λ c. some (codes "video_3_0_1") ∷ none ∷ [];
}

-- ===== src/Peer/Media/Plain.antt =====
-- An RTP library for tests: a packetizer that is its payloader, and packets that are their payload.
use web_rtcsfu.Base.{◌≡◌, refl, ap, Option, some, List, [], ◌∷◌, ◌++◌, map}
use web_rtcsfu.Base.Bytes.{Bytes}
use web_rtcsfu.Peer.Media.{RtpLibrary}
use web_rtcsfu.Peer.Media.Frames.{PacketizerLaw}

abbrev pub plain : {S : Type 0} → (S → Bytes → Option (S × List Bytes)) → RtpLibrary S
plain {S} pay = record {
  Packetizer = S;
  Packet = Bytes;
  Network = List Bytes;
  new_packetizer = λ mtu s rate. s;
  packetize = λ p frame samples. pay p frame;
  payload = λ p. p;
  bind = λ network. some (90000, network);
  write_rtp = λ network p. network ++ p ∷ [];
}

pub map_self : (xs : List Bytes) → map (λ x. x) xs ≡ xs
map_self [] = refl
map_self (x ∷ xs) = ap (λ t. x ∷ t) (map_self xs)

abbrev pub plain_law :
    {S : Type 0} (pay : S → Bytes → Option (S × List Bytes)) → PacketizerLaw (plain pay) pay
plain_law pay = record {
  payloader_of = λ p. p;
  made = λ mtu s rate. refl;
  packetized = λ p frame samples s' fragments h e. (s', fragments, e, refl, map_self fragments);
}

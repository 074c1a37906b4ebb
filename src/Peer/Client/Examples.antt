-- ===== src/Peer/Client/Examples.antt =====
-- A candidate of the SFU that comes before its offer, through a library whose calls all succeed.
use web_rtcsfu.Base.{◌≡◌, refl, Bool, true, false, some, List, [], ◌∷◌, arith, nat_eq}
use web_rtcsfu.Base.Bytes.{Bytes, codes}
use web_rtcsfu.Base.Text.{pos}
use web_rtcsfu.Peer.Signaling.{WebsocketPacket}
use web_rtcsfu.Peer.Client.{
  Connection, Settings, Client, packet, is_considered, handle_offer, handle_candidate,
  handle_message, handle_messages, on_ice_candidate,
}
use web_rtcsfu.Peer.Client.Waiting.{with_waiting}
use web_rtcsfu.Peer.Client.Pending.{Waits, all_replies, handle_messages-Waits}

-- The candidates that were added, and whether there is a remote description.
abbrev simple : Connection
simple = record {
  Rtc = List Bytes × Bool;
  Candidate = Bytes;
  address = λ c. c;
  to_json = λ c. c;
  create_offer = λ rtc. some (codes "o", rtc);
  create_answer = λ rtc. some (codes "a", rtc);
  set_local_description = λ rtc d. some rtc;
  set_remote_description = λ rtc d. some (rtc.0, true);
  has_remote_description = λ rtc. rtc.1;
  add_candidate = λ rtc c. some (c ∷ rtc.0, rtc.1);
  marshal = λ d. some d;
  unmarshal = λ text. some text;
}

abbrev local_settings : Settings
local_settings = record { sfu_address = codes "localhost:8080"; client_id = pos 1 }

abbrev fresh : Client simple
fresh = record {
  state = 0;
  pending_candidates = codes "10.0.0.1" ∷ [];
  pending_candidates_string = [];
  rtc = ([], false);
}

abbrev early : List WebsocketPacket
early =
    record { client_id = 0; message_type = 4; message = codes "candidate" }
    ∷ record { client_id = 0; message_type = 2; message = codes "sdp" }
    ∷ []

abbrev after_offer : Client simple
after_offer = record {
  state = 2;
  pending_candidates = codes "10.0.0.1" ∷ [];
  pending_candidates_string = codes "candidate" ∷ [];
  rtc = ([], true);
}

-- The offer is answered, and neither candidate is passed on.
early_run :
    handle_messages simple local_settings early fresh
    ≡ some (after_offer, packet 3 (codes "a") ∷ [])
unfolding handle_messages handle_message handle_candidate handle_offer is_considered
early_run = refl

own_candidate :
    on_ice_candidate simple local_settings (some (codes "10.0.0.2")) after_offer
    ≡ (after_offer, packet 4 (codes "10.0.0.2") ∷ [])
unfolding on_ice_candidate
own_candidate = refl

-- With one more candidate of either kind in front.
abbrev crowded : Client simple → Client simple
crowded = with_waiting simple local_settings (codes "10.0.0.7" ∷ []) (codes "older" ∷ [])

handle_messages-Waits_example :
    Waits simple local_settings (all_replies early) fresh (after_offer, packet 3 (codes "a") ∷ [])
    × (handle_messages simple local_settings early (crowded fresh)
        ≡ some (crowded after_offer, packet 3 (codes "a") ∷ []))
handle_messages-Waits_example =
    handle_messages-Waits simple local_settings (codes "10.0.0.7" ∷ []) (codes "older" ∷ []) early
      fresh (after_offer, packet 3 (codes "a") ∷ [])
      ((λ e. omega (arith, e)), ((λ e. omega (arith, e)), tt)) early_run

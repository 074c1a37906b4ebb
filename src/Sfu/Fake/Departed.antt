-- ===== src/Sfu/Fake/Departed.antt =====
-- The small library with a connection that is closed.
use web_rtcsfu.Base.{refl, [], ◌==◌, nat_eq}
use web_rtcsfu.Sfu.Types.{Library}
use web_rtcsfu.Sfu.Signal.Healthy.{IsHealthy}
use web_rtcsfu.Sfu.Fake.{fake}

-- Connection 3 is closed.
abbrev pub departed : Library
departed = record fake { is_closed = λ rtc c. c == 3 }

pub departed-IsHealthy : IsHealthy departed
departed-IsHealthy = record {
  removes = λ rtc c sender live. (refl, record { closed = λ n. refl; received = λ n. refl });
  adds = λ rtc c t live. (_, _, refl, record { closed = λ n. refl; received = λ n. refl });
  offers = λ rtc c live. ([], rtc, refl, record { closed = λ n. refl; received = λ n. refl });
  describes = λ rtc c offer live. (refl, record { closed = λ n. refl; received = λ n. refl });
  marshals = λ offer. (offer, refl);
}

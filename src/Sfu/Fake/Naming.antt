-- ===== src/Sfu/Fake/Naming.antt =====
-- The library of the tests gives a track the ID that it is asked for.
use web_rtcsfu.Sfu.Socket.Register.{NamingLaw}
use web_rtcsfu.Sfu.Fake.{fake}

pub fake_names : NamingLaw fake
fake_names = record { named = λ rtc id stream_id t rtc' e. cc }

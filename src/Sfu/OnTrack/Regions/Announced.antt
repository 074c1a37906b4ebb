-- ===== src/Sfu/OnTrack/Regions/Announced.antt =====
-- What the regions of a callback leave behind, run one after another.
use web_rtcsfu.Base.{◌≡◌}
use web_rtcsfu.Base.Bytes.{Bytes}
use web_rtcsfu.Base.Text.{ℤ}
use web_rtcsfu.Sfu.Types.{Sfu, Library}
use web_rtcsfu.Sfu.OnTrack.{Started}
use web_rtcsfu.Sfu.OnTrack.Published.{Announced}
use web_rtcsfu.Sfu.Socket.Register.{NamingLaw}
use web_rtcsfu.Sfu.Tracks.Quality.{ReplaceLaw}

module _ (lib : Library) (naming : NamingLaw lib) (law : ReplaceLaw lib) where
  -- The callback's result, by what is left of it.
  abbrev pub Leaves : Sfu → ℤ → ℤ → ℤ → Sfu × lib.Rtc → Type 0
  Leaves s client_id tile_id quality now =
      (r : Started lib) × ((r.sfu, r.rtc) ≡ now)
      × Announced lib naming law s client_id tile_id quality r

-- ===== src/Sfu/Fake/Viewer.antt =====
-- In the room of the tests, the viewer's sender forwards what was decided.
use web_rtcsfu.Base.{◌≡◌, refl, some, [], ◌∷◌, arith, bytes_eq, nat_eq, ◌∙◌, sym}
use web_rtcsfu.Base.Bytes.{Bytes, codes}
use web_rtcsfu.Base.Map.{lookup}
use web_rtcsfu.Base.Text.{pos}
use web_rtcsfu.Sfu.Types.{ℤ_eq}
use web_rtcsfu.Sfu.Tracks.Quality.{Forwards, DistinctSenders}
use web_rtcsfu.Sfu.Fake.{fake, fake_law, viewer, room, media}

-- A map with one key has that key alone.
lookup-single :
    {V : Type 0} (k id : Bytes) (v w : V)
    → lookup id ((k, v) ∷ []) ≡ some w
    → (k ≡ id) × (some v ≡ some w)
unfolding lookup
lookup-single k id v w e = ground (arith, bytes_eq.beq_iff k id)

pub viewer-DistinctSenders : DistinctSenders fake fake_law viewer
viewer-DistinctSenders id other sender h k =
    sym (lookup-single (codes "video_2_0") id 5 sender h).0
    ∙ (lookup-single (codes "video_2_0") other 5 sender k).0

pub viewer-Forwards : Forwards fake fake_law room media viewer
unfolding lookup
viewer-Forwards id sender q h k =
    let (here, five) = lookup-single (codes "video_2_0") id 5 sender h in
    let (same, zero) = lookup-single (codes "video_2_0") id (pos 0) q k in
    let five' : 5 ≡ sender = cc in let zero' : pos 0 ≡ q = cc in rw (← here, ← five', ← zero') refl

-- ===== src/Sfu/Signal/Healthy.antt =====
-- A library whose calls go through on the connections that are not closed.
use web_rtcsfu.Base.{
  ℕ, ◌≡◌, ◌≢◌, refl, ◌∙◌, Bool, true, false, Option, none, some, List, [], ◌∷◌, bytes_eq, All,
  Option-cases, inl, inr, ◌==◌,
}
use web_rtcsfu.Base.Bytes.{Bytes, codes}
use web_rtcsfu.Base.Text.Laws.{split-until, until}
use web_rtcsfu.Sfu.Types.{TrackLocal, Library}
use web_rtcsfu.Sfu.Tracks.{is_audio}
use web_rtcsfu.Sfu.Signal.{received_id, received_ids}

-- The IDs of the tracks that a connection receives.
abbrev pub track_ids : List (Option Bytes) → List Bytes
track_ids [] = []
track_ids (none ∷ rs) = track_ids rs
track_ids (some id ∷ rs) = id ∷ track_ids rs

pub received_ids-some :
    (rs : List (Option Bytes)) (ids : List Bytes)
    → All (λ id. received_id id ≢ none) (track_ids rs)
    → (out : List Bytes) × (received_ids rs ids ≡ some out)
unfolding received_ids
received_ids-some [] ids h = (ids, refl)
received_ids-some (none ∷ rs) ids h = received_ids-some rs ids h
received_ids-some (some track_id ∷ rs) ids (h, hs) = elim (Option-cases (received_id track_id)) [
  | inl bad ↦ absurd (h bad)
  | inr (id, read) ↦ let (out, e) = received_ids-some rs (id ∷ ids) hs in (out, rw read e)
]

pub is_audio-some : (track_id : Bytes) → (audio : Bool) × (is_audio track_id ≡ some audio)
unfolding is_audio
is_audio-some track_id =
    let (ps, e) = split-until b'_' track_id in (until b'_' track_id == codes "audio", rw e refl)

module _ (lib : Library) where
  -- No connection was closed in between, and what the connections receive is the same.
  pub record Same (rtc rtc' : lib.Rtc) : Type 0 where
    pub closed : (c : ℕ) → lib.is_closed rtc' c ≡ lib.is_closed rtc c
    pub received :
        (c : ℕ) → track_ids (lib.get_receivers rtc' c) ≡ track_ids (lib.get_receivers rtc c)

  pub Same-refl : (rtc : lib.Rtc) → Same rtc rtc
  Same-refl rtc = record { closed = λ c. refl; received = λ c. refl }

  pub Same-trans : (a b c : lib.Rtc) → Same a b → Same b c → Same a c
  Same-trans a b c x y = record {
    closed = λ n. y.closed n ∙ x.closed n;
    received = λ n. y.received n ∙ x.received n;
  }

  -- On a connection that is not closed, the calls of `attemptSync` go through.
  pub record IsHealthy : Type 0 where
    pub removes :
        (rtc : lib.Rtc) (c sender : ℕ)
        → lib.is_closed rtc c ≡ false
        → ((lib.remove_track rtc c sender).0 ≡ true) × Same rtc (lib.remove_track rtc c sender).1
    pub adds :
        (rtc : lib.Rtc) (c : ℕ) (t : TrackLocal)
        → lib.is_closed rtc c ≡ false
        → (sender : ℕ) × (rtc' : lib.Rtc) × (lib.add_track rtc c (some t) ≡ some (sender, rtc'))
          × Same rtc rtc'
    pub offers :
        (rtc : lib.Rtc) (c : ℕ)
        → lib.is_closed rtc c ≡ false
        → (offer : Bytes) × (rtc' : lib.Rtc) × (lib.create_offer rtc c ≡ some (offer, rtc'))
          × Same rtc rtc'
    pub describes :
        (rtc : lib.Rtc) (c : ℕ) (offer : Bytes)
        → lib.is_closed rtc c ≡ false
        → ((lib.set_local_description rtc c offer).0 ≡ true)
          × Same rtc (lib.set_local_description rtc c offer).1
    pub marshals : (offer : Bytes) → (text : Bytes) × (lib.marshal offer ≡ some text)

  -- The IDs of the tracks that connections receive can be read.
  abbrev pub IsReadable : lib.Rtc → Type 0
  IsReadable rtc = (c : ℕ) → All (λ id. received_id id ≢ none) (track_ids (lib.get_receivers rtc c))

  pub Same-IsReadable : (rtc rtc' : lib.Rtc) → Same rtc rtc' → IsReadable rtc → IsReadable rtc'
  Same-IsReadable rtc rtc' same h c = rw (same.received c) (h c)

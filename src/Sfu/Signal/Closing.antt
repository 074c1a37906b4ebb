-- ===== src/Sfu/Signal/Closing.antt =====
-- Which peers of a list have connections that are not closed, and how many are closed.
use web_rtcsfu.Base.{
  ℕ, suc, ◌≡◌, refl, ap, true, List, [], ◌∷◌, ◌++◌, bytes_eq, Bool-cases, inl, inr, if◌then◌else◌,
}
use web_rtcsfu.Sfu.Types.{Peer, Library}
use web_rtcsfu.Sfu.Signal.Turns.{peer_ids}
use web_rtcsfu.Sfu.Signal.Healthy.{Same}

module _ (lib : Library) where
  abbrev pub closed_count : lib.Rtc → List Peer → ℕ
  closed_count rtc [] = 0
  closed_count rtc (p ∷ ps) =
      if lib.is_closed rtc p.connection then suc (closed_count rtc ps) else closed_count rtc ps

  -- The IDs of the peers whose connections are not closed.
  abbrev pub live_ids : lib.Rtc → List Peer → List ℕ
  live_ids rtc [] = []
  live_ids rtc (p ∷ ps) =
      if lib.is_closed rtc p.connection then live_ids rtc ps else p.id ∷ live_ids rtc ps

  -- Neither depends on more than which connections are closed, nor on more of a peer than its names.
  pub record Alike (rtc : lib.Rtc) (ps : List Peer) (rtc' : lib.Rtc) (qs : List Peer) : Type 0 where
    pub count : closed_count rtc' qs ≡ closed_count rtc ps
    pub live : live_ids rtc' qs ≡ live_ids rtc ps

  pub Alike-Same : (rtc rtc' : lib.Rtc) (ps : List Peer) → Same lib rtc rtc' → Alike rtc ps rtc' ps
  Alike-Same rtc rtc' [] same = record { count = refl; live = refl }
  Alike-Same rtc rtc' (p ∷ ps) same =
      let ih = Alike-Same rtc rtc' ps same in
      record {
        count = rw (same.closed p.connection, ih.count);
        live = rw (same.closed p.connection, ih.live);
      }

  -- A peer that had its turn.
  pub Alike-turn :
      (rtc : lib.Rtc) (before : List Peer) (p q : Peer) (ps : List Peer)
      → q.connection ≡ p.connection
      → q.id ≡ p.id
      → Alike rtc (before ++ p ∷ ps) rtc ((before ++ q ∷ []) ++ ps)
  Alike-turn rtc [] p q ps e i = record { count = rw (e); live = rw (e, i) }
  Alike-turn rtc (b ∷ before) p q ps e i =
      let ih = Alike-turn rtc before p q ps e i in
      record { count = rw (ih.count); live = rw (ih.live) }

  pub dropped :
      (rtc : lib.Rtc) (before : List Peer) (p : Peer) (ps : List Peer)
      → lib.is_closed rtc p.connection ≡ true
      → (closed_count rtc (before ++ p ∷ ps) ≡ suc (closed_count rtc (before ++ ps)))
        × (live_ids rtc (before ++ p ∷ ps) ≡ live_ids rtc (before ++ ps))
  dropped rtc [] p ps closed = (rw closed refl, rw closed refl)
  dropped rtc (b ∷ before) p ps closed =
      let (count, live) = dropped rtc before p ps closed in
      elim (Bool-cases (lib.is_closed rtc b.connection)) [
        | inl gone ↦ (rw (gone, count) refl, rw (gone, live) refl)
        | inr here ↦ (rw (here, count) refl, rw (here, live) refl)
      ]

  pub all_live :
      (rtc : lib.Rtc) (ps : List Peer) → closed_count rtc ps ≡ 0 → live_ids rtc ps ≡ peer_ids lib ps
  all_live rtc [] none_closed = refl
  all_live rtc (p ∷ ps) none_closed = elim (Bool-cases (lib.is_closed rtc p.connection)) [
    | inl gone ↦ absurd (cc (rw gone at none_closed))
    | inr here ↦ rw here (ap (λ t. p.id ∷ t) (all_live rtc ps (rw here at none_closed)))
  ]

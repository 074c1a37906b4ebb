-- ===== src/Sfu/Signal/Missing.antt =====
-- What the turns of `attemptSync` do to the senders of a peer.
use web_rtcsfu.Base.{
  ℕ, ◌≡◌, ◌≢◌, refl, ap, subst, true, false, none, some, List, [], ◌∷◌, bytes_eq, Bool-cases,
  Option-cases, inl, inr, ◌⊎◌, ◌==◌, ◌∙◌, sym, beq_refl, beq_ne,
}
use web_rtcsfu.Base.Bytes.{Bytes}
use web_rtcsfu.Base.Map.{
  Map, lookup, remove, lookup-insert, lookup-insert_self, lookup-insert_kept, lookup-cons,
}
use web_rtcsfu.Sfu.Types.{TrackLocal, Peer, Sfu, Library}
use web_rtcsfu.Sfu.Tracks.{add_new_track_for_peer}
use web_rtcsfu.Sfu.Tracks.Adding.{add_new_shape}
use web_rtcsfu.Sfu.Signal.Follows.{
  Follows, Follows-refl, Follows-trans, Follows-weaken, removed-Follows, inserted-Follows,
}
use web_rtcsfu.Sfu.Signal.{contains, sync_senders, add_missing}

contains_ne :
    (a b : Bytes) (ids : List Bytes) → contains a ids ≡ true → contains b ids ≡ false → a ≢ b
contains_ne a b ids h k e = cc (ap (λ x. contains x ids) e)

-- Every ID of the map that is not in the set ends up with a sender, every other ID keeps exactly its
-- entry, and no ID loses its entry.
abbrev pub Completes : Map Bytes TrackLocal → List Bytes → Peer → Peer → Type 0
Completes locals ids p q =
    Follows (λ id. contains id ids ≡ true) p q
    × ((id : Bytes) → lookup id p.track_rtp_senders ≢ none → lookup id q.track_rtp_senders ≢ none)
    × ((id : Bytes)
        → lookup id locals ≢ none
        → contains id ids ≡ false
        → lookup id q.track_rtp_senders ≢ none)
    × ((id : Bytes)
        → (lookup id locals ≡ none) ⊎ (contains id ids ≡ true)
        → lookup id q.track_rtp_senders ≡ lookup id p.track_rtp_senders)

lookup-cons_none :
    (id track_id : Bytes) (t : TrackLocal) (locals : Map Bytes TrackLocal)
    → lookup id ((track_id, t) ∷ locals) ≡ none
    → (lookup id locals ≡ none) × (track_id ≢ id)
unfolding lookup
lookup-cons_none id track_id t locals h = elim (Bool-cases (track_id == id)) [
  | inl same ↦ absurd (cc (rw same at h))
  | inr other ↦ (rw other at h, λ e. absurd (cc (other, ap (λ x. x == id) e, beq_refl id)))
]

module _ (lib : Library) where
  -- Removing senders adds none.
  pub sync_senders-Follows :
      (locals : Map Bytes TrackLocal) (p : Peer) (rtc : lib.Rtc) (senders : List ℕ)
      (ids : List Bytes)
      → Follows (λ id. Unit {0}) p (sync_senders lib locals p rtc senders ids).1
  unfolding sync_senders
  sync_senders-Follows locals p rtc [] ids = Follows-refl _ p
  sync_senders-Follows locals p rtc (sender ∷ senders) ids =
      elim (Option-cases (lib.sender_track rtc sender)) [
        | inl e ↦ rw (e, sync_senders) (sync_senders-Follows locals p rtc senders ids)
        | inr (t, e) ↦ elim (Option-cases (lookup t.id locals)) [
          | inl gone ↦
              let p' : Peer = record p { track_rtp_senders = remove t.id p.track_rtp_senders } in
              let removed = lib.remove_track rtc p.connection sender in
              elim (Bool-cases removed.0) [
                | inl ok ↦
                    rw (e, gone, ok, sync_senders)
                      (Follows-trans _ p p' _ (removed-Follows p t.id)
                        (sync_senders-Follows locals p' removed.1 senders (t.id ∷ ids)))
                | inr failed ↦ rw (e, gone, failed, sync_senders) (removed-Follows p t.id)
              ]
          | inr (l, here) ↦
              rw (e, here, sync_senders) (sync_senders-Follows locals p rtc senders (t.id ∷ ids))
        ]
      ]

  add_new-Follows :
      (s : Sfu) (rtc : lib.Rtc) (p q : Peer) (rtc' : lib.Rtc) (track_id : Bytes)
      → add_new_track_for_peer lib s rtc p track_id ≡ some (q, rtc')
      → Follows (λ id. id ≢ track_id) p q
        × (lookup track_id q.track_rtp_senders ≢ none)
        × ((id : Bytes)
            → lookup id p.track_rtp_senders ≢ none
            → lookup id q.track_rtp_senders ≢ none)
        × ((id : Bytes)
            → track_id ≢ id
            → lookup id q.track_rtp_senders ≡ lookup id p.track_rtp_senders)
  add_new-Follows s rtc p q rtc' track_id e =
      let (sender, decisions, shape) = add_new_shape lib s rtc p q rtc' track_id e in
      rw (← shape) (
        inserted-Follows p track_id sender decisions,
        rw (lookup-insert_self track_id sender p.track_rtp_senders) (λ h. cc),
        λ id. lookup-insert_kept track_id id sender p.track_rtp_senders,
        λ id h.
            lookup-insert track_id id sender p.track_rtp_senders ∙ rw (beq_ne track_id id h) refl,
      )

  add_missing_skip :
      (s : Sfu) (p : Peer) (rtc : lib.Rtc) (track_id : Bytes) (t : TrackLocal)
      (locals : Map Bytes TrackLocal) (ids : List Bytes)
      → contains track_id ids ≡ true
      → add_missing lib s p rtc ((track_id, t) ∷ locals) ids ≡ add_missing lib s p rtc locals ids
  unfolding add_missing
  add_missing_skip s p rtc track_id t locals ids here = rw (here, add_missing)

  add_missing_add :
      (s : Sfu) (p : Peer) (rtc : lib.Rtc) (track_id : Bytes) (t : TrackLocal)
      (locals : Map Bytes TrackLocal) (ids : List Bytes) (q : Peer) (rtc' : lib.Rtc)
      → contains track_id ids ≡ false
      → add_missing lib s p rtc ((track_id, t) ∷ locals) ids ≡ some (q, rtc')
      → (mid : Peer) × (rtc'' : lib.Rtc) × (add_new_track_for_peer lib s rtc p track_id
          ≡ some (mid, rtc''))
        × (add_missing lib s mid rtc'' locals ids ≡ some (q, rtc'))
  unfolding add_missing
  add_missing_add s p rtc track_id t locals ids q rtc' missing e =
      elim (Option-cases (add_new_track_for_peer lib s rtc p track_id)) [
        | inl failed ↦ absurd (cc (rw (missing, failed, add_missing) at e))
        | inr ((mid, rtc''), added) ↦ (mid, rtc'', added, rw (missing, added, add_missing) at e)
      ]

  -- If the loop of `attemptSync` over `trackLocals` ends without a panic, each ID of the map
  -- outside the given set has a sender afterwards, every other ID has the entry that it had, no ID
  -- lost its entry, and the peer is otherwise the same up to its decisions.
  pub add_missing-Completes :
      (s : Sfu) (p : Peer) (rtc : lib.Rtc) (locals : Map Bytes TrackLocal) (ids : List Bytes)
      (q : Peer) (rtc' : lib.Rtc)
      → add_missing lib s p rtc locals ids ≡ some (q, rtc')
      → Completes locals ids p q
  add_missing-Completes s p rtc [] ids q rtc' e =
      let same : p ≡ q = (unfold add_missing in cc) in
      rw (← same)
        (Follows-refl _ p, λ id h. h, λ id h k. absurd (h (unfold lookup in refl)), λ id h. refl)
  add_missing-Completes s p rtc ((track_id, t) ∷ locals) ids q rtc' e =
      elim (Bool-cases (contains track_id ids)) [
        | inl here ↦
            let ih =
              add_missing-Completes s p rtc locals ids q rtc'
                (rw (add_missing_skip s p rtc track_id t locals ids here) at e) in
            (ih.0, ih.1, λ id h k. ih.2 id (other id h k here) k, λ id h. ih.3 id (tail id h))
        | inr missing ↦
            let (mid, rtc'', added, rest) =
              add_missing_add s p rtc track_id t locals ids q rtc' missing e in
            let (f, here, kept, apart) = add_new-Follows s rtc p mid rtc'' track_id added in
            let ih = add_missing-Completes s mid rtc'' locals ids q rtc' rest in
            (
              Follows-trans _ p mid q
                  (Follows-weaken _ _ p mid (λ id k. contains_ne id track_id ids k missing) f) ih.0,
              λ id h. ih.1 id (kept id h),
              λ id h k. elim (lookup-cons id track_id t locals h) [
                | inl same ↦ ih.1 id (subst (λ x. lookup x mid.track_rtp_senders ≢ none) same here)
                | inr later ↦ ih.2 id later k
              ],
              λ id h. ih.3 id (tail id h) ∙ apart id (apart_from id h missing),
            )
      ]
    where
      other :
          (id : Bytes)
          → lookup id ((track_id, t) ∷ locals) ≢ none
          → contains id ids ≡ false
          → contains track_id ids ≡ true
          → lookup id locals ≢ none
      other id h k here = elim (lookup-cons id track_id t locals h) [
        | inl same ↦ absurd (contains_ne track_id id ids here k same)
        | inr later ↦ later
      ]

      tail :
          (id : Bytes)
          → (lookup id ((track_id, t) ∷ locals) ≡ none) ⊎ (contains id ids ≡ true)
          → (lookup id locals ≡ none) ⊎ (contains id ids ≡ true)
      tail id (inl h) = inl (lookup-cons_none id track_id t locals h).0
      tail id (inr k) = inr k

      apart_from :
          (id : Bytes)
          → (lookup id ((track_id, t) ∷ locals) ≡ none) ⊎ (contains id ids ≡ true)
          → contains track_id ids ≡ false
          → track_id ≢ id
      apart_from id (inl h) missing = (lookup-cons_none id track_id t locals h).1
      apart_from id (inr k) missing = λ e. contains_ne id track_id ids k missing (sym e)

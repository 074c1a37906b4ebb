-- ===== src/Peer/Client/Pending.antt =====
-- What becomes of the candidates that wait, and what the client answers.
use web_rtcsfu.Base.{
  ℕ, ◌≡◌, ◌≢◌, refl, sym, ap, ap₂, ◌∙◌, false, some, List, [], ◌∷◌, ◌++◌, ◌==◌, nat_eq, map, All,
  if◌then◌else◌, Bool-cases, inl, inr, append_assoc, append-nil, >>=-eq_some, subst, beq_ne,
}
use mathlib.Core.List.{map-append}
use mathlib.Core.Option
use web_rtcsfu.Base.Bytes.{Bytes}
use web_rtcsfu.Peer.Signaling.{WebsocketPacket}
use web_rtcsfu.Peer.Client.Waiting.{with_waiting, put_waiting, messages-Unaffected}
use web_rtcsfu.Peer.Client.{
  Connection, Settings, Client, is_considered, handle_hello, handle_offer, handle_candidate,
  handle_message, handle_messages,
}

abbrev pub message_types : List WebsocketPacket → List ℕ
message_types = map (λ p. p.message_type)

-- The types of the packets that answer a message: an offer to a hello, an answer to an offer.
abbrev pub replies : ℕ → List ℕ
replies n = if n == 1 then 2 ∷ [] else if n == 2 then 3 ∷ [] else []

abbrev pub all_replies : List WebsocketPacket → List ℕ
all_replies [] = []
all_replies (p ∷ ps) = replies p.message_type ++ all_replies ps

module _ (lib : Connection) (settings : Settings) where
  -- What waits still waits, in front of what has joined it, and `types` were sent.
  abbrev pub Waits : List ℕ → Client lib → Client lib × List WebsocketPacket → Type 0
  Waits types c r =
      ((more : List Bytes) × (r.0.pending_candidates_string ≡ c.pending_candidates_string ++ more))
      × (r.0.pending_candidates ≡ c.pending_candidates)
      × (message_types r.1 ≡ types)

  carried :
      (types : List ℕ) (c : Client lib) (q r : Client lib × List WebsocketPacket)
      → some q ≡ some r
      → Waits types c q
      → Waits types c r
  carried types c q r e w = let same : q ≡ r = cc in subst (λ x. Waits types c x) same w

  -- A step that leaves both lists alone.
  unchanged :
      (types : List ℕ) (c c' : Client lib) (sent : List WebsocketPacket)
      (r : Client lib × List WebsocketPacket)
      → c'.pending_candidates_string ≡ c.pending_candidates_string
      → c'.pending_candidates ≡ c.pending_candidates
      → message_types sent ≡ types
      → some (c', sent) ≡ some r
      → Waits types c r
  unchanged types c c' sent r a b t e =
      carried types c (c', sent) r e (([], a ∙ sym (append-nil c.pending_candidates_string)), b, t)

  hello-Waits :
      (c : Client lib) (r : Client lib × List WebsocketPacket)
      → handle_hello lib c ≡ some r
      → Waits (2 ∷ []) c r
  unfolding handle_hello
  hello-Waits c r e =
      let ((d, r0), x, e0) = >>=-eq_some (lib.create_offer c.rtc) _ r e in
      let (r1, y, e1) = >>=-eq_some (lib.set_local_description r0 d) _ r e0 in
      let (payload, z, e2) = >>=-eq_some (lib.marshal d) _ r e1 in
      unchanged (2 ∷ []) c _ _ r refl refl refl e2

  offer-Waits :
      (message : Bytes) (c : Client lib) (r : Client lib × List WebsocketPacket)
      → handle_offer lib message c ≡ some r
      → Waits (3 ∷ []) c r
  unfolding handle_offer
  offer-Waits message c r e =
      let (d, x, e0) = >>=-eq_some (lib.unmarshal message) _ r e in
      let (r0, y, e1) = >>=-eq_some (lib.set_remote_description c.rtc d) _ r e0 in
      let ((reply, r1), z, e2) = >>=-eq_some (lib.create_answer r0) _ r e1 in
      let (r2, u, e3) = >>=-eq_some (lib.set_local_description r1 reply) _ r e2 in
      let (payload, v, e4) = >>=-eq_some (lib.marshal reply) _ r e3 in
      unchanged (3 ∷ []) c _ _ r refl refl refl e4

  candidate-Waits :
      (candidate : Bytes) (c : Client lib) (r : Client lib × List WebsocketPacket)
      → handle_candidate lib settings candidate c ≡ some r
      → Waits [] c r
  unfolding handle_candidate
  candidate-Waits candidate c r e = elim (Bool-cases (is_considered settings candidate)) [
    | inr ignored ↦ unchanged [] c c [] r refl refl refl (rw ignored at e)
    | inl considered ↦ elim (Bool-cases (lib.has_remote_description c.rtc)) [
      | inl known ↦
          let (rtc', x, e0) =
            >>=-eq_some (lib.add_candidate c.rtc candidate) _ r (rw (considered, known) at e) in
          unchanged [] c _ _ r refl refl refl e0
      | inr unknown ↦
          carried [] c
            (
              record c {
                pending_candidates_string = c.pending_candidates_string ++ candidate ∷ [];
              },
              [],
            )
            r (rw (considered, unknown) at e) ((candidate ∷ [], refl), refl, refl)
    ]
  ]

  handle_message-Waits :
      (p : WebsocketPacket) (c : Client lib) (r : Client lib × List WebsocketPacket)
      → p.message_type ≢ 3
      → handle_message lib settings p c ≡ some r
      → Waits (replies p.message_type) c r
  unfolding handle_message
  handle_message-Waits p c r h e = elim (Bool-cases (p.message_type == 1)) [
    | inl one ↦ rw one (hello-Waits c r (rw one at e))
    | inr a ↦ elim (Bool-cases (p.message_type == 2)) [
      | inl two ↦ rw (a, two) (offer-Waits p.message c r (rw (a, two) at e))
      | inr b ↦
          let no : (p.message_type == 3) ≡ false = beq_ne p.message_type 3 h in
          elim (Bool-cases (p.message_type == 4)) [
            | inl four ↦ rw (a, b) (candidate-Waits p.message c r (rw (a, b, no, four) at e))
            | inr other ↦
                rw (a, b) (unchanged [] c c [] r refl refl refl (rw (a, b, no, other) at e))
          ]
    ]
  ]

  run-Waits :
      (ps : List WebsocketPacket) (c : Client lib) (r : Client lib × List WebsocketPacket)
      → All (λ p. p.message_type ≢ 3) ps
      → handle_messages lib settings ps c ≡ some r
      → Waits (all_replies ps) c r
  unfolding handle_messages
  run-Waits [] c r h e = unchanged [] c c [] r refl refl refl e
  run-Waits (p ∷ ps) c r h e =
      let (now, x, e0) = >>=-eq_some (handle_message lib settings p c) _ r e in
      let (later, y, e1) = >>=-eq_some (handle_messages lib settings ps now.0) _ r e0 in
      let (a, b, t) = handle_message-Waits p c now h.0 x in
      let (a', b', t') = run-Waits ps now.0 later h.1 y in
      carried (all_replies (p ∷ ps)) c (later.0, now.1 ++ later.1) r e1
        (
          (
            a.0 ++ a'.0,
            a'.1 ∙ ap (λ s. s ++ a'.0) a.1 ∙ append_assoc c.pending_candidates_string a.0 a'.0,
          ),
          b' ∙ b,
          map-append (λ p. p.message_type) now.1 later.1 ∙ ap₂ ◌++◌ t t',
        )

  -- Take messages none of which is an answer (type 3), handled one after another without a panic.
  -- The candidates that waited still wait, in their order, in front of those that have joined
  -- them; the client's own candidates that waited still wait; and the client sent exactly one
  -- offer for each hello and one answer for each offer, in order, and nothing else. Whatever other
  -- candidates of either kind had waited in front of these, they would wait in front of them
  -- still, and the state, the connection and what was sent would be the same: no candidate that
  -- waits reaches the connection or the unit.
  pub handle_messages-Waits :
      (own : List lib.Candidate) (texts : List Bytes) (ps : List WebsocketPacket) (c : Client lib)
      (r : Client lib × List WebsocketPacket)
      → All (λ p. p.message_type ≢ 3) ps
      → handle_messages lib settings ps c ≡ some r
      → Waits (all_replies ps) c r
        × (handle_messages lib settings ps (with_waiting lib settings own texts c)
            ≡ some (with_waiting lib settings own texts r.0, r.1))
  handle_messages-Waits own texts ps c r h e = (
    run-Waits ps c r h e,
    messages-Unaffected lib settings own texts ps c h
        ∙ ap (Option.map (put_waiting lib settings own texts)) e,
  )

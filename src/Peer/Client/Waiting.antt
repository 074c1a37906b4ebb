-- ===== src/Peer/Client/Waiting.antt =====
-- What waits has no part in what the client does with a message that is no answer.
use web_rtcsfu.Base.{
  ◌≡◌, ◌≢◌, refl, ap, false, Option, some, ◌>>=◌, List, [], ◌∷◌, ◌++◌, ◌==◌, nat_eq, All,
  Bool-cases, Option-cases, inl, inr, append_assoc, beq_ne,
}
use mathlib.Core.Option.{map}
use web_rtcsfu.Base.Bytes.{Bytes}
use web_rtcsfu.Peer.Signaling.{WebsocketPacket}
use web_rtcsfu.Peer.Client.{
  Connection, Settings, Client, is_considered, handle_hello, handle_offer, handle_candidate,
  handle_message, handle_messages,
}

module _ (lib : Connection) (settings : Settings) (own : List lib.Candidate)
    (texts : List Bytes) where
  -- The client with more candidates that wait, in front of the others.
  abbrev pub with_waiting : Client lib → Client lib
  with_waiting c = record c {
    pending_candidates = own ++ c.pending_candidates;
    pending_candidates_string = texts ++ c.pending_candidates_string;
  }

  abbrev pub put_waiting : Client lib × List WebsocketPacket → Client lib × List WebsocketPacket
  put_waiting r = (with_waiting r.0, r.1)

  abbrev Unaffected :
      (Client lib → Option (Client lib × List WebsocketPacket)) → Client lib → Type 0
  Unaffected handle c = handle (with_waiting c) ≡ map put_waiting (handle c)

  hello-Unaffected : (c : Client lib) → Unaffected (handle_hello lib) c
  unfolding handle_hello
  hello-Unaffected c = elim (Option-cases (lib.create_offer c.rtc)) [
    | inl e ↦ rw (e, ◌>>=◌) refl
    | inr ((d, r0), e) ↦ elim (Option-cases (lib.set_local_description r0 d)) [
      | inl e1 ↦ rw (e, e1, ◌>>=◌) refl
      | inr (r1, e1) ↦ elim (Option-cases (lib.marshal d)) [
        | inl e2 ↦ rw (e, e1, e2, ◌>>=◌) refl
        | inr (payload, e2) ↦ rw (e, e1, e2, ◌>>=◌) refl
      ]
    ]
  ]

  offer-Unaffected : (message : Bytes) (c : Client lib) → Unaffected (handle_offer lib message) c
  unfolding handle_offer
  offer-Unaffected message c = elim (Option-cases (lib.unmarshal message)) [
    | inl e ↦ rw (e, ◌>>=◌) refl
    | inr (d, e) ↦ elim (Option-cases (lib.set_remote_description c.rtc d)) [
      | inl e0 ↦ rw (e, e0, ◌>>=◌) refl
      | inr (r0, e0) ↦ elim (Option-cases (lib.create_answer r0)) [
        | inl e1 ↦ rw (e, e0, e1, ◌>>=◌) refl
        | inr ((reply, r1), e1) ↦ elim (Option-cases (lib.set_local_description r1 reply)) [
          | inl e2 ↦ rw (e, e0, e1, e2, ◌>>=◌) refl
          | inr (r2, e2) ↦ elim (Option-cases (lib.marshal reply)) [
            | inl e3 ↦ rw (e, e0, e1, e2, e3, ◌>>=◌) refl
            | inr (payload, e3) ↦ rw (e, e0, e1, e2, e3, ◌>>=◌) refl
          ]
        ]
      ]
    ]
  ]

  candidate-Unaffected :
      (candidate : Bytes) (c : Client lib) → Unaffected (handle_candidate lib settings candidate) c
  unfolding handle_candidate
  candidate-Unaffected candidate c = elim (Bool-cases (is_considered settings candidate)) [
    | inr ignored ↦ rw ignored refl
    | inl considered ↦ elim (Bool-cases (lib.has_remote_description c.rtc)) [
      | inl known ↦ elim (Option-cases (lib.add_candidate c.rtc candidate)) [
        | inl e ↦ rw (considered, known, e, ◌>>=◌) refl
        | inr (rtc', e) ↦ rw (considered, known, e, ◌>>=◌) refl
      ]
      | inr unknown ↦
          rw (considered, unknown)
            (ap
              (λ waiting.
                some (record (with_waiting c) { pending_candidates_string = waiting }, []))
              (append_assoc texts c.pending_candidates_string (candidate ∷ [])))
    ]
  ]

  message-Unaffected :
      (p : WebsocketPacket) (c : Client lib)
      → p.message_type ≢ 3
      → Unaffected (handle_message lib settings p) c
  unfolding handle_message
  message-Unaffected p c h = elim (Bool-cases (p.message_type == 1)) [
    | inl one ↦ rw one (hello-Unaffected c)
    | inr a ↦ elim (Bool-cases (p.message_type == 2)) [
      | inl two ↦ rw (a, two) (offer-Unaffected p.message c)
      | inr b ↦
          let no : (p.message_type == 3) ≡ false = beq_ne p.message_type 3 h in
          elim (Bool-cases (p.message_type == 4)) [
            | inl four ↦ rw (a, b, no, four) (candidate-Unaffected p.message c)
            | inr other ↦ rw (a, b, no, other) refl
          ]
    ]
  ]

  pub messages-Unaffected :
      (ps : List WebsocketPacket) (c : Client lib)
      → All (λ p. p.message_type ≢ 3) ps
      → Unaffected (handle_messages lib settings ps) c
  unfolding handle_messages
  messages-Unaffected [] c h = refl
  messages-Unaffected (p ∷ ps) c h = elim (Option-cases (handle_message lib settings p c)) [
    | inl e ↦ rw (message-Unaffected p c h.0, e, ◌>>=◌) refl
    | inr (now, e) ↦ elim (Option-cases (handle_messages lib settings ps now.0)) [
      | inl e1 ↦
          rw (message-Unaffected p c h.0, e, messages-Unaffected ps now.0 h.1, e1, ◌>>=◌) refl
      | inr (later, e1) ↦
          rw (message-Unaffected p c h.0, e, messages-Unaffected ps now.0 h.1, e1, ◌>>=◌) refl
    ]
  ]

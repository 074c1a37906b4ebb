-- ===== src/Sfu/Setup/Transceivers.antt =====
-- The unit has a transceiver for each track that a client publishes.
use web_rtcsfu.Base.{
  ℕ, zero, suc, ◌+◌, ◌*◌, ◌%◌, ◌^◌, ◌<◌, ◌≡◌, refl, ap, sym, ◌∙◌, List, true, none, some, Option,
  Option-cases, inl, inr, >>=-eq_some, ◌>>=◌, arith, ltb, Bool,
}
use web_rtcsfu.Base.Bytes.{Bytes}
use web_rtcsfu.Base.Text.{ℤ, pos, format_int, to_bits, from_bits}
use web_rtcsfu.Base.Text.Numbers.{IsInt}
use web_rtcsfu.Engine.{CodecKind, audio, video, Settings, Engine}
use web_rtcsfu.Peer.Setup.{connect}
use web_rtcsfu.Peer.Setup.Senders.{SendingLaw, connect-senders}
use web_rtcsfu.Sfu.Signal.{rounds}
use web_rtcsfu.Sfu.Socket.{Query, read_query}
use web_rtcsfu.Sfu.Socket.Queries.{read_query-numbers}
use web_rtcsfu.Sfu.Setup.{
  mul_int, set_up, ice_servers, returns, prepared, returned, add_transceivers, receive_only,
  prepare,
}

-- Products that do not overflow.
mul_int-pos :
    (n m : ℕ) → n < 2 ^ 63 → m < 2 ^ 63 → n * m < 2 ^ 63 → mul_int (pos n) (pos m) ≡ pos (n * m)
unfolding mul_int from_bits to_bits
mul_int-pos n m hn hm small =
    let first : n % 2 ^ 64 ≡ n = omega arith in
    let second : m % 2 ^ 64 ≡ m = omega arith in
    let product : n * m % 2 ^ 64 ≡ n * m = omega arith in
    let fits : ltb (n * m) (2 ^ 63) ≡ true = ground arith in rw (first, second, product, fits) refl

-- How many transceivers a connection has: none at first, and one more for each that is added.
pub record CountingLaw (engine : Engine) : Type 0 where
  pub count : CodecKind → engine.Connection → ℕ
  pub fresh :
      (s : Settings) (servers : List Bytes) (m : engine.Setup) (c : engine.Connection)
      → engine.new_peer_connection s servers m ≡ some c
      → (kind : CodecKind) → count kind c ≡ 0
  pub sound :
      (c c' : engine.Connection)
      → engine.add_transceiver audio c ≡ some c'
      → (count audio c' ≡ count audio c + 1) × (count video c' ≡ count video c)
  pub picture :
      (c c' : engine.Connection)
      → engine.add_transceiver video c ≡ some c'
      → (count audio c' ≡ count audio c) × (count video c' ≡ count video c + 1)

module _ (engine : Engine) (law : CountingLaw engine) where
  add_transceivers-count :
      (left : ℕ) (c c' : engine.Connection)
      → add_transceivers engine left c ≡ some c'
      → (law.count audio c' ≡ law.count audio c) × (law.count video c' ≡ law.count video c + left)
  unfolding add_transceivers
  add_transceivers-count zero c c' e = let same : c ≡ c' = cc e in rw (← same) (refl, omega arith)
  add_transceivers-count (suc left) c c' e =
      let (next, added, rest) = >>=-eq_some (engine.add_transceiver video c) _ c' e in
      let one = law.picture c next added in
      let more = add_transceivers-count left next c' rest in
      (more.0 ∙ one.0, omega (arith, one.1, more.1))

  prepare-count :
      (s : Settings) (use_stun : Bool) (q : Query) (c : engine.Connection)
      → prepare engine s use_stun q ≡ prepared c
      → (law.count audio c ≡ 1)
        × (law.count video c ≡ rounds (mul_int q.number_of_tiles q.number_of_qualities))
  unfolding prepare receive_only
  prepare-count s use_stun q c e =
      let made =
        set_up engine >>= λ m. engine.new_peer_connection s (ice_servers engine use_stun) m in
      elim (Option-cases made) [
        | inl failed ↦ let broken = rw (failed, prepare) at e in absurd (cc broken)
        | inr (c0, fresh) ↦
            let (m, engine_up, created) = >>=-eq_some (set_up engine) _ c0 fresh in
            let none_yet = law.fresh s (ice_servers engine use_stun) m c0 created in
            by_result c0 none_yet (receive_only engine q c0) refl (rw (fresh, prepare) at e)
      ]
    where
      by_result :
          (c0 : engine.Connection)
          → ((kind : CodecKind) → law.count kind c0 ≡ 0)
          → (r : Option engine.Connection) → receive_only engine q c0 ≡ r
          → returned engine r ≡ prepared c
          → (law.count audio c ≡ 1)
            × (law.count video c ≡ rounds (mul_int q.number_of_tiles q.number_of_qualities))
      by_result c0 fresh none e1 e2 =
          let broken : returns ≡ prepared c = (unfold returned in e2) in absurd (cc broken)
      by_result c0 fresh (some c1) e1 e2 =
          let same : prepared c1 ≡ prepared c = (unfold returned in e2) in
          let here : c1 ≡ c = cc same in
          let (c2, heard, rest) = >>=-eq_some (engine.add_transceiver audio c0) _ c1 e1 in
          let one = law.sound c0 c2 heard in
          let more =
            add_transceivers-count (rounds (mul_int q.number_of_tiles q.number_of_qualities)) c2 c1
              rest in
          rw (← here)
            (omega (arith, one.0, more.0, fresh audio), omega (arith, one.1, more.1, fresh video))

-- Let the connections of the client's engine count the tracks that are added, and those of the
-- unit's engine the transceivers of each kind. Take a client whose number of tiles, number of
-- qualities, their product and whose own number are ints, the first three not negative. If the
-- client's set-up and the unit's, for the query that the client's numbers are written into, both
-- go through, then the unit's connection has one transceiver for audio, and as many transceivers
-- in all as the client's has tracks.
pub prepare-connect :
    (client unit : Engine) (sending : SendingLaw client) (counting : CountingLaw unit)
    (s : Settings) (use_stun : Bool) (max_tiles client_id : ℤ) (n m : ℕ) (q : Query)
    (c : client.Connection) (u : unit.Connection)
    → IsInt client_id
    → n < 2 ^ 63
    → m < 2 ^ 63
    → n * m < 2 ^ 63
    → read_query max_tiles (format_int (pos n)) (format_int (pos m)) (format_int client_id) ≡ some q
    → connect client client_id (pos n) (pos m) ≡ some c
    → prepare unit s use_stun q ≡ prepared u
    → (counting.count audio u ≡ 1)
      × (sending.senders c ≡ counting.count audio u + counting.count video u)
prepare-connect client unit sending counting s use_stun max_tiles client_id n m q c u int hn hm
      small read joined run =
    let known = read_query-numbers max_tiles (pos n) (pos m) client_id hn hm int in
    let same : record {
      number_of_tiles = pos n;
      number_of_qualities = pos m;
      client_id = client_id;
    }
        ≡ q =
      cc (known, read) in
    let counted = prepare-count unit counting s use_stun q u run in
    let tiles : rounds (mul_int q.number_of_tiles q.number_of_qualities) ≡ n * m =
      ap (λ (x : Query). rounds (mul_int x.number_of_tiles x.number_of_qualities)) (sym same)
      ∙ ap rounds (mul_int-pos n m hn hm small) in
    (
      counted.0,
      omega (
        arith,
        counted.0,
        counted.1,
        tiles,
        connect-senders client sending client_id n m c joined,
      ),
    )

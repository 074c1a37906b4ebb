-- ===== src/Sfu/Interceptor/Numbers.antt =====
-- The numbers that a stream's packets leave with.
use web_rtcsfu.Base.{ℕ, ◌+◌, ◌%◌, ◌^◌, ◌≡◌, List, [], ◌∷◌, arith, length, ◌∙◌, ap}
use web_rtcsfu.Base.Bytes.{Bytes}
use web_rtcsfu.Sfu.Interceptor.{RtpHeader, bind_local_stream, write_rtp, write_all}

-- The packets as they are meant to leave: the `k`-th from `n` on has the number `n + k` modulo 2^16.
abbrev pub renumbered :
    {Rest : Type 0} → ℕ → List (RtpHeader Rest × Bytes) → List (RtpHeader Rest × Bytes)
renumbered n [] = []
renumbered n (packet ∷ packets) =
    (record (packet.0) { sequence_number = n % 2 ^ 16 }, packet.1) ∷ renumbered (n + 1) packets

module _ {Rest Writer Answer : Type 0}
    (write : RtpHeader Rest → Bytes → Writer → Answer × Writer) where
  -- What the writer behind the interceptor goes through for some packets.
  abbrev pub passed_on : List (RtpHeader Rest × Bytes) → Writer → Writer
  passed_on [] w = w
  passed_on (packet ∷ packets) w = passed_on packets (write packet.0 packet.1 w).1

  write_all-from :
      (packets : List (RtpHeader Rest × Bytes)) (n : ℕ) (w : Writer)
      → write_all write packets (record { seq_nr = n % 2 ^ 16; writer = w }) ≡ record {
        seq_nr = (n + length packets) % 2 ^ 16;
        writer = passed_on (renumbered n packets) w;
      }
  unfolding write_all write_rtp
  write_all-from [] n w = ap (λ k. record { seq_nr = k % 2 ^ 16; writer = w }) (omega arith)
  write_all-from (packet ∷ packets) n w =
      let w' = (write (record (packet.0) { sequence_number = n % 2 ^ 16 }) packet.1 w).1 in
      ap (λ k. write_all write packets (record { seq_nr = k; writer = w' })) (omega arith)
      ∙ write_all-from packets (n + 1) w'
      ∙ ap (λ k. record { seq_nr = k % 2 ^ 16; writer = passed_on (renumbered (n + 1) packets) w' })
          (omega arith)

  -- For any writer, the packets of a bound stream reach it in order and unchanged but for their
  -- sequence numbers, which are 0, 1, 2, … modulo 2^16; the stream's counter is the number of
  -- packets modulo 2^16.
  pub write_all-renumbered :
      (packets : List (RtpHeader Rest × Bytes)) (w : Writer)
      → write_all write packets (bind_local_stream write w)
        ≡ record { seq_nr = length packets % 2 ^ 16; writer = passed_on (renumbered 0 packets) w }
  unfolding bind_local_stream
  write_all-renumbered packets w =
      write_all-from packets 0 w
      ∙ ap (λ k. record { seq_nr = k % 2 ^ 16; writer = passed_on (renumbered 0 packets) w })
          (omega arith)

-- ===== src/Peer/Packet/Fragments.antt =====
-- The loop of `Payload` against a list of offsets: which fragments come out.
use web_rtcsfu.Base.{
  ℕ, zero, suc, ◌+◌, ◌-◌, ◌*◌, ◌^◌, ◌≤◌, ◌<◌, ◌≡◌, refl, sym, ap, some, List, [], ◌∷◌, ◌++◌, ◌∙◌,
  arith, length, map, take, drop, replicate, length-take, length-drop, append-nil, append_assoc,
  take_all, min, dec_lt, lt_wf,
}
use web_rtcsfu.Base.Bytes.{Bytes, u32, fits_u32}
use web_rtcsfu.Peer.Packet.{fragment_size, fragment, fragment_loop, fragments, remaining_shrinks}
use web_rtcsfu.Peer.Packet.Layout.{fragment_bytes, fragment-eq_some}
use mathlib.Core.Logic.{dif_pos, dif_neg}
use native.Mathlib.Bridge.{le_prop}
use mathlib.Core.WellFounded.{Acc}

-- `k` offsets, a payload's size apart.
abbrev pub offsets : ℕ → ℕ → ℕ → List ℕ
offsets payload_size zero offset = []
offsets payload_size (suc k) offset = offset ∷ offsets payload_size k (offset + payload_size)

fragment_size-le : (payload_size remaining : ℕ) → fragment_size payload_size remaining ≤ remaining
unfolding fragment_size
fragment_size-le payload_size remaining = ground arith

fragment_size-min :
    (payload_size remaining : ℕ) → min payload_size remaining ≡ fragment_size payload_size remaining
unfolding fragment_size
fragment_size-min payload_size remaining = ground arith

take-fragment_size :
    (payload_size remaining : ℕ) (xs : Bytes)
    → length xs ≡ remaining
    → take (fragment_size payload_size remaining) xs ≡ take payload_size xs
take-fragment_size payload_size remaining xs e = elim (dec_lt remaining payload_size) [
  | yes short ↦
      take_all _ xs (omega (arith, fragment_size-min payload_size remaining))
      ∙ sym (take_all payload_size xs (omega arith))
  | no long ↦
      ap (λ (n : ℕ). take n xs) (omega (arith, sym (fragment_size-min payload_size remaining)))
]

-- What is behind the last fragment is the next multiple, or nothing is left to offset.
offsets-fragment_size :
    (payload_size k remaining offset : ℕ)
    → k * payload_size < remaining
    → offsets payload_size k (offset + fragment_size payload_size remaining)
      ≡ offsets payload_size k (offset + payload_size)
unfolding fragment_size
offsets-fragment_size payload_size zero remaining offset h = refl
offsets-fragment_size payload_size (suc k) remaining offset h =
    ap (λ (n : ℕ). offsets payload_size (suc k) (offset + n)) (ground arith)

module _ (header_size payload_size : ℕ) (positive : 0 < payload_size)
    (write_header : ℕ → ℕ → Bytes → Bytes) (payload : Bytes) (fields : ℕ → ℕ → Bytes)
    (writes : (offset size : ℕ) (rest : Bytes)
      → write_header offset size (replicate header_size 0 ++ rest) ≡ fields offset size ++ rest)
    (length-fields : (offset size : ℕ) → length (fields offset size) ≡ header_size)
    (fits : length payload < 2 ^ 32) (small : payload_size + header_size < 2 ^ 32) where
  abbrev bytes_at : ℕ → Bytes
  bytes_at = fragment_bytes payload_size payload fields

  -- One round appends the fragment at `offset`.
  round :
      (offset remaining : ℕ)
      → offset + remaining ≡ length payload
      → fragment header_size payload_size positive write_header payload offset
          (fragment_size payload_size remaining)
        ≡ some (bytes_at offset)
  round offset remaining e =
      let size = fragment_size payload_size remaining in
      fragment-eq_some header_size payload_size positive write_header payload fields writes
        length-fields offset size (unfold fragment_size in ground arith) fits
        (unfold fragment_size in ground arith)
      ∙ cc (take-fragment_size payload_size remaining (drop offset payload) behind, chunk_length)
    where
      behind : length (drop offset payload) ≡ remaining
      behind = omega (arith, length-drop offset payload)

      chunk_length :
          length (take payload_size (drop offset payload)) ≡ fragment_size payload_size remaining
      chunk_length =
          rw (length-take payload_size (drop offset payload), behind)
            (fragment_size-min payload_size remaining)

  -- The whole loop: `k` rounds, where `k` sizes reach the end and `k - 1` do not.
  loop-offsets :
      (k remaining : ℕ) (w : Acc ◌<◌ remaining) (offset : ℕ) (out : List Bytes)
      → offset + remaining ≡ length payload
      → remaining ≤ k * payload_size
      → k * payload_size < remaining + payload_size
      → fragment_loop header_size payload_size positive write_header payload remaining w offset out
        ≡ some (out ++ map bytes_at (offsets payload_size k offset))
  unfolding fragment_loop
  loop-offsets zero remaining (Acc.intro _ smaller) offset out e lo hi =
      let done : ¬ (0 < remaining) = omega arith in rw (dif_neg _ done, append-nil)
  loop-offsets (suc k) remaining (Acc.intro _ smaller) offset out e lo hi =
      let more : 0 < remaining = omega arith in
      let size = fragment_size payload_size remaining in
      let sized = fragment_size-min payload_size remaining in
      let inside : offset + size ≤ length payload = omega (arith, sized) in
      rw (dif_pos _ le_prop more) (
        rw (round offset remaining e, fits_u32 (offset + size) (omega arith))
          (loop-offsets k (remaining - size) (smaller _ (remaining_shrinks _ _ positive more))
              (offset + size) (out ++ bytes_at offset ∷ []) (omega (arith, sized))
              (omega (arith, sized)) (omega (arith, sized))
            ∙ rw (
              offsets-fragment_size payload_size k remaining offset (omega arith),
              append_assoc,
            )))

  -- `k` is the number of fragments: the payload's length over their size, rounded up.
  pub fragments-offsets :
      (k : ℕ)
      → length payload ≤ k * payload_size
      → k * payload_size < length payload + payload_size
      → fragments header_size payload_size positive write_header payload
        ≡ some (map bytes_at (offsets payload_size k 0))
  unfolding fragments lt_wf
  fragments-offsets k lo hi =
      let len = u32 (length payload) in
      loop-offsets k len (lt_wf.apply len) 0 [] (omega arith) (omega arith) (omega arith)

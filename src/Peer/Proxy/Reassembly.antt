-- ===== src/Peer/Proxy/Reassembly.antt =====
-- One entry of a frame: packets that cut the frame up, in any order, restore it.
use web_rtcsfu.Base.{
  ℕ, ◌+◌, ◌-◌, ◌^◌, ◌≤◌, ◌<◌, ◌≡◌, refl, sym, ap, some, List, [], ◌∷◌, ◌∙◌, arith, length, take,
  drop, get_elem?, Bool, true, false, ◌&&◌, ◌||◌, ltb, leb, length-replicate, length-take,
  length-drop, get_elem?-drop, get_elem?-take, Bool-cases, inl, inr, eq_of_get_elem?, dec_lt,
}
use web_rtcsfu.Base.Bytes.{
  Bytes, u32, copy, length-copy, slice-u32, get_elem?-copy_below, get_elem?-copy_above,
  get_elem?-copy_inside,
}
use web_rtcsfu.Peer.Proxy.{absorb, new_tile}
use web_rtcsfu.Peer.Proxy.Types.{RemoteTile}

-- A part of a frame: its offset and its length.
pub record Part : Type 0 where
  pub offset : ℕ
  pub len : ℕ

abbrev pub total : List Part → ℕ
total [] = 0
total (p ∷ ps) = p.len + total ps

abbrev pub covers : List Part → ℕ → Bool
covers [] i = false
covers (p ∷ ps) i = (leb p.offset i && ltb i (p.offset + p.len)) || covers ps i

-- The bytes of a frame that a part stands for.
abbrev pub cut : Bytes → Part → Bytes
cut frame p = take p.len (drop p.offset frame)

abbrev pub IsInside : Bytes → Part → Type 0
IsInside frame p = (0 < p.len) × (p.offset + p.len ≤ length frame)

-- The entry after the parts `done`: it counts their bytes, and has those that they cover.
pub record Holds (frame : Bytes) (done : List Part) (r : RemoteTile) : Type 0 where
  pub file_len : r.file_len ≡ length frame
  pub room : length r.file_data ≡ length frame
  pub counted : r.current_len ≡ total done
  pub agrees : (i : ℕ) → covers done i ≡ true → get_elem? r.file_data i ≡ get_elem? frame i

pub new_tile-Holds :
    (frame_nr : ℕ) (frame : Bytes) → Holds frame [] (new_tile frame_nr (length frame))
unfolding new_tile
new_tile-Holds frame_nr frame = record {
  file_len = refl;
  room = length-replicate (length frame) 0;
  counted = refl;
  agrees = λ i h. cc;
}

pub length-cut : (frame : Bytes) (p : Part) → IsInside frame p → length (cut frame p) ≡ p.len
length-cut frame p h =
    omega (arith, length-take p.len (drop p.offset frame), length-drop p.offset frame)

get_elem?-cut :
    (frame : Bytes) (p : Part) (j : ℕ)
    → j < p.len
    → get_elem? (cut frame p) j ≡ get_elem? frame (p.offset + j)
get_elem?-cut frame p j h =
    get_elem?-take (drop p.offset frame) p.len j h ∙ get_elem?-drop frame p.offset j

-- The copy of a part puts the frame's bytes in its range and keeps what was there.
copy-agrees :
    (frame file_data : Bytes) (p : Part) (done : List Part)
    → length file_data ≡ length frame
    → IsInside frame p
    → ((i : ℕ) → covers done i ≡ true → get_elem? file_data i ≡ get_elem? frame i)
    → (i : ℕ) → covers (p ∷ done) i ≡ true
    → get_elem? (copy p.offset (cut frame p) file_data) i ≡ get_elem? frame i
copy-agrees frame file_data p done e inside old i h =
    elim (Bool-cases (leb p.offset i && ltb i (p.offset + p.len))) [
      | inl here ↦
          let j = i - p.offset in
          let at : p.offset + j ≡ i = ground arith in
          let short : j < p.len = ground arith in
          ap (get_elem? (copy p.offset (cut frame p) file_data)) (sym at)
          ∙ get_elem?-copy_inside p.offset j (cut frame p) file_data
              (omega (arith, length-cut frame p inside)) (omega (arith, length-cut frame p inside))
          ∙ get_elem?-cut frame p j short
          ∙ ap (get_elem? frame) at
      | inr elsewhere ↦ elim (dec_lt i p.offset) [
        | yes before ↦
            get_elem?-copy_below p.offset i (cut frame p) file_data before ∙ old i (ground arith)
        | no after ↦
            get_elem?-copy_above p.offset i (cut frame p) file_data
              (ground (arith, length-cut frame p inside))
            ∙ old i (ground arith)
      ]
    ]

pub absorb-Holds :
    (behind : ℕ) (frame buffer : Bytes) (done : List Part) (p : Part) (r : RemoteTile)
    → Holds frame done r
    → IsInside frame p
    → length frame < 2 ^ 32
    → total done + p.len ≤ length frame
    → behind + p.len ≤ length buffer
    → length buffer < 2 ^ 32
    → take p.len (drop behind buffer) ≡ cut frame p
    → (r' : RemoteTile) × (absorb behind r p.offset p.len buffer ≡ some r')
      × Holds frame (p ∷ done) r'
unfolding absorb
absorb-Holds behind frame buffer done p r h inside small fits full short same = (
  record r {
    current_len = u32 (r.current_len + p.len);
    file_data = copy p.offset (cut frame p) r.file_data;
  },
  rw (
    slice-u32 p.offset p.len r.file_data (omega (arith, h.room)) (omega (arith, h.room)),
    slice-u32 behind p.len buffer full short,
    same,
  ),
  record {
    file_len = h.file_len;
    room = length-copy p.offset (cut frame p) r.file_data ∙ h.room;
    counted = omega (arith, h.counted);
    agrees = copy-agrees frame r.file_data p done h.room inside h.agrees;
  },
)

-- All parts together: if they cover the frame, the entry's data is the frame.
pub Holds-whole :
    (frame : Bytes) (done : List Part) (r : RemoteTile)
    → Holds frame done r
    → ((i : ℕ) → i < length frame → covers done i ≡ true)
    → r.file_data ≡ frame
Holds-whole frame done r h all =
    eq_of_get_elem? r.file_data frame h.room (λ i lt. h.agrees i (all i lt))

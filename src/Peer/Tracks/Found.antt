-- ===== src/Peer/Tracks/Found.antt =====
-- Every goroutine that sends finds the track of its tile and quality.
use web_rtcsfu.Base.{
  ℕ, zero, suc, ◌+◌, ◌^◌, ◌≤◌, ◌<◌, ◌≡◌, refl, ◌∙◌, some, List, [], ◌∷◌, ◌++◌, ◌&&◌, nat_beq,
  dec_lt, Bool-cases, inl, inr, false, arith, ap, ◌*◌, length, length-append,
}
use native.Mathlib.Nat.{mul-le-mul_left, mul_comm, mul-add}
use web_rtcsfu.Base.Bytes.{u32, fits_u32}
use web_rtcsfu.Base.Map.{Map, insert, lookup-insert, lookup-insert_self}
use web_rtcsfu.Base.Text.{ℤ, pos, format_int}
use web_rtcsfu.Base.Text.Numbers.{wrap_int-pos}
use web_rtcsfu.Peer.Proxy.Types.{VideoKey, key_eq}
use web_rtcsfu.Peer.Tracks.{
  TrackArguments, track_arguments, tile_tracks, tracks_from, video_tracks, put_tracks, track_of,
  video_track_id,
}

abbrev Tracks : Type 0
Tracks = Map VideoKey TrackArguments

put_tracks-append :
    (xs ys : List TrackArguments) (tracks : Tracks)
    → put_tracks (xs ++ ys) tracks ≡ put_tracks ys (put_tracks xs tracks)
unfolding put_tracks
put_tracks-append [] ys tracks = refl
put_tracks-append (a ∷ xs) ys tracks =
    put_tracks-append xs ys (insert (record { tile_nr = a.tile_nr; quality = a.quality }) a tracks)

module _ (client_id : ℤ) (n_tiles t' q' : ℕ) (ht' : t' < 2 ^ 32) (hq' : q' < 2 ^ 32) where
  -- The map has the track of the tile `t'` and the quality `q'`.
  abbrev Found : Tracks → Type 0
  Found tracks = track_of tracks t' q' ≡ some (track_arguments client_id n_tiles t' q')

  -- The map with the track of another tile and quality, or of these.
  abbrev with_track : ℕ → ℕ → Tracks → Tracks
  with_track t q =
      insert (record { tile_nr = u32 t; quality = u32 q }) (track_arguments client_id n_tiles t q)

  with_track-here : (tracks : Tracks) → Found (with_track t' q' tracks)
  unfolding track_of
  with_track-here tracks =
      lookup-insert_self (record { tile_nr = u32 t'; quality = u32 q' })
        (track_arguments client_id n_tiles t' q') tracks

  -- Only the track of the same tile and quality goes into its place.
  with_track-Found :
      (t q : ℕ) (tracks : Tracks)
      → t < 2 ^ 32
      → q < 2 ^ 32
      → Found tracks
      → Found (with_track t q tracks)
  unfolding track_of
  with_track-Found t q tracks ht hq h = elim (Bool-cases (nat_beq t t' && nat_beq q q')) [
    | inl same ↦
        let tile : t ≡ t' = ground arith in
        let level : q ≡ q' = ground arith in rw (tile, level) (with_track-here tracks)
    | inr other ↦
        let apart : (nat_beq (u32 t) (u32 t') && nat_beq (u32 q) (u32 q')) ≡ false =
          rw (fits_u32 t ht, fits_u32 q hq, fits_u32 t' ht', fits_u32 q' hq') other in
        lookup-insert (record { tile_nr = u32 t; quality = u32 q })
          (record { tile_nr = u32 t'; quality = u32 q' }) (track_arguments client_id n_tiles t q)
          tracks
        ∙ rw apart h
  ]

  tile_tracks-Found :
      (t q left : ℕ) (tracks : Tracks)
      → t < 2 ^ 32
      → q + left ≤ 2 ^ 32
      → Found tracks
      → Found (put_tracks (tile_tracks client_id n_tiles t q left) tracks)
  unfolding put_tracks tile_tracks track_arguments
  tile_tracks-Found t q zero tracks ht hq h = h
  tile_tracks-Found t q (suc left) tracks ht hq h =
      tile_tracks-Found t (q + 1) left (with_track t q tracks) ht (omega arith)
        (with_track-Found t q tracks ht (omega arith) h)

  tile_tracks-here :
      (q left : ℕ) (tracks : Tracks)
      → q + left ≤ 2 ^ 32
      → q ≤ q'
      → q' < q + left
      → Found (put_tracks (tile_tracks client_id n_tiles t' q left) tracks)
  unfolding put_tracks tile_tracks track_arguments
  tile_tracks-here q zero tracks hq lo hi = absurd (omega arith)
  tile_tracks-here q (suc left) tracks hq lo hi = elim (dec_lt q q') [
    | yes later ↦
        tile_tracks-here (q + 1) left (with_track t' q tracks) (omega arith) (omega arith)
          (omega arith)
    | no now ↦
        let here : q ≡ q' = omega arith in
        tile_tracks-Found t' (q + 1) left (with_track t' q tracks) ht' (omega arith)
          (rw here (with_track-here tracks))
  ]

  module _ (n_qualities : ℕ) (few : n_qualities ≤ 2 ^ 32) where
    tracks_from-Found :
        (t left : ℕ) (tracks : Tracks)
        → t + left ≤ 2 ^ 32
        → Found tracks
        → Found (put_tracks (tracks_from client_id n_tiles n_qualities t left) tracks)
    unfolding tracks_from
    tracks_from-Found t zero tracks ht h = (unfold put_tracks in h)
    tracks_from-Found t (suc left) tracks ht h =
        rw
          (put_tracks-append (tile_tracks client_id n_tiles t 0 n_qualities)
            (tracks_from client_id n_tiles n_qualities (t + 1) left) tracks)
          (tracks_from-Found (t + 1) left
            (put_tracks (tile_tracks client_id n_tiles t 0 n_qualities) tracks) (omega arith)
            (tile_tracks-Found t 0 n_qualities tracks (omega arith) (omega arith) h))

    tracks_from-here :
        (t left : ℕ) (tracks : Tracks)
        → t + left ≤ 2 ^ 32
        → t ≤ t'
        → t' < t + left
        → q' < n_qualities
        → Found (put_tracks (tracks_from client_id n_tiles n_qualities t left) tracks)
    unfolding tracks_from
    tracks_from-here t zero tracks ht lo hi h = absurd (omega arith)
    tracks_from-here t (suc left) tracks ht lo hi h =
        let first = put_tracks (tile_tracks client_id n_tiles t 0 n_qualities) tracks in
        rw
          (put_tracks-append (tile_tracks client_id n_tiles t 0 n_qualities)
            (tracks_from client_id n_tiles n_qualities (t + 1) left) tracks)
          (elim (dec_lt t t') [
            | yes later ↦
                tracks_from-here (t + 1) left first (omega arith) (omega arith) (omega arith) h
            | no now ↦
                let here : t ≡ t' = omega arith in
                tracks_from-Found (t + 1) left first (omega arith) (
                  rw here (
                    tile_tracks-here 0 n_qualities tracks (omega arith) (omega arith)
                      (omega arith)))
          ])

-- The numbers of the streams are below the number of tracks.
stream_id_lt :
    (n_tiles n_qualities t q : ℕ)
    → n_tiles * n_qualities < 2 ^ 63
    → t < n_tiles
    → q < n_qualities
    → q * n_tiles + t < 2 ^ 63
stream_id_lt n_tiles n_qualities t q small ht hq = omega (
  arith,
  mul-le-mul_left {m = q + 1} {n = n_qualities} n_tiles (omega arith),
  mul_comm q n_tiles,
  mul-add n_tiles q 1,
)

-- For at most 2^32 tiles, at most 2^32 qualities and fewer than 2^63 tracks: the goroutine for
-- each tile and quality finds in `videoTracks` the track that was made for them, whose ID names
-- the client, the tile and the quality, whose stream ID is the quality times the number of tiles
-- and the tile, without an overflow, and whose payloader has them.
pub video_tracks-found :
    (client_id : ℤ) (n_tiles n_qualities t q : ℕ)
    → n_tiles ≤ 2 ^ 32
    → n_qualities ≤ 2 ^ 32
    → n_tiles * n_qualities < 2 ^ 63
    → t < n_tiles
    → q < n_qualities
    → track_of (put_tracks (video_tracks client_id n_tiles n_qualities) []) t q
      ≡ some (record {
        id = video_track_id client_id t q;
        stream_id = format_int (pos (q * n_tiles + t));
        tile_nr = t;
        quality = q;
      })
unfolding video_tracks track_arguments
video_tracks-found client_id n_tiles n_qualities t q tiles qualities small ht hq =
    tracks_from-here client_id n_tiles t q (omega arith) (omega arith) n_qualities qualities 0
      n_tiles [] (omega arith) (omega arith) (omega arith) hq
    ∙ ap some (λ i. record {
      id = video_track_id client_id t q;
      stream_id =
          format_int
            (wrap_int-pos (q * n_tiles + t) (stream_id_lt n_tiles n_qualities t q small ht hq) i);
      tile_nr = fits_u32 t (omega arith) i;
      quality = fits_u32 q (omega arith) i;
    })

length-tile_tracks :
    (client_id : ℤ) (n_tiles t q left : ℕ) → length (tile_tracks client_id n_tiles t q left) ≡ left
unfolding tile_tracks
length-tile_tracks client_id n_tiles t q zero = refl
length-tile_tracks client_id n_tiles t q (suc left) =
    ap suc (length-tile_tracks client_id n_tiles t (q + 1) left)

length-tracks_from :
    (client_id : ℤ) (n_tiles n_qualities t left : ℕ)
    → length (tracks_from client_id n_tiles n_qualities t left) ≡ left * n_qualities
unfolding tracks_from
length-tracks_from client_id n_tiles n_qualities t zero = omega arith
length-tracks_from client_id n_tiles n_qualities t (suc left) = omega (
  arith,
  length-append (tile_tracks client_id n_tiles t 0 n_qualities)
      (tracks_from client_id n_tiles n_qualities (t + 1) left),
  length-tile_tracks client_id n_tiles t 0 n_qualities,
  length-tracks_from client_id n_tiles n_qualities (t + 1) left,
)

pub length-video_tracks : (client_id : ℤ) (n m : ℕ) → length (video_tracks client_id n m) ≡ n * m
unfolding video_tracks
length-video_tracks client_id n m = length-tracks_from client_id n m 0 n

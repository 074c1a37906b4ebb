-- ===== src/Sfu/Tracks/Growing.antt =====
-- What `addTrack` and `addQualityTrack` add to the maps, and that they lose nothing.
use web_rtcsfu.Base.{
  ◌≡◌, ◌≢◌, refl, ◌∙◌, none, some, Bool-cases, inl, inr, ◌==◌, bytes_eq, nat_eq, if◌then◌else◌,
  arith,
}
use web_rtcsfu.Base.Bytes.{Bytes}
use web_rtcsfu.Base.Map.{lookup, insert, lookup-insert, lookup-insert_self, lookup-insert_kept}
use web_rtcsfu.Base.Text.{ℤ}
use web_rtcsfu.Sfu.Types.{TrackLocal, Sfu, ℤ_eq}
use web_rtcsfu.Sfu.Tracks.{add_track_local, add_quality_track, track_quality, inner}

-- No track of the maps is lost.
pub record Grows (s s' : Sfu) : Type 0 where
  pub locals : (id : Bytes) → lookup id s.track_locals ≢ none → lookup id s'.track_locals ≢ none
  pub qualities : (id : Bytes) (q : ℤ) → track_quality s id q ≢ none → track_quality s' id q ≢ none
  pub peers : s'.peer_connections ≡ s.peer_connections

pub Grows-refl : (s : Sfu) → Grows s s
Grows-refl s = record { locals = λ id h. h; qualities = λ id q h. h; peers = refl }

pub Grows-trans : (a b c : Sfu) → Grows a b → Grows b c → Grows a c
Grows-trans a b c f g = record {
  locals = λ id h. g.locals id (f.locals id h);
  qualities = λ id q h. g.qualities id q (f.qualities id q h);
  peers = g.peers ∙ f.peers;
}

pub add_track_local-Grows : (s : Sfu) (t : TrackLocal) → Grows s (add_track_local s t)
unfolding add_track_local
add_track_local-Grows s t = record {
  locals = λ id. lookup-insert_kept t.id id t s.track_locals;
  qualities = λ id q h. h;
  peers = refl;
}

-- Reading a quality back after `addQualityTrack`.
pub track_quality-add :
    (s : Sfu) (t : TrackLocal) (quality q : ℤ) (new_id id : Bytes)
    → track_quality (add_quality_track s t quality new_id) id q ≡ (
        if new_id == id
        then (if quality == q then some t else track_quality s id q)
        else track_quality s id q)
unfolding add_quality_track
track_quality-add s t quality q new_id id = elim (Bool-cases (new_id == id)) [
  | inl same ↦
      let here : new_id ≡ id = (bytes_eq.beq_iff new_id id).0 same in
      rw
        (
          lookup-insert new_id id (insert quality t (inner (lookup new_id s.track_qualities)))
              s.track_qualities,
          same,
        )
        (rw here (lookup-insert quality q t (inner (lookup id s.track_qualities))))
  | inr other ↦
      rw
        (
          lookup-insert new_id id (insert quality t (inner (lookup new_id s.track_qualities)))
              s.track_qualities,
          other,
        )
        refl
]

pub add_quality_track-Grows :
    (s : Sfu) (t : TrackLocal) (quality : ℤ) (new_id : Bytes)
    → Grows s (add_quality_track s t quality new_id)
add_quality_track-Grows s t quality new_id = record {
  locals = λ id h. unfold add_quality_track in h;
  qualities = λ id q h. rw (track_quality-add s t quality q new_id id) (ground arith);
  peers = unfold add_quality_track in refl;
}

-- A track that is added is there.
pub add_track_local-has :
    (s : Sfu) (t : TrackLocal) (id : Bytes)
    → t.id ≡ id
    → lookup id (add_track_local s t).track_locals ≢ none
unfolding add_track_local
add_track_local-has s t id e = rw (← e, lookup-insert_self t.id t s.track_locals) (λ h. cc)

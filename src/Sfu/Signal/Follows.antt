-- ===== src/Sfu/Signal/Follows.antt =====
-- How a peer may change in its turn.
use web_rtcsfu.Base.{ℕ, ◌≡◌, ◌≢◌, refl, sym, ◌∙◌, none, bytes_eq, arith, beq_ne}
use web_rtcsfu.Base.Bytes.{Bytes}
use web_rtcsfu.Base.Map.{Map, lookup, insert, remove, lookup-insert, lookup-remove}
use web_rtcsfu.Base.Text.{ℤ}
use web_rtcsfu.Sfu.Types.{Peer}

-- `q` is `p` with other senders and decisions; IDs without a sender that `Keeps` names have none after.
pub record Follows (Keeps : Bytes → Type 0) (p q : Peer) : Type 0 where
  pub same_id : q.id ≡ p.id
  pub same_connection : q.connection ≡ p.connection
  pub same_client : q.client_id ≡ p.client_id
  pub same_tiles : q.number_of_tiles ≡ p.number_of_tiles
  pub absent :
      (id : Bytes)
      → Keeps id
      → lookup id p.track_rtp_senders ≡ none
      → lookup id q.track_rtp_senders ≡ none

pub Follows-trans :
    (Keeps : Bytes → Type 0) (p q r : Peer)
    → Follows Keeps p q
    → Follows Keeps q r
    → Follows Keeps p r
Follows-trans Keeps p q r f g = record {
  same_id = g.same_id ∙ f.same_id;
  same_connection = g.same_connection ∙ f.same_connection;
  same_client = g.same_client ∙ f.same_client;
  same_tiles = g.same_tiles ∙ f.same_tiles;
  absent = λ id k e. g.absent id k (f.absent id k e);
}

pub Follows-refl : (Keeps : Bytes → Type 0) (p : Peer) → Follows Keeps p p
Follows-refl Keeps p = record {
  same_id = refl;
  same_connection = refl;
  same_client = refl;
  same_tiles = refl;
  absent = λ id k e. e;
}

pub Follows-weaken :
    (Keeps Keeps' : Bytes → Type 0) (p q : Peer)
    → ((id : Bytes) → Keeps' id → Keeps id)
    → Follows Keeps p q
    → Follows Keeps' p q
Follows-weaken Keeps Keeps' p q h f = record {
  same_id = f.same_id;
  same_connection = f.same_connection;
  same_client = f.same_client;
  same_tiles = f.same_tiles;
  absent = λ id k e. f.absent id (h id k) e;
}

pub removed-Follows :
    (p : Peer) (track_id : Bytes)
    → Follows
        (λ id. Unit {0})
        p
        (record p { track_rtp_senders = remove track_id p.track_rtp_senders })
removed-Follows p track_id = record {
  same_id = refl;
  same_connection = refl;
  same_client = refl;
  same_tiles = refl;
  absent = λ id k e. rw (lookup-remove track_id id p.track_rtp_senders) (ground arith);
}

pub inserted-Follows :
    (p : Peer) (track_id : Bytes) (sender : ℕ) (decisions : Map Bytes ℤ)
    → Follows
        (λ id. id ≢ track_id)
        p
        (record p {
          track_rtp_senders = insert track_id sender p.track_rtp_senders;
          quality_decisions = decisions;
        })
inserted-Follows p track_id sender decisions = record {
  same_id = refl;
  same_connection = refl;
  same_client = refl;
  same_tiles = refl;
  absent = λ id k e.
      rw (lookup-insert track_id id sender p.track_rtp_senders, beq_ne track_id id (λ h. k (sym h)))
        e;
}

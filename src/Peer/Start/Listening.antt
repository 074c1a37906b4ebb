-- ===== src/Peer/Start/Listening.antt =====
-- `StartListening` makes a condition variable for each tile and quality.
use web_rtcsfu.Base.{
  ℕ, zero, suc, ◌+◌, ◌≤◌, ◌<◌, ◌≡◌, refl, some, ◌==◌, Bool-cases, inl, inr, arith, dec_lt,
}
use web_rtcsfu.Base.Bytes.{u32}
use web_rtcsfu.Base.Map.{Map, lookup, insert, lookup-insert, lookup-insert_self}
use web_rtcsfu.Peer.Proxy.{
  register_qualities, register_tiles, new_proxy_connection, start_listening,
}
use web_rtcsfu.Peer.Proxy.Types.{VideoKey, key_eq}

module _ (key : VideoKey) where
  -- The key has a condition variable.
  abbrev IsWaited : Map VideoKey (Unit {0}) → Type 0
  IsWaited conds = lookup key conds ≡ some tt

  insert-IsWaited :
      (other : VideoKey) (conds : Map VideoKey (Unit {0}))
      → IsWaited conds
      → IsWaited (insert other tt conds)
  insert-IsWaited other conds h = elim (Bool-cases (other == key)) [
    | inl same ↦ rw (lookup-insert other key tt conds, same) refl
    | inr apart ↦ rw (lookup-insert other key tt conds, apart) h
  ]

  register_qualities-IsWaited :
      (tile left q : ℕ) (conds : Map VideoKey (Unit {0}))
      → IsWaited conds
      → IsWaited (register_qualities tile left q conds)
  unfolding register_qualities
  register_qualities-IsWaited tile zero q conds h = h
  register_qualities-IsWaited tile (suc left) q conds h =
      register_qualities-IsWaited tile left (q + 1) _
        (insert-IsWaited (record { tile_nr = u32 tile; quality = u32 q }) conds h)

  register_tiles-IsWaited :
      (n_qualities left t : ℕ) (conds : Map VideoKey (Unit {0}))
      → IsWaited conds
      → IsWaited (register_tiles n_qualities left t conds)
  unfolding register_tiles
  register_tiles-IsWaited n_qualities zero t conds h = h
  register_tiles-IsWaited n_qualities (suc left) t conds h =
      register_tiles-IsWaited n_qualities left (t + 1) _
        (register_qualities-IsWaited t n_qualities 0 conds h)

module _ (t' q' : ℕ) where
  abbrev key_of : VideoKey
  key_of = record { tile_nr = u32 t'; quality = u32 q' }

  register_qualities-here :
      (left q : ℕ) (conds : Map VideoKey (Unit {0}))
      → q ≤ q'
      → q' < q + left
      → IsWaited key_of (register_qualities t' left q conds)
  unfolding register_qualities
  register_qualities-here zero q conds lo hi = absurd (omega arith)
  register_qualities-here (suc left) q conds lo hi = elim (dec_lt q q') [
    | yes later ↦ register_qualities-here left (q + 1) _ (omega arith) (omega arith)
    | no now ↦
        let here : q ≡ q' = omega arith in
        register_qualities-IsWaited key_of t' left (q + 1) _
          (rw here (lookup-insert_self key_of tt conds))
  ]

  register_tiles-here :
      (n_qualities left t : ℕ) (conds : Map VideoKey (Unit {0}))
      → q' < n_qualities
      → t ≤ t'
      → t' < t + left
      → IsWaited key_of (register_tiles n_qualities left t conds)
  unfolding register_tiles
  register_tiles-here n_qualities zero t conds h lo hi = absurd (omega arith)
  register_tiles-here n_qualities (suc left) t conds h lo hi = elim (dec_lt t t') [
    | yes later ↦ register_tiles-here n_qualities left (t + 1) _ h (omega arith) (omega arith)
    | no now ↦
        let here : t ≡ t' = omega arith in
        register_tiles-IsWaited key_of n_qualities left (t + 1) _
          (rw here (register_qualities-here n_qualities 0 conds (omega arith) (omega arith)))
  ]

  pub start_listening-waited :
      (n_tiles n_qualities : ℕ)
      → t' < n_tiles
      → q' < n_qualities
      → lookup key_of (start_listening new_proxy_connection n_tiles n_qualities).cond_video
        ≡ some tt
  unfolding start_listening
  start_listening-waited n_tiles n_qualities ht hq =
      register_tiles-here n_qualities n_tiles 0 new_proxy_connection.cond_video hq (omega arith)
        (omega arith)

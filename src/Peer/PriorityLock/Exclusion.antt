-- ===== src/Peer/PriorityLock/Exclusion.antt =====
-- At most one caller is inside at a time, and no unlock is fatal.
use web_rtcsfu.Base.{
  ℕ, zero, suc, ◌≤◌, ◌≡◌, ◌≢◌, refl, Bool, true, false, none, List, [], ◌∷◌, ◌++◌, replicate, arith,
  nat_eq,
}
use web_rtcsfu.Peer.PriorityLock.{
  PriorityPreferenceLock, new_priority_preference_lock, Place, outside, low_queued, low_waiting,
  low_cleared, low_next, low_data, low_inside, low_leaving, high_announced, high_next, high_data,
  high_inside, high_leaving, high_releasing, Call, advance, System, Step, move, Reach, start, next,
}
use web_rtcsfu.Peer.PriorityLock.Balance.{
  bit, holds_data, holds_next, holds_low, counted, sum, sum-append, advance-Balanced,
}

-- Some callers, none of which has called yet.
abbrev pub idle_system : ℕ → System
idle_system n = record { lock = new_priority_preference_lock; callers = replicate n outside }

pub record IsBalanced (s : System) : Type 0 where
  pub content : sum holds_data s.callers ≡ bit s.lock.data_mutex
  pub turn : sum holds_next s.callers ≡ bit s.lock.next_to_access
  pub low : sum holds_low s.callers ≡ bit s.lock.low_priority_mutex
  pub waiting : sum counted s.callers ≡ s.lock.high_priority_waiting

sum-replicate :
    (weight : Place → ℕ) (n : ℕ) → weight outside ≡ 0 → sum weight (replicate n outside) ≡ 0
sum-replicate weight zero h = refl
sum-replicate weight (suc n) h = omega (arith, h, sum-replicate weight n h)

idle-IsBalanced : (n : ℕ) → IsBalanced (idle_system n)
unfolding new_priority_preference_lock
idle-IsBalanced n = record {
  content = sum-replicate holds_data n refl;
  turn = sum-replicate holds_next n refl;
  low = sum-replicate holds_low n refl;
  waiting = sum-replicate counted n refl;
}

Step-IsBalanced : {s t : System} → Step s t → IsBalanced s → IsBalanced t
Step-IsBalanced (move before after c l l' p p' e) h =
    let (a, b, d, w) = advance-Balanced c l p l' p' e in
    record {
      content = omega (
        arith,
        h.content,
        a,
        sum-append holds_data before (p ∷ after),
        sum-append holds_data before (p' ∷ after),
      );
      turn = omega (
        arith,
        h.turn,
        b,
        sum-append holds_next before (p ∷ after),
        sum-append holds_next before (p' ∷ after),
      );
      low = omega (
        arith,
        h.low,
        d,
        sum-append holds_low before (p ∷ after),
        sum-append holds_low before (p' ∷ after),
      );
      waiting = omega (
        arith,
        h.waiting,
        w,
        sum-append counted before (p ∷ after),
        sum-append counted before (p' ∷ after),
      );
    }

pub Reach-IsBalanced : (n : ℕ) {t : System} → Reach (idle_system n) t → IsBalanced t
Reach-IsBalanced n start = idle-IsBalanced n
Reach-IsBalanced n (next r s) = Step-IsBalanced s (Reach-IsBalanced n r)

-- Who is between `Lock` and `Unlock`, of either kind.
abbrev pub inside : Place → ℕ
inside low_inside = 1
inside high_inside = 1
inside _ = 0

pub sum_le : (v w : Place → ℕ) → ((p : Place) → v p ≤ w p) → (ps : List Place) → sum v ps ≤ sum w ps
sum_le v w h [] = omega arith
sum_le v w h (p ∷ ps) = omega (arith, h p, sum_le v w h ps)

inside_le : (p : Place) → inside p ≤ holds_data p
inside_le outside = omega arith
inside_le low_queued = omega arith
inside_le low_waiting = omega arith
inside_le low_cleared = omega arith
inside_le low_next = omega arith
inside_le low_data = omega arith
inside_le low_inside = omega arith
inside_le low_leaving = omega arith
inside_le high_announced = omega arith
inside_le high_next = omega arith
inside_le high_data = omega arith
inside_le high_inside = omega arith
inside_le high_leaving = omega arith
inside_le high_releasing = omega arith

pub bit_le : (b : Bool) → bit b ≤ 1
bit_le true = omega arith
bit_le false = omega arith

-- Whatever callers of both priorities do, and however their calls interleave, from an unused
-- `PriorityPreferenceLock` on at most one caller at a time is between its `Lock` or
-- `HighPriorityLock` and the unlock that goes with it.
pub Reach-exclusive : (n : ℕ) (t : System) → Reach (idle_system n) t → sum inside t.callers ≤ 1
Reach-exclusive n t r =
    let h = Reach-IsBalanced n r in
    omega (arith, sum_le inside holds_data inside_le t.callers, h.content, bit_le t.lock.data_mutex)

-- The calls that give something back.
abbrev pub gives_back : Place → Bool
gives_back low_data = true
gives_back low_inside = true
gives_back low_leaving = true
gives_back high_data = true
gives_back high_inside = true
gives_back high_leaving = true
gives_back _ = false

-- In any state that callers of an unused `PriorityPreferenceLock` can reach, a caller whose next
-- call unlocks a mutex can make it, and one whose next call is `Done` finds the counter of the
-- wait group above zero: no mutex is unlocked that is not locked, and the counter does not go
-- below zero. The panics of a wait group that is used again too early are others: they are in
-- `Add`, in the end of a `Wait`, and in the end of a `Done`.
pub Reach-released :
    (n : ℕ) (l : PriorityPreferenceLock) (before after : List Place) (p : Place) (c : Call)
    → Reach (idle_system n) (record { lock = l; callers = before ++ p ∷ after })
    → gives_back p ≡ true
    → advance c l p ≢ none
unfolding advance
Reach-released n l before after p c r g =
    let h = Reach-IsBalanced n r in
    released p g (omega (arith, h.content, sum-append holds_data before (p ∷ after)))
      (omega (arith, h.turn, sum-append holds_next before (p ∷ after)))
      (omega (arith, h.low, sum-append holds_low before (p ∷ after)))
      (omega (arith, h.waiting, sum-append counted before (p ∷ after)))
  where
    released :
        (p : Place)
        → gives_back p ≡ true
        → holds_data p ≤ bit l.data_mutex
        → holds_next p ≤ bit l.next_to_access
        → holds_low p ≤ bit l.low_priority_mutex
        → counted p ≤ l.high_priority_waiting
        → advance c l p ≢ none
    released low_data g a b d w = ground arith
    released low_inside g a b d w = ground arith
    released low_leaving g a b d w = ground arith
    released high_data g a b d w = ground arith
    released high_inside g a b d w = ground arith
    released high_leaving g a b d w = ground arith
    released outside g a b d w = cc
    released low_queued g a b d w = cc
    released low_waiting g a b d w = cc
    released high_releasing g a b d w = cc
    released low_cleared g a b d w = cc
    released low_next g a b d w = cc
    released high_announced g a b d w = cc
    released high_next g a b d w = cc

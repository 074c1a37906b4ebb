-- ===== src/Peer/PriorityLock/Preference.antt =====
-- How many callers of low priority get in while one of high priority waits or is inside.
use web_rtcsfu.Base.{ℕ, ◌+◌, ◌≤◌, ◌<◌, ◌≡◌, some, List, ◌∷◌, ◌++◌, arith, nat_eq}
use web_rtcsfu.Peer.PriorityLock.{
  PriorityPreferenceLock, Place, outside, low_queued, low_waiting, low_cleared, low_next, low_data,
  low_inside, low_leaving, high_announced, high_next, high_data, high_inside, high_leaving,
  high_releasing, Call, low, high, advance, System, Reach,
}
use web_rtcsfu.Peer.PriorityLock.Balance.{holds_low, sum, sum-append}
use web_rtcsfu.Peer.PriorityLock.Exclusion.{idle_system, Reach-IsBalanced, sum_le, bit_le}

-- Behind the wait for high priority, and not inside yet.
abbrev pub cleared : Place → ℕ
cleared low_cleared = 1
cleared low_next = 1
cleared low_data = 1
cleared _ = 0

-- Does a call take a caller of low priority inside?
abbrev pub enters : Place → ℕ
enters low_data = 1
enters _ = 0

-- A run through states in which the wait group is not at zero, with how often a caller of low
-- priority got in.
pub data Busy (s : System) : ℕ → System → Type 0 where
  begin : Busy s 0 s
  step :
      (n : ℕ) (before after : List Place) (l l' : PriorityPreferenceLock) (p p' : Place) (c : Call)
      → Busy s n (record { lock = l; callers = before ++ p ∷ after })
      → 0 < l.high_priority_waiting
      → advance c l p ≡ some (l', p')
      → Busy s (n + enters p) (record { lock = l'; callers = before ++ p' ∷ after })

advance-cleared :
    (c : Call) (l : PriorityPreferenceLock) (p : Place) (l' : PriorityPreferenceLock) (p' : Place)
    → 0 < l.high_priority_waiting
    → advance c l p ≡ some (l', p')
    → enters p + cleared p' ≤ cleared p
unfolding advance
advance-cleared low l outside l' p' h e = ground arith
advance-cleared high l outside l' p' h e = ground arith
advance-cleared c l low_queued l' p' h e = ground arith
advance-cleared c l low_waiting l' p' h e = ground arith
advance-cleared c l low_cleared l' p' h e = ground arith
advance-cleared c l low_next l' p' h e = ground arith
advance-cleared c l low_data l' p' h e = ground arith
advance-cleared c l low_inside l' p' h e = ground arith
advance-cleared c l low_leaving l' p' h e = ground arith
advance-cleared c l high_announced l' p' h e = ground arith
advance-cleared c l high_next l' p' h e = ground arith
advance-cleared c l high_data l' p' h e = ground arith
advance-cleared c l high_inside l' p' h e = ground arith
advance-cleared c l high_leaving l' p' h e = ground arith
advance-cleared c l high_releasing l' p' h e = ground arith

Busy-cleared :
    {s t : System} {n : ℕ} → Busy s n t → n + sum cleared t.callers ≤ sum cleared s.callers
Busy-cleared begin = omega arith
Busy-cleared (step n before after l l' p p' c run h e) = omega (
  arith,
  Busy-cleared run,
  advance-cleared c l p l' p' h e,
  sum-append cleared before (p ∷ after),
  sum-append cleared before (p' ∷ after),
)

cleared_le : (p : Place) → cleared p ≤ holds_low p
cleared_le outside = omega arith
cleared_le low_queued = omega arith
cleared_le low_waiting = omega arith
cleared_le low_cleared = omega arith
cleared_le low_next = omega arith
cleared_le low_data = omega arith
cleared_le low_inside = omega arith
cleared_le low_leaving = omega arith
cleared_le high_announced = omega arith
cleared_le high_next = omega arith
cleared_le high_data = omega arith
cleared_le high_inside = omega arith
cleared_le high_leaving = omega arith
cleared_le high_releasing = omega arith

-- From any state that callers of an unused `PriorityPreferenceLock` can reach, along any steps
-- that each start with the wait group above zero (a caller of high priority waits or is inside),
-- at most one caller of low priority gets in.
pub Busy-preferred : (m n : ℕ) (s t : System) → Reach (idle_system m) s → Busy s n t → n ≤ 1
Busy-preferred m n s t r run =
    let h = Reach-IsBalanced m r in
    omega (
      arith,
      Busy-cleared run,
      sum_le cleared holds_low cleared_le s.callers,
      h.low,
      bit_le s.lock.low_priority_mutex,
    )

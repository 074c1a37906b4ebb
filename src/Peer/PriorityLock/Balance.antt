-- ===== src/Peer/PriorityLock/Balance.antt =====
-- Each mutex is held by exactly the callers that the code says, and the wait group counts the callers
-- of high priority: one step keeps the balance.
use web_rtcsfu.Base.{ℕ, ◌+◌, ◌≡◌, Bool, true, false, some, List, [], ◌∷◌, ◌++◌, nat_eq, arith}
use web_rtcsfu.Peer.PriorityLock.{
  PriorityPreferenceLock, Place, outside, low_queued, low_waiting, low_cleared, low_next, low_data,
  low_inside, low_leaving, high_announced, high_next, high_data, high_inside, high_leaving,
  high_releasing, Call, low, high, advance,
}

abbrev pub bit : Bool → ℕ
bit true = 1
bit false = 0

-- Which callers hold what.
abbrev pub holds_data : Place → ℕ
holds_data low_data = 1
holds_data low_inside = 1
holds_data high_data = 1
holds_data high_inside = 1
holds_data _ = 0

abbrev pub holds_next : Place → ℕ
holds_next low_next = 1
holds_next low_data = 1
holds_next high_next = 1
holds_next high_data = 1
holds_next _ = 0

abbrev pub holds_low : Place → ℕ
holds_low low_queued = 1
holds_low low_waiting = 1
holds_low low_cleared = 1
holds_low low_next = 1
holds_low low_data = 1
holds_low low_inside = 1
holds_low low_leaving = 1
holds_low _ = 0

abbrev pub counted : Place → ℕ
counted high_announced = 1
counted high_next = 1
counted high_data = 1
counted high_inside = 1
counted high_leaving = 1
counted _ = 0

abbrev pub sum : (Place → ℕ) → List Place → ℕ
sum weight [] = 0
sum weight (p ∷ ps) = weight p + sum weight ps

pub sum-append :
    (weight : Place → ℕ) (xs ys : List Place)
    → sum weight (xs ++ ys) ≡ sum weight xs + sum weight ys
sum-append weight [] ys = omega arith
sum-append weight (x ∷ xs) ys = omega (arith, sum-append weight xs ys)

-- What one call adds to the lock it adds to its caller.
abbrev pub Balanced : PriorityPreferenceLock → Place → PriorityPreferenceLock → Place → Type 0
Balanced l p l' p' =
    (bit l'.data_mutex + holds_data p ≡ bit l.data_mutex + holds_data p')
    × (bit l'.next_to_access + holds_next p ≡ bit l.next_to_access + holds_next p')
    × (bit l'.low_priority_mutex + holds_low p ≡ bit l.low_priority_mutex + holds_low p')
    × (l'.high_priority_waiting + counted p ≡ l.high_priority_waiting + counted p')

pub advance-Balanced :
    (c : Call) (l : PriorityPreferenceLock) (p : Place) (l' : PriorityPreferenceLock) (p' : Place)
    → advance c l p ≡ some (l', p')
    → Balanced l p l' p'
unfolding advance
advance-Balanced low l outside l' p' e = ground arith
advance-Balanced high l outside l' p' e = ground arith
advance-Balanced c l low_queued l' p' e = ground arith
advance-Balanced c l low_waiting l' p' e = ground arith
advance-Balanced c l low_cleared l' p' e = ground arith
advance-Balanced c l low_next l' p' e = ground arith
advance-Balanced c l low_data l' p' e = ground arith
advance-Balanced c l low_inside l' p' e = ground arith
advance-Balanced c l low_leaving l' p' e = ground arith
advance-Balanced c l high_announced l' p' e = ground arith
advance-Balanced c l high_next l' p' e = ground arith
advance-Balanced c l high_data l' p' e = ground arith
advance-Balanced c l high_inside l' p' e = ground arith
advance-Balanced c l high_leaving l' p' e = ground arith
advance-Balanced c l high_releasing l' p' e = ground arith

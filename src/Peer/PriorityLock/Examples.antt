-- ===== src/Peer/PriorityLock/Examples.antt =====
-- Two callers: one of low priority is past its wait when one of high priority comes.
use web_rtcsfu.Base.{ℕ, ◌≤◌, ◌≡◌, ◌≢◌, refl, Bool, true, false, none, [], ◌∷◌, arith, nat_eq}
use web_rtcsfu.Peer.PriorityLock.{
  PriorityPreferenceLock, new_priority_preference_lock, Place, outside, low_queued, low_cleared,
  low_next, low_waiting, low_data, low_inside, high_announced, high_next, high_data, high_inside,
  high_leaving, high_releasing, low, high, advance, System, Reach, start, next, move,
}
use web_rtcsfu.Peer.PriorityLock.Balance.{sum}
use web_rtcsfu.Peer.PriorityLock.Exclusion.{idle_system, inside, Reach-exclusive, Reach-released}
use web_rtcsfu.Peer.PriorityLock.Preference.{Busy, begin, step, Busy-preferred}

-- The lock, by which mutexes are held and how many callers of high priority there are.
abbrev held : Bool → Bool → Bool → ℕ → PriorityPreferenceLock
held d n l w = record {
  data_mutex = d;
  next_to_access = n;
  low_priority_mutex = l;
  high_priority_waiting = w;
  waiters = 0;
  released = 0;
}

abbrev system : PriorityPreferenceLock → Place → Place → System
system l p q = record { lock = l; callers = p ∷ q ∷ [] }

second_queued : Reach (idle_system 2) (system (held false false true 0) outside low_queued)
unfolding advance new_priority_preference_lock
second_queued = next start (move (outside ∷ []) [] low _ _ outside low_queued refl)

second_cleared : Reach (idle_system 2) (system (held false false true 0) outside low_cleared)
unfolding advance
second_cleared = next second_queued (move (outside ∷ []) [] low _ _ low_queued low_cleared refl)

first_announced :
    Reach (idle_system 2) (system (held false false true 1) high_announced low_cleared)
unfolding advance
first_announced =
    next second_cleared (move [] (low_cleared ∷ []) high _ _ outside high_announced refl)

second_inside :
    Busy
      (system (held false false true 1) high_announced low_cleared)
      1
      (system (held true false true 1) high_announced low_inside)
unfolding advance
second_inside =
    step 0 (high_announced ∷ []) [] (held true true true 1) (held true false true 1) low_data
      low_inside low
      (step 0 (high_announced ∷ []) [] (held false true true 1) (held true true true 1) low_next
        low_data low
        (step 0 (high_announced ∷ []) [] (held false false true 1) (held false true true 1)
          low_cleared low_next low begin (omega arith) refl)
        (omega arith) refl)
      (omega arith) refl

Busy-preferred_example : 1 ≤ 1
Busy-preferred_example =
    Busy-preferred 2 1 (system (held false false true 1) high_announced low_cleared)
      (system (held true false true 1) high_announced low_inside) first_announced second_inside

second_next : Reach (idle_system 2) (system (held false true true 1) high_announced low_next)
unfolding advance
second_next = next first_announced (move (high_announced ∷ []) [] low _ _ low_cleared low_next refl)

second_data : Reach (idle_system 2) (system (held true true true 1) high_announced low_data)
unfolding advance
second_data = next second_next (move (high_announced ∷ []) [] low _ _ low_next low_data refl)

entered : Reach (idle_system 2) (system (held true false true 1) high_announced low_inside)
unfolding advance
entered = next second_data (move (high_announced ∷ []) [] low _ _ low_data low_inside refl)

Reach-exclusive_example : sum inside (high_announced ∷ low_inside ∷ []) ≤ 1
Reach-exclusive_example =
    Reach-exclusive 2 (system (held true false true 1) high_announced low_inside) entered

Reach-released_example : advance low (held true false true 1) low_inside ≢ none
Reach-released_example =
    Reach-released 2 (held true false true 1) (high_announced ∷ []) [] low_inside low entered refl

abbrev group : Bool → Bool → Bool → ℕ → ℕ → ℕ → PriorityPreferenceLock
group d n l w waiting free = record (held d n l w) { waiters = waiting; released = free }

came : Reach (idle_system 2) (system (group false false false 1 0 0) high_announced outside)
unfolding advance new_priority_preference_lock
came = next start (move [] (outside ∷ []) high _ _ outside high_announced refl)

first_next : Reach (idle_system 2) (system (group false true false 1 0 0) high_next outside)
unfolding advance
first_next = next came (move [] (outside ∷ []) high _ _ high_announced high_next refl)

first_data : Reach (idle_system 2) (system (group true true false 1 0 0) high_data outside)
unfolding advance
first_data = next first_next (move [] (outside ∷ []) high _ _ high_next high_data refl)

first_inside : Reach (idle_system 2) (system (group true false false 1 0 0) high_inside outside)
unfolding advance
first_inside = next first_data (move [] (outside ∷ []) high _ _ high_data high_inside refl)

other_queued : Reach (idle_system 2) (system (group true false true 1 0 0) high_inside low_queued)
unfolding advance
other_queued = next first_inside (move (high_inside ∷ []) [] low _ _ outside low_queued refl)

other_waits : Reach (idle_system 2) (system (group true false true 1 1 0) high_inside low_waiting)
unfolding advance
other_waits = next other_queued (move (high_inside ∷ []) [] low _ _ low_queued low_waiting refl)

first_leaves :
    Reach (idle_system 2) (system (group false false true 1 1 0) high_leaving low_waiting)
unfolding advance
first_leaves = next other_waits (move [] (low_waiting ∷ []) high _ _ high_inside high_leaving refl)

first_releases :
    Reach (idle_system 2) (system (group false false true 0 1 0) high_releasing low_waiting)
unfolding advance
first_releases =
    next first_leaves (move [] (low_waiting ∷ []) high _ _ high_leaving high_releasing refl)

first_out : Reach (idle_system 2) (system (group false false true 0 0 1) outside low_waiting)
unfolding advance
first_out = next first_releases (move [] (low_waiting ∷ []) high _ _ high_releasing outside refl)

comes_again :
    Reach (idle_system 2) (system (group false false true 1 0 1) high_announced low_waiting)
unfolding advance
comes_again = next first_out (move [] (low_waiting ∷ []) high _ _ outside high_announced refl)

-- The caller of high priority comes again before the released `Wait` has returned: it panics.
used_too_early :
    Reach (idle_system 2) (system (group false false true 1 0 1) high_announced low_waiting)
    × (advance low (group false false true 1 0 1) low_waiting ≡ none)
unfolding advance
used_too_early = (comes_again, refl)

-- ===== src/Peer/PriorityLock.antt =====
-- peer/priority_lock.go: callers of `Lock`, `Unlock`, `HighPriorityLock` and `HighPriorityUnlock` that
-- interleave at each call of a mutex or of the wait group.
pub mod Balance
pub mod Exclusion
pub mod Preference
mod Examples
use web_rtcsfu.Base.{
  ℕ, zero, suc, ◌+◌, ◌≡◌, Bool, true, false, Option, none, some, List, [], ◌∷◌, ◌++◌, if◌then◌else◌,
  ◌==◌, nat_eq, ◌&&◌, not,
}

-- `PriorityPreferenceLock`: whether each mutex is held, and the state of the wait group: its counter,
-- how many calls of `Wait` are registered, and how many of them are released.
pub record PriorityPreferenceLock : Type 0 where
  pub data_mutex : Bool
  pub next_to_access : Bool
  pub low_priority_mutex : Bool
  pub high_priority_waiting : ℕ
  pub waiters : ℕ
  pub released : ℕ

pub new_priority_preference_lock : PriorityPreferenceLock
new_priority_preference_lock = record {
  data_mutex = false;
  next_to_access = false;
  low_priority_mutex = false;
  high_priority_waiting = 0;
  waiters = 0;
  released = 0;
}

-- Where a caller is: behind which call of `Lock` and `Unlock`, or of the pair for high priority.
pub data Place : Type 0 where
  outside : Place
  low_queued : Place
  low_waiting : Place
  low_cleared : Place
  low_next : Place
  low_data : Place
  low_inside : Place
  low_leaving : Place
  high_announced : Place
  high_next : Place
  high_data : Place
  high_inside : Place
  high_leaving : Place
  high_releasing : Place

-- What a caller outside asks for next.
pub data Call : Type 0 where
  low : Call
  high : Call

-- `Add(1)` panics if the counter was 0 while a `Wait` is registered.
abbrev pub add_one : PriorityPreferenceLock → Option (PriorityPreferenceLock × Place)
add_one l =
    if l.high_priority_waiting == 0 && not (l.waiters == 0)
    then none
    else some (record l { high_priority_waiting = l.high_priority_waiting + 1 }, high_announced)

-- `Wait` returns at 0; otherwise it is registered.
abbrev pub wait : PriorityPreferenceLock → PriorityPreferenceLock × Place
wait l =
    if l.high_priority_waiting == 0
    then (l, low_cleared)
    else (record l { waiters = l.waiters + 1 }, low_waiting)

-- A `Wait` that is released panics if the wait group has been used again by then.
abbrev pub wake_up : PriorityPreferenceLock → ℕ → Option (PriorityPreferenceLock × Place)
wake_up l zero = none
wake_up l (suc n) =
    if l.high_priority_waiting == 0 && (l.waiters == 0)
    then some (record l { released = n }, low_cleared)
    else none

-- `Done` panics at 0; at its end it releases who waits, if the counter is 0.
abbrev pub done : PriorityPreferenceLock → ℕ → Option (PriorityPreferenceLock × Place)
done l zero = none
done l (suc n) =
    let l' : PriorityPreferenceLock = record l { high_priority_waiting = n } in
    if n == 0 && not (l.waiters == 0) then some (l', high_releasing) else some (l', outside)

-- Releasing panics if `Add` has been called in between.
abbrev pub release : PriorityPreferenceLock → Option (PriorityPreferenceLock × Place)
release l =
    if l.high_priority_waiting == 0
    then some (record l { waiters = 0; released = l.released + l.waiters }, outside)
    else none

-- The next call of one caller, and of the wait group the next atomic access: `none` where it blocks,
-- and where it panics.
pub advance : Call → PriorityPreferenceLock → Place → Option (PriorityPreferenceLock × Place)
advance low l outside =
    if l.low_priority_mutex then none else some (record l { low_priority_mutex = true }, low_queued)
advance high l outside = add_one l
advance c l low_queued = some (wait l)
advance c l low_waiting = wake_up l l.released
advance c l low_cleared =
    if l.next_to_access then none else some (record l { next_to_access = true }, low_next)
advance c l low_next =
    if l.data_mutex then none else some (record l { data_mutex = true }, low_data)
advance c l low_data =
    if l.next_to_access then some (record l { next_to_access = false }, low_inside) else none
advance c l low_inside =
    if l.data_mutex then some (record l { data_mutex = false }, low_leaving) else none
advance c l low_leaving =
    if l.low_priority_mutex then some (record l { low_priority_mutex = false }, outside) else none
advance c l high_announced =
    if l.next_to_access then none else some (record l { next_to_access = true }, high_next)
advance c l high_next =
    if l.data_mutex then none else some (record l { data_mutex = true }, high_data)
advance c l high_data =
    if l.next_to_access then some (record l { next_to_access = false }, high_inside) else none
advance c l high_inside =
    if l.data_mutex then some (record l { data_mutex = false }, high_leaving) else none
advance c l high_leaving = done l l.high_priority_waiting
advance c l high_releasing = release l

pub record System : Type 0 where
  pub lock : PriorityPreferenceLock
  pub callers : List Place

-- One caller, anywhere among the others, makes its next call.
pub data Step : System → System → Type 0 where
  move :
      (before after : List Place) (c : Call) (l l' : PriorityPreferenceLock) (p p' : Place)
      → advance c l p ≡ some (l', p')
      → Step
          (record { lock = l; callers = before ++ p ∷ after })
          (record { lock = l'; callers = before ++ p' ∷ after })

pub data Reach (s : System) : System → Type 0 where
  start : Reach s s
  next : {t u : System} → Reach s t → Step t u → Reach s u

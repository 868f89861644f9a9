-- ===== src/Event/State.antt =====
-- runtime_event_state.go: `StateEvent`, an event that runs through four states.
-- The counter is a uint32; its atomic accesses are single steps here.
use runtimelua.Common.{ℕ, zero, suc, ◌+◌, ◌≤◌, ◌≡◌, refl, Bool, not, arith, ◌==◌, if◌then◌else◌}
use Prim.Native.Nat.{min}

abbrev pub event_state_initialize : ℕ
event_state_initialize = 0

abbrev pub event_state_progress : ℕ
event_state_progress = 1

abbrev pub event_state_finalize : ℕ
event_state_finalize = 2

abbrev pub event_state_complete : ℕ
event_state_complete = 3

pub record StateEvent : Type 0 where
  pub value : ℕ

unfoldable pub load : StateEvent → ℕ
load e = e.value

unfoldable pub store : StateEvent → ℕ → StateEvent
store e v = record e { value = v }

unfoldable pub valid : StateEvent → Bool
unfolding load
valid e = not (load e == event_state_complete)

unfoldable pub continue : StateEvent → Bool
unfolding load
continue e = not (load e == event_state_complete)

unfoldable pub update : StateEvent → StateEvent
unfolding load store
update e =
    if load e == event_state_initialize
    then store e event_state_progress
    else if load e == event_state_progress
    then store e event_state_finalize
    else if load e == event_state_finalize
    then store e event_state_complete
    else e

unfoldable pub stop : StateEvent → StateEvent
unfolding store
stop e = store e event_state_complete

-- `n` updates in a row.
pub updates : ℕ → StateEvent → StateEvent
updates zero e = e
updates (suc n) e = updates n (update e)

-- From a declared state, `n` updates go `n` states further and stop at COMPLETE; the event is
-- valid, and wants to continue, as long as that state is not reached.
pub updates_lem :
    (n : ℕ) (e : StateEvent)
    → e.value ≤ event_state_complete
    → ((updates n e).value ≡ min (e.value + n) event_state_complete)
      × (valid (updates n e) ≡ not (min (e.value + n) event_state_complete == event_state_complete))
      × (continue (updates n e) ≡ valid (updates n e))
unfolding updates update valid continue
updates_lem zero e h = ground arith
updates_lem (suc n) e h = ground (arith, updates_lem n (update e))

-- A stopped event stays complete under any number of updates.
pub updates-stop : (n : ℕ) (e : StateEvent) → updates n (stop e) ≡ stop e
unfolding updates stop update
updates-stop zero e = refl
updates-stop (suc n) e = updates-stop n e

-- ===== src/Tests/Timers.antt =====
-- A timer's turns.
use runtimelua.Common.{ℕ, ◌≡◌, refl, [], ◌∷◌, some, true, arith, codes, get_elem?}
use runtimelua.Common.Word.{IsNat64}
use runtimelua.Lua.{nil, bool, is_true}
use runtimelua.Event.Object.{timer, LocalTimerEvent}
use runtimelua.Runtime.World.{World, put, log_call}
use runtimelua.Runtime.Api.{perform_all, returns}
use runtimelua.Runtime.Exec.{pcall, finish_call, returned, raised}
use runtimelua.Runtime.Update.{count_down}
use runtimelua.Runtime.Process.{turn, next, hangs}
use runtimelua.Runtime.Timers.{IsArmed, due, before}
use runtimelua.Runtime.Firing.{turn_rearms}
use runtimelua.Runtime.Flood.{turn_floods}
use runtimelua.Tests.World.{yes_env, raising_env, flood_env, timer_of, world_of}

abbrev pub once : LocalTimerEvent
once = timer_of 66 0

abbrev loops : LocalTimerEvent
loops = timer_of 10 1000

abbrev pub later : LocalTimerEvent
later = timer_of 100 0

pub timer_of-IsArmed :
    (d p : ℕ) → IsNat64 d → IsNat64 p → IsArmed (world_of (timer (timer_of d p))) 0 (timer_of d p)
timer_of-IsArmed d p h k = record { at = refl; flag = refl; delay_small = h; period_small = k }

-- The world in which the callback of a timer of `world_of` ends, if it does nothing.
abbrev pub fired : LocalTimerEvent → World
fired t = log_call (due t) (before 0 66 t (world_of (timer t)))

fired_yes :
    (t : LocalTimerEvent)
    → pcall yes_env (due t) (before 0 66 t (world_of (timer t))) ≡ returned (bool true) (fired t)
unfolding pcall finish_call perform_all
fired_yes t = refl

pub fired_error :
    (t : LocalTimerEvent)
    → pcall raising_env (due t) (before 0 66 t (world_of (timer t)))
      ≡ raised (codes "boom") (fired t)
unfolding pcall finish_call perform_all
fired_error t = refl

pub short : IsNat64 66
short = omega arith

still_loops : get_elem? (fired loops).store 0 ≡ some (timer (count_down 66 loops))
unfolding put log_call
still_loops = refl

turn_rearms_example :
    turn yes_env 66 0 [] (world_of (timer loops))
    ≡ next (0 ∷ []) (put 0 (timer (timer_of 1000 1000)) (fired loops))
unfolding is_true
turn_rearms_example =
    turn_rearms yes_env 0 66 [] (world_of (timer loops)) loops
      (timer_of-IsArmed 10 1000 (omega arith) (omega arith)) short (bool true) (fired loops)
      (omega arith) (fired_yes loops) refl still_loops

turn_floods_example : turn flood_env 66 0 [] (world_of (timer once)) ≡ hangs
turn_floods_example =
    turn_floods flood_env 0 66 [] (world_of (timer once)) once
      (timer_of-IsArmed 66 0 (omega arith) (omega arith)) short 129 1 7 (returns nil) (omega arith)
      (omega arith) (omega arith) refl

-- ===== src/Runtime/Firing.antt =====
-- When a timer fires, how often, and whether it stays in the queue.
use runtimelua.Common.{
  ℕ, ◌≤◌, ◌≡◌, refl, ◌⊎◌, inl, inr, true, false, some, List, [], ◌∷◌, ◌++◌, arith, get_elem?,
  get_elem?-set_self, lt-of_get_elem?, if◌then◌else◌, ltb, Bytes,
}
use runtimelua.Common.Word.{IsNat64, is_pos64}
use runtimelua.Lua.{LValue, is_true}
use runtimelua.Event.Timer
use runtimelua.Event.Object.{LocalTimerEvent, timer, continue}
use runtimelua.Runtime.World.{World, put}
use runtimelua.Runtime.Api.{Env}
use runtimelua.Runtime.Exec.{returned, raised, pcall}
use runtimelua.Runtime.Update.{count_down, finish_timer, rearm}
use runtimelua.Runtime.Process.{next, aborted, turn, after_update, keep}
use runtimelua.Runtime.Effect.{stopped}
use runtimelua.Runtime.Calls.{by_return, by_error}
use runtimelua.Runtime.Timers.{IsArmed, due, before, seen_after, turn-due}

-- The timer after a callback that returned `v`.
abbrev pub rearmed : LValue → LocalTimerEvent → LocalTimerEvent
rearmed v u = record u {
  timer =
      if is_true v then record u.timer { delay = u.timer.period } else Timer.store u.timer false;
}

module _ (env : Env) (a elapse : ℕ) (swap : List ℕ) (w : World) (t : LocalTimerEvent)
    (armed : IsArmed w a t) (short : IsNat64 elapse) where
  turn_fired :
      (v : LValue) (w' : World) (u : LocalTimerEvent)
      → t.delay ≤ elapse
      → pcall env (due t) (before a elapse t w) ≡ returned v w'
      → get_elem? w'.store a ≡ some (timer u)
      → turn env elapse a swap w ≡ (
          if Timer.continue (rearmed v u).timer
          then next (swap ++ (a ∷ [])) (put a (timer (rearmed v u)) w')
          else next swap (put a (timer (rearmed v u)) w'))
  unfolding after_update finish_timer rearm keep put continue
  turn_fired v w' u d h at = ground (
    arith,
    turn-due env a elapse swap w t armed short d,
    lt-of_get_elem? w'.store a (timer u) at,
    get_elem?-set_self w'.store a (timer (rearmed v u)),
  )

  -- A one-shot timer, as `delay` makes it: in the turn in which it is due its callback runs once,
  -- and whatever that does and returns, the timer leaves the queue.
  pub delay_once :
      (v : LValue) (w' : World)
      → t.period ≡ 0
      → t.delay ≤ elapse
      → pcall env (due t) (before a elapse t w) ≡ returned v w'
      → (w'' : World) × (turn env elapse a swap w ≡ next swap w'') × (w''.calls ≡ due t ∷ w.calls)
  unfolding count_down put Timer.continue Timer.store Timer.stop is_pos64
  delay_once v w' p d h =
      let (logged, at) = seen_after env a elapse swap w t armed short h (by_return v) in
      elim at [
        | inl going ↦ (
          put a (timer (rearmed v (count_down elapse t))) w',
          ground (arith, turn_fired v w' (count_down elapse t) d h going),
          logged,
        )
        | inr halted ↦ (
          put a (timer (rearmed v (stopped (count_down elapse t)))) w',
          ground (arith, turn_fired v w' (stopped (count_down elapse t)) d h halted),
          logged,
        )
      ]

  -- A timer whose callback returned true and did not stop it is armed again with its period, and
  -- stays in the queue if and only if that is positive.
  pub turn_rearms :
      (v : LValue) (w' : World)
      → t.delay ≤ elapse
      → pcall env (due t) (before a elapse t w) ≡ returned v w'
      → is_true v ≡ true
      → get_elem? w'.store a ≡ some (timer (count_down elapse t))
      → turn env elapse a swap w
        ≡ next
            (if ltb 0 t.period then swap ++ (a ∷ []) else swap)
            (put a (timer (record t { timer = record t.timer { delay = t.period } })) w')
  unfolding count_down Timer.continue is_pos64
  turn_rearms v w' d h yes_true at =
      ground (arith, turn_fired v w' (count_down elapse t) d h at, armed.flag, armed.period_small)

  -- A timer that its callback stopped, or whose callback did not return true, leaves the queue with
  -- its flag cleared.
  pub turn_stops :
      (v : LValue) (w' : World)
      → t.delay ≤ elapse
      → pcall env (due t) (before a elapse t w) ≡ returned v w'
      → (is_true v ≡ false) ⊎ (get_elem? w'.store a ≡ some (timer (stopped (count_down elapse t))))
      → (u : LocalTimerEvent) × (turn env elapse a swap w ≡ next swap (put a (timer u) w'))
        × (u.value ≡ 0)
        × (u.fn ≡ t.fn)
  unfolding count_down Timer.continue Timer.store Timer.stop
  turn_stops v w' d h why =
      let (logged, at) = seen_after env a elapse swap w t armed short h (by_return v) in
      elim at [
        | inl going ↦ (
          rearmed v (count_down elapse t),
          ground (arith, turn_fired v w' (count_down elapse t) d h going, why),
          ground (arith, why, going),
          refl,
        )
        | inr halted ↦ (
          rearmed v (stopped (count_down elapse t)),
          ground (arith, turn_fired v w' (stopped (count_down elapse t)) d h halted),
          ground arith,
          refl,
        )
      ]

  -- An error in a due timer's callback ends the loop with that error.
  pub turn_fails :
      (x : Bytes) (w' : World)
      → t.delay ≤ elapse
      → pcall env (due t) (before a elapse t w) ≡ raised x w'
      → (turn env elapse a swap w ≡ aborted x w') × (w'.calls ≡ due t ∷ w.calls)
  unfolding after_update finish_timer
  turn_fails x w' d h = (
    ground (arith, turn-due env a elapse swap w t armed short d),
    (seen_after env a elapse swap w t armed short h (by_error x)).0,
  )

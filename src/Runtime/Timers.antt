-- ===== src/Runtime/Timers.antt =====
-- What happens to a timer in its turn of the event loop.
use runtimelua.Common.{
  ℕ, ◌-◌, ◌≤◌, ◌<◌, ◌≡◌, ◌⊎◌, some, List, [], ◌∷◌, ◌++◌, arith, get_elem?, get_elem?-set_self,
  lt-of_get_elem?,
}
use runtimelua.Common.Word.{IsNat64, is_pos64-sub64, not-is_pos64-sub64}
use runtimelua.Event.Object.{LocalTimerEvent, timer, valid, continue}
use runtimelua.Runtime.World.{World, Call, callback, put, log_call}
use runtimelua.Runtime.Api.{Env}
use runtimelua.Runtime.Exec.{Called, pcall}
use runtimelua.Runtime.Update.{count_down, finish_timer, update}
use runtimelua.Runtime.Process.{next, turn, after_update}
use runtimelua.Runtime.Effect.{stopped}
use runtimelua.Runtime.Calls.{EndsIn, pcall-Effect}

-- A timer in the queue that is neither stopped nor out of range.
pub record IsArmed (w : World) (a : ℕ) (t : LocalTimerEvent) : Type 0 where
  pub at : get_elem? w.store a ≡ some (timer t)
  pub flag : t.value ≡ 1
  pub delay_small : IsNat64 t.delay
  pub period_small : IsNat64 t.period

-- What the callback of a timer is called with: the timer's own table.
abbrev pub due : LocalTimerEvent → Call
due t = callback t.fn (t.bind ∷ [])

-- The world in which it is called.
abbrev pub before : ℕ → ℕ → LocalTimerEvent → World → World
before a elapse t w = put a (timer (count_down elapse t)) w

module _ (env : Env) (a elapse : ℕ) (swap : List ℕ) (w : World) (t : LocalTimerEvent)
    (armed : IsArmed w a t) (short : IsNat64 elapse) where
  -- A timer whose delay has not run out runs nothing: its turn only counts the delay down, and the
  -- timer stays in the queue.
  pub turn_waits :
      elapse < t.delay
      → turn env elapse a swap w
        ≡ next
            (swap ++ (a ∷ []))
            (put a (timer (record t { timer = record t.timer { delay = t.delay - elapse } })) w)
  unfolding turn update put valid continue
  turn_waits h = ground (
    arith,
    armed.at,
    armed.flag,
    is_pos64-sub64 t.delay elapse armed.delay_small short h,
    lt-of_get_elem? w.store a (timer t) armed.at,
    get_elem?-set_self w.store a
        (timer (record t { timer = record t.timer { delay = t.delay - elapse } })),
  )

  counted : get_elem? (before a elapse t w).store a ≡ some (timer (count_down elapse t))
  unfolding put
  counted =
      get_elem?-set_self w.store a (timer (count_down elapse t))
        (lt-of_get_elem? w.store a (timer t) armed.at)

  -- Of what a callback does, the loop sees at its timer whether it was stopped.
  pub seen_after :
      {r : Called} {w' : World}
      → pcall env (due t) (before a elapse t w) ≡ r
      → EndsIn w' r
      → (w'.calls ≡ due t ∷ w.calls)
        × ((get_elem? w'.store a ≡ some (timer (count_down elapse t)))
            ⊎ (get_elem? w'.store a ≡ some (timer (stopped (count_down elapse t)))))
  unfolding put log_call
  seen_after h e =
      let effect = pcall-Effect env (due t) (before a elapse t w) h e in
      let (e', at, how) = effect.kept a (timer (count_down elapse t)) counted in
      (effect.same_calls, ground (arith, how, at))

  -- A timer that is due is handed to its script in its turn: the turn is decided by how the call ends.
  pub turn-due :
      t.delay ≤ elapse
      → turn env elapse a swap w
        ≡ after_update a swap (finish_timer a (pcall env (due t) (before a elapse t w)))
  unfolding turn update valid
  turn-due h =
      ground
        (arith, armed.at, armed.flag, not-is_pos64-sub64 t.delay elapse armed.delay_small short h)

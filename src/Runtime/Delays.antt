-- ===== src/Runtime/Delays.antt =====
-- `delay` of module_event.go, from the call of a script to the call of its function.
use runtimelua.Common.{
  ℕ, ◌+◌, ◌*◌, ◌%◌, ◌^◌, ◌≤◌, ◌<◌, ◌≡◌, refl, ap, ◌∙◌, some, List, [], ◌∷◌, ◌++◌, arith, length,
}
use runtimelua.Common.Word.{IsNat64, mul64}
use runtimelua.Lua.{LValue, handle}
use runtimelua.Event.Object.{LocalTimerEvent, timer}
use runtimelua.Event.Timer
use runtimelua.Runtime.World.{World, callback, put, send}
use runtimelua.Runtime.Api.{Env, delay, new_timer, second}
use runtimelua.Runtime.Exec.{pcall, returned}
use runtimelua.Runtime.Process.{Sorter, Loop, running, select, incoming}
use runtimelua.Runtime.Schedule.{IsAlone, ticks, ticks_once, ticks_wait, sum, with_timer, waited}
use runtimelua.Runtime.Arrivals.{sent_event, taken_event, send-idle, select-idle, taken_event_at}
use runtimelua.Runtime.Timers.{before}

-- The timer that `delay` makes in a world, and the world and the loop that the event goes through.
abbrev pub delayed : ℕ → ℕ → World → LocalTimerEvent
delayed sec fn w = record {
  timer = record { value = 1; delay = second * sec; period = 0 };
  bind = handle (length w.store);
  fn = fn;
}

abbrev pub sent_delay : ℕ → ℕ → World → World
sent_delay sec fn w = sent_event (timer (delayed sec fn w)) w

abbrev pub taken_delay : ℕ → ℕ → Loop → Loop
taken_delay sec fn l = taken_event (timer (delayed sec fn l.world)) l

-- The world in which the function is called: the timer has waited, and the time of the last tick is
-- taken off.
abbrev pub due_world : ℕ → ℕ → ℕ → ℕ → Loop → World
due_world sec fn early e l =
    let a = length l.world.store in
    let t = waited early (delayed sec fn l.world) in
    before a e t (with_timer a t (taken_delay sec fn l)).world

delay_sends :
    (sec fn : ℕ) (w : World)
    → w.channel ≡ []
    → IsNat64 (second * sec)
    → delay sec fn w ≡ some (sent_delay sec fn w)
unfolding delay new_timer mul64 Timer.store
delay_sends sec fn w empty fits =
    let fit : second * sec % 2 ^ 64 ≡ second * sec = omega arith in
    ap
      (λ d.
        send
          (timer
            (record (delayed sec fn w) { timer = record { value = 1; delay = d; period = 0 } }))
          w)
      fit
    ∙ send-idle (timer (delayed sec fn w)) w empty

taken_delay-IsAlone :
    (sec fn : ℕ) (l : Loop)
    → IsNat64 (second * sec)
    → IsAlone (length l.world.store) (delayed sec fn l.world) (taken_delay sec fn l)
taken_delay-IsAlone sec fn l fits = record {
  alone = refl;
  armed = record {
    at = taken_event_at (timer (delayed sec fn l.world)) l;
    flag = refl;
    delay_small = fits;
    period_small = omega arith;
  };
}

-- In a loop with an empty queue and an empty channel, a script calls delay, whose time in
-- nanoseconds is an int64. The call sends a timer, and the next round of select takes it. Over any
-- ticks whose times together are less than the delay, nothing is called; in the tick in which they
-- reach it, if the function returns when it is called, the only call is one of this function with
-- the table of the timer; and no tick after it calls anything.
pub delay_on_time :
    (s : Sorter) (env : Env) (sec fn : ℕ) (l : Loop) (es : List ℕ) (e : ℕ) (v : LValue) (w' : World)
    → l.queue ≡ []
    → l.world.channel ≡ []
    → IsNat64 (second * sec)
    → IsNat64 e
    → sum es < second * sec
    → second * sec ≤ sum es + e
    → pcall env (callback fn (handle (length l.world.store) ∷ [])) (due_world sec fn (sum es) e l)
      ≡ returned v w'
    → (delay sec fn l.world ≡ some (sent_delay sec fn l.world))
      × (select s env incoming (record l { world = sent_delay sec fn l.world })
          ≡ some (running (taken_delay sec fn l)))
      × (m : Loop) × (ticks s env es (running (taken_delay sec fn l)) ≡ running m)
      × (m.world.calls ≡ l.world.calls)
      × (l' : Loop) × ((later : List ℕ)
          → ticks s env (es ++ (e ∷ later)) (running (taken_delay sec fn l)) ≡ running l')
      × (l'.queue ≡ [])
      × (l'.world.calls ≡ callback fn (handle (length l.world.store) ∷ []) ∷ l.world.calls)
unfolding put
delay_on_time s env sec fn l es e v w' idle empty fits short early late call =
    let a = length l.world.store in
    let t = delayed sec fn l.world in
    let k = taken_delay-IsAlone sec fn l fits in
    let (l', fires, gone, called) =
      ticks_once s env a es e t (taken_delay sec fn l) v w' k short refl early late call in
    (
      delay_sends sec fn l.world empty fits,
      select-idle s env (timer t) l idle,
      with_timer a (waited (sum es) t) (taken_delay sec fn l),
      ticks_wait s env a es t (taken_delay sec fn l) k early,
      refl,
      l',
      fires,
      gone,
      called,
    )

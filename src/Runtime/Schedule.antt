-- ===== src/Runtime/Schedule.antt =====
-- When a timer that is alone in the queue fires, over any number of ticks (runtime.go,
-- module_event.go).
use runtimelua.Common.{
  ℕ, ◌+◌, ◌-◌, ◌≤◌, ◌<◌, ◌≡◌, refl, sym, ap, subst, ◌∙◌, List, [], ◌∷◌, ◌++◌, arith,
  get_elem?-set_self, set-set, set-get_elem?, lt-of_get_elem?, Perm,
}
use mathlib.Core.List.{mem-cons, mem-cons_self, not-mem-nil}
use mathlib.Core.List.Perm
use mathlib.Core.Logic.Or
use native.Mathlib.Decide.{ℕ_discrete}
use mathlib.Core.HLevel.{hedberg}
use runtimelua.Common.Word.{IsNat64}
use runtimelua.Event.Object.{LocalTimerEvent, timer}
use runtimelua.Runtime.World.{World, put}
use runtimelua.Runtime.Api.{Env}
use runtimelua.Runtime.Process.{
  Sorter, turn, next, resume, drain, Loop, Process, running, finish_tick, tick, priority_at,
}
use runtimelua.Lua.{LValue}
use runtimelua.Runtime.Exec.{pcall, returned}
use runtimelua.Runtime.Firing.{delay_once}
use runtimelua.Runtime.Timers.{IsArmed, before, due, turn_waits}

-- A list with one element has one order.
Perm-singleton : (a : ℕ) (xs : List ℕ) → Perm xs (a ∷ []) → xs ≡ a ∷ []
Perm-singleton a [] p = absurd (not-mem-nil ((Perm.mem_iff p).1 mem-cons_self))
Perm-singleton a (x ∷ []) p =
    ap (λ b. b ∷ [])
      (Or.elim (hedberg ℕ_discrete x a) (mem-cons.0 ((Perm.mem_iff p).0 mem-cons_self)) (λ e. e)
        (λ m. absurd (not-mem-nil m)))
Perm-singleton a (x ∷ y ∷ xs) p = absurd (let e = Perm.length-eq p in cc)

-- Ticks in a row, each with the time since the one before; a loop that does not run has no more.
abbrev pub next_tick : Sorter → Env → ℕ → Process → Process
next_tick s env e (running l) = tick s env e l
next_tick s env e p = p

abbrev pub ticks : Sorter → Env → List ℕ → Process → Process
ticks s env [] p = p
ticks s env (e ∷ es) p = ticks s env es (next_tick s env e p)

abbrev pub sum : List ℕ → ℕ
sum [] = 0
sum (e ∷ es) = e + sum es

-- The timer after the time `e`, in which it did not run out.
abbrev pub waited : ℕ → LocalTimerEvent → LocalTimerEvent
waited e t = record t { timer = record t.timer { delay = t.delay - e } }

-- The loop with the timer at `a` replaced.
abbrev pub with_timer : ℕ → LocalTimerEvent → Loop → Loop
with_timer a t l = record l { world = put a (timer t) l.world }

-- The timer at `a` is armed, and alone in the queue.
pub record IsAlone (a : ℕ) (t : LocalTimerEvent) (l : Loop) : Type 0 where
  pub alone : l.queue ≡ a ∷ []
  pub armed : IsArmed l.world a t

with_timer-IsAlone :
    (a : ℕ) (t u : LocalTimerEvent) (l : Loop)
    → IsAlone a t l
    → u.value ≡ 1
    → IsNat64 u.delay
    → IsNat64 u.period
    → IsAlone a u (with_timer a u l)
unfolding put
with_timer-IsAlone a t u l h set short long = record {
  alone = h.alone;
  armed = record {
    at =
        get_elem?-set_self l.world.store a (timer u)
          (lt-of_get_elem? l.world.store a (timer t) h.armed.at);
    flag = set;
    delay_small = short;
    period_small = long;
  };
}

-- A tick of such a loop is the turn of the timer.
pub tick_alone :
    (s : Sorter) (env : Env) (elapse a : ℕ) (l : Loop)
    → l.queue ≡ a ∷ []
    → tick s env elapse l ≡ finish_tick l (resume next (turn env elapse a [] l.world))
unfolding tick drain
tick_alone s env elapse a l h =
    ap (λ q. finish_tick l (drain env elapse q [] l.world))
      (Perm-singleton a (s.sort (priority_at l.world) l.queue) (
        subst (Perm (s.sort (priority_at l.world) l.queue)) h
          (s.sort-perm (priority_at l.world) l.queue)))

-- With an empty queue, a tick does nothing.
tick_idle :
    (s : Sorter) (env : Env) (elapse : ℕ) (l : Loop)
    → l.queue ≡ []
    → tick s env elapse l ≡ running l
unfolding tick drain finish_tick
tick_idle s env elapse l h =
    ap (λ q. finish_tick l (drain env elapse q [] l.world))
      (Perm.eq-nil (
        subst (Perm (s.sort (priority_at l.world) l.queue)) h
          (s.sort-perm (priority_at l.world) l.queue)))
    ∙ ap (λ q. running (record l { queue = q })) (sym h)

ticks_idle :
    (s : Sorter) (env : Env) (es : List ℕ) (l : Loop)
    → l.queue ≡ []
    → ticks s env es (running l) ≡ running l
ticks_idle s env [] l h = refl
ticks_idle s env (e ∷ es) l h =
    ap (ticks s env es) (tick_idle s env e l h) ∙ ticks_idle s env es l h

pub ticks_append :
    (s : Sorter) (env : Env) (es ds : List ℕ) (p : Process)
    → ticks s env (es ++ ds) p ≡ ticks s env ds (ticks s env es p)
ticks_append s env [] ds p = refl
ticks_append s env (e ∷ es) ds p = ticks_append s env es ds (next_tick s env e p)

-- The last of two writes of a timer counts.
with_timer-with_timer :
    (a : ℕ) (t u : LocalTimerEvent) (l : Loop)
    → with_timer a u (with_timer a t l) ≡ with_timer a u l
unfolding put
with_timer-with_timer a t u l =
    ap (λ st. record l { world = record l.world { store = st } })
      (set-set l.world.store a (timer t) (timer u))

waited-waited : (d e : ℕ) (t : LocalTimerEvent) → waited d (waited e t) ≡ waited (e + d) t
waited-waited d e t =
    let same : t.delay - e - d ≡ t.delay - (e + d) = omega arith in
    ap (λ n. record t { timer = record t.timer { delay = n } }) same

module _ (s : Sorter) (env : Env) (a : ℕ) where
  -- A tick that comes too early only counts the delay down.
  pub tick_waits :
      (elapse : ℕ) (t : LocalTimerEvent) (l : Loop)
      → IsAlone a t l
      → IsNat64 elapse
      → elapse < t.delay
      → tick s env elapse l ≡ running (with_timer a (waited elapse t) l)
  unfolding resume finish_tick
  tick_waits elapse t l h short early =
      tick_alone s env elapse a l h.alone
      ∙ ap (λ r. finish_tick l (resume next r))
          (turn_waits env a elapse [] l.world t h.armed short early)
      ∙ ap (λ q. running (record (with_timer a (waited elapse t) l) { queue = q })) (sym h.alone)

  pub waited-IsAlone :
      (elapse : ℕ) (t : LocalTimerEvent) (l : Loop)
      → IsAlone a t l
      → IsAlone a (waited elapse t) (with_timer a (waited elapse t) l)
  waited-IsAlone elapse t l h =
      let k = h.armed in
      with_timer-IsAlone a t (waited elapse t) l h k.flag (omega (arith, k.delay_small))
        k.period_small

  -- And so do several, whose times together are less than the delay.
  pub ticks_wait :
      (es : List ℕ) (t : LocalTimerEvent) (l : Loop)
      → IsAlone a t l
      → sum es < t.delay
      → ticks s env es (running l) ≡ running (with_timer a (waited (sum es) t) l)
  unfolding put
  ticks_wait [] t l h early =
      ap (λ st. running (record l { world = record l.world { store = st } }))
        (sym (set-get_elem? l.world.store a (timer t) h.armed.at))
      ∙ let same : t.delay ≡ t.delay - 0 = omega arith in
        ap (λ d. running (with_timer a (record t { timer = record t.timer { delay = d } }) l)) same
  ticks_wait (e ∷ es) t l h early =
      let k = h.armed in
      ap (ticks s env es)
        (tick_waits e t l h (omega (arith, k.delay_small, early)) (omega (arith, early)))
      ∙ ticks_wait es (waited e t) (with_timer a (waited e t) l) (waited-IsAlone e t l h)
          (omega (arith, early))
      ∙ ap running (
          with_timer-with_timer a (waited e t) (waited (sum es) (waited e t)) l
          ∙ ap (λ u. with_timer a u l) (waited-waited (sum es) e t))

  -- A timer with period 0 in the queue alone. In all ticks but the last of some, whose times
  -- together are less than the delay, it only waits. In the tick in which they reach the delay its
  -- callback is called, if that returns when it is called; and the timer leaves the queue, so
  -- that no further tick calls anything.
  pub ticks_once :
      (es : List ℕ) (e : ℕ) (t : LocalTimerEvent) (l : Loop) (v : LValue) (w' : World)
      → IsAlone a t l
      → IsNat64 e
      → t.period ≡ 0
      → sum es < t.delay
      → t.delay ≤ sum es + e
      → pcall env
          (due t)
          (before a e (waited (sum es) t) (with_timer a (waited (sum es) t) l).world)
        ≡ returned v w'
      → (l' : Loop) × ((later : List ℕ) → ticks s env (es ++ (e ∷ later)) (running l) ≡ running l')
        × (l'.queue ≡ [])
        × (l'.world.calls ≡ due t ∷ l.world.calls)
  unfolding put resume finish_tick
  ticks_once es e t l v w' h short once early late call =
      let u = waited (sum es) t in
      let m = with_timer a u l in
      let k = waited-IsAlone (sum es) t l h in
      let (w'', fires, logged) =
        delay_once env a e [] m.world u k.armed short v w' once (omega arith) call in
      (
        record l { queue = []; world = w'' },
        λ later.
            ticks_append s env es (e ∷ later) (running l)
            ∙ ap (ticks s env (e ∷ later)) (ticks_wait es t l h early)
            ∙ ap (ticks s env later)
                (tick_alone s env e a m k.alone ∙ ap (λ r. finish_tick m (resume next r)) fires)
            ∙ ticks_idle s env later (record l { queue = []; world = w'' }) refl,
        refl,
        logged,
      )

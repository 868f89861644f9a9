-- ===== src/Runtime/Rate.antt =====
-- How often the function of `loop` is called (module_event.go, runtime.go).
use runtimelua.Common.{
  ℕ, zero, suc, ◌+◌, ◌*◌, ◌≤◌, ◌<◌, ◌≡◌, refl, ap, ◌∙◌, true, some, List, [], ◌∷◌, ◌++◌, arith,
  replicate, ltb, if◌then◌else◌, get_elem?, get_elem?-set_self, lt-of_get_elem?,
}
use native.Mathlib.Nat.{mul-le-mul_right}
use runtimelua.Common.Word.{IsNat64}
use runtimelua.Lua.{LValue, is_true}
use runtimelua.Event.Object.{LocalTimerEvent, timer}
use runtimelua.Runtime.World.{World, put}
use runtimelua.Runtime.Api.{Env}
use runtimelua.Runtime.Exec.{pcall, returned}
use runtimelua.Runtime.Process.{Sorter, Process, next, resume, Loop, running, finish_tick, tick}
use runtimelua.Runtime.Calls.{by_return}
use runtimelua.Runtime.Timers.{before, due, seen_after}
use runtimelua.Runtime.Firing.{turn_rearms}
use runtimelua.Runtime.Update.{count_down}
use runtimelua.Runtime.Schedule.{
  IsAlone, sum, tick_alone, ticks, ticks_append, ticks_wait, waited, waited-IsAlone, with_timer,
}

-- The function of the timer at `a` returns true whenever it is called, and leaves this timer as it
-- is; it may do anything else.
abbrev pub Repeats : Env → ℕ → LocalTimerEvent → Type 0
Repeats env a t =
    (w : World) (u : LocalTimerEvent)
    → get_elem? w.store a ≡ some (timer u)
    → (v : LValue) × (w' : World) × (pcall env (due t) w ≡ returned v w')
      × (is_true v ≡ true)
      × (get_elem? w'.store a ≡ some (timer u))

-- The timer with another delay.
abbrev pub at_delay : ℕ → LocalTimerEvent → LocalTimerEvent
at_delay d t = record t { timer = record t.timer { delay = d } }

replicate-add :
    {A : Type 0} (m n : ℕ) (x : A) → replicate (m + n) x ≡ replicate m x ++ replicate n x
replicate-add zero n x = let e : zero + n ≡ n = omega arith in ap (λ k. replicate k x) e
replicate-add (suc m) n x =
    let e : suc m + n ≡ suc (m + n) = omega arith in
    ap (λ k. replicate k x) e ∙ ap (λ xs. x ∷ xs) (replicate-add m n x)

replicate-snoc :
    {A : Type 0} (n : ℕ) (x : A) (xs : List A)
    → replicate n x ++ (x ∷ xs) ≡ x ∷ (replicate n x ++ xs)
replicate-snoc zero x xs = refl
replicate-snoc (suc n) x xs = ap (λ ys. x ∷ ys) (replicate-snoc n x xs)

sum-replicate : (n e : ℕ) → sum (replicate n e) ≡ n * e
sum-replicate zero e = omega arith
sum-replicate (suc n) e = ground (arith, sum-replicate n e)

module _ (s : Sorter) (env : Env) (a e : ℕ) (short : IsNat64 e) where
  -- A tick in which the delay has run out: one call, and the delay is the period again.
  tick_again :
      (t : LocalTimerEvent) (l : Loop)
      → IsAlone a t l
      → Repeats env a t
      → 0 < t.period
      → t.delay ≤ e
      → (l' : Loop) × (tick s env e l ≡ running l')
        × IsAlone a (at_delay t.period t) l'
        × (l'.world.calls ≡ due t ∷ l.world.calls)
  unfolding put resume finish_tick
  tick_again t l h again repeats late =
      let counted =
        get_elem?-set_self l.world.store a (timer (count_down e t))
          (lt-of_get_elem? l.world.store a (timer t) h.armed.at) in
      let (v, w', call, yes_true, same) = again (before a e t l.world) (count_down e t) counted in
      let w'' = put a (timer (at_delay t.period t)) w' in
      let positive : ltb 0 t.period ≡ true = ground arith in
      (
        record l { queue = a ∷ []; world = w'' },
        tick_alone s env e a l h.alone
            ∙ ap (λ r. finish_tick l (resume next r))
                (turn_rearms env a e [] l.world t h.armed short v w' late call yes_true same)
            ∙ ap (λ b. running (record l { queue = if b then a ∷ [] else []; world = w'' }))
                positive,
        record {
          alone = refl;
          armed = record {
            at =
                get_elem?-set_self w'.store a (timer (at_delay t.period t))
                  (lt-of_get_elem? w'.store a (timer (count_down e t)) same);
            flag = h.armed.flag;
            delay_small = h.armed.period_small;
            period_small = h.armed.period_small;
          };
        },
        (seen_after env a e [] l.world t h.armed short call (by_return v)).0,
      )

  -- As many even ticks as the delay lasts for.
  even_wait :
      (n : ℕ) (t : LocalTimerEvent) (l : Loop)
      → IsAlone a t l
      → n * e < t.delay
      → ticks s env (replicate n e) (running l)
        ≡ running (with_timer a (waited (sum (replicate n e)) t) l)
  even_wait n t l h early =
      ticks_wait s env a (replicate n e) t l h (omega (arith, sum-replicate n e))

  split_ticks :
      (m n : ℕ) (p : Process)
      → ticks s env (replicate (m + n) e) p
        ≡ ticks s env (replicate n e) (ticks s env (replicate m e) p)
  split_ticks m n p =
      ap (λ es. ticks s env es p) (replicate-add m n e)
      ∙ ticks_append s env (replicate m e) (replicate n e) p

  -- A timer in the queue alone whose delay runs out in the next tick, and whose function returns true
  -- and leaves it as it is. The ticks come after even times, of which q are less than the period,
  -- and one more reaches it. Then the function is called in the first tick and in each q + 1st tick
  -- after it, and in no other: after 1 + k * (q + 1) + r ticks, with r at most q, k + 1 times.
  pub loop_rate :
      (q k r : ℕ) (t : LocalTimerEvent) (l : Loop)
      → IsAlone a t l
      → Repeats env a t
      → t.delay ≤ e
      → q * e < t.period
      → t.period ≤ suc q * e
      → r ≤ q
      → (l' : Loop) × (ticks s env (replicate (suc (k * suc q + r)) e) (running l) ≡ running l')
        × (l'.world.calls ≡ replicate (suc k) (due t) ++ l.world.calls)
  unfolding put
  loop_rate q zero r t l h again late below above rest =
      let (l', fires, h', called) = tick_again t l h again (omega (arith, below)) late in
      let none_left : zero * suc q + r ≡ r = omega arith in
      (
        with_timer a (waited (sum (replicate r e)) (at_delay t.period t)) l',
        ap (λ n. ticks s env (replicate n e) (tick s env e l)) none_left
            ∙ ap (ticks s env (replicate r e)) fires
            ∙ even_wait r (at_delay t.period t) l' h'
                (omega (arith, below, mul-le-mul_right e rest)),
        called,
      )
  loop_rate q (suc k) r t l h again late below above rest =
      let (l', fires, h', called) = tick_again t l h again (omega (arith, below)) late in
      let t' = waited (sum (replicate q e)) (at_delay t.period t) in
      let (l'', goes_on, all) =
        loop_rate q k r t' (with_timer a t' l')
          (waited-IsAlone s env a (sum (replicate q e)) (at_delay t.period t) l' h') again
          (omega (arith, above, sum-replicate q e)) below above rest in
      let split : suc k * suc q + r ≡ q + suc (k * suc q + r) = omega arith in
      (
        l'',
        ap (λ n. ticks s env (replicate n e) (tick s env e l)) split
            ∙ ap (ticks s env (replicate (q + suc (k * suc q + r)) e)) fires
            ∙ split_ticks q (suc (k * suc q + r)) (running l')
            ∙ ap (ticks s env (replicate (suc (k * suc q + r)) e))
                (even_wait q (at_delay t.period t) l' h' below)
            ∙ goes_on,
        all
            ∙ ap (λ cs. replicate (suc k) (due t) ++ cs) called
            ∙ replicate-snoc (suc k) (due t) l.world.calls,
      )

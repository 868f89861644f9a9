-- ===== src/Runtime/Rounds.antt =====
-- The invariant along the event loop.
use runtimelua.Common.{
  ℕ, ◌<◌, ◌≡◌, refl, ap, subst, inl, inr, some, List, [], ◌∷◌, arith, length, get_elem?-of_lt,
  All-append, All-perm, Bool-cases, some_inj,
}
use native.Mathlib.Bridge.{le_prop}
use runtimelua.Event.Object.{Event, valid, continue}
use runtimelua.Runtime.World.{World}
use runtimelua.Runtime.Api.{Env}
use runtimelua.Runtime.Exec.{Updated, updated, failed, blocked, fault}
use runtimelua.Runtime.Process.{
  Sorter, Turn, next, aborted, hangs, crashes, keep, after_update, take_turn, turn, resume, drain,
  Loop, Process, running, closed, hung, crashed, finish_tick, tick, Select, cancelled, timeout,
  info, incoming, receive, select, priority_at,
}
use runtimelua.Runtime.Effect.{InStore, InStore-mono}
use runtimelua.Runtime.Globals.{KeepsPackage}
use runtimelua.Runtime.Invariant.{IsWorld, Follows, Follows-refl, Follows-trans, UpdateSound}
use runtimelua.Runtime.Sound.{update-Sound}

-- What a round leaves: a world in order, and a queue of events of the store.
abbrev TurnSound : World → Turn → Type 0
TurnSound w (next swap w') = Follows w w' × InStore w' swap
TurnSound w (aborted x w') = Follows w w'
TurnSound w hangs = Unit
TurnSound w crashes = ⊥

keep-Sound :
    (a : ℕ) (swap : List ℕ) (w w' : World) (e : Event)
    → Follows w w'
    → InStore w' swap
    → a < length w'.store
    → TurnSound w (keep a swap w' (some e))
unfolding keep
keep-Sound a swap w w' e f k h = elim (Bool-cases (continue e)) [
  | inl t ↦ rw t (f, All-append (λ b. b < length w'.store) swap (a ∷ []) k (h, tt))
  | inr t ↦ rw t (f, k)
]

after_update-Sound :
    (a : ℕ) (swap : List ℕ) (w : World) (r : Updated)
    → InStore w swap
    → a < length w.store
    → UpdateSound w r
    → TurnSound w (after_update a swap r)
unfolding after_update
after_update-Sound a swap w (updated w') k h f =
    let below : a < length w'.store = omega (arith, f.grows) in
    let (e, at) = get_elem?-of_lt w'.store a below in
    rw at (keep-Sound a swap w w' e f (InStore-mono w w' swap f.grows k) below)
after_update-Sound a swap w (failed x w') k h f = f
after_update-Sound a swap w blocked k h f = tt
after_update-Sound a swap w fault k h f = f

turn-Sound :
    (env : Env) (safe : KeepsPackage env) (a elapse : ℕ) (swap : List ℕ) (w : World)
    → IsWorld w
    → InStore w swap
    → a < length w.store
    → TurnSound w (turn env elapse a swap w)
unfolding turn take_turn
turn-Sound env safe a elapse swap w i k h =
    let (e, at) = get_elem?-of_lt w.store a h in
    elim (Bool-cases (valid e)) [
      | inl t ↦
          rw (at, turn)
            (rw t (after_update-Sound a swap w _ k h (update-Sound env safe a elapse e w i at)))
      | inr t ↦ rw (at, turn) (rw t (Follows-refl w i, k))
    ]

resume-Sound :
    (env : Env) (elapse : ℕ) (queue : List ℕ) (w : World) (r : Turn)
    → ((swap : List ℕ) (w' : World)
        → Follows w w'
        → InStore w' swap
        → TurnSound w (drain env elapse queue swap w'))
    → TurnSound w r
    → TurnSound w (resume (drain env elapse queue) r)
unfolding resume
resume-Sound env elapse queue w (next swap w') rest f = rest swap w' f.0 f.1
resume-Sound env elapse queue w (aborted x w') rest f = f
resume-Sound env elapse queue w hangs rest f = tt
resume-Sound env elapse queue w crashes rest f = f

TurnSound-trans : (u v : World) (r : Turn) → Follows u v → TurnSound v r → TurnSound u r
TurnSound-trans u v (next swap w) f g = (Follows-trans u v w f g.0, g.1)
TurnSound-trans u v (aborted x w) f g = Follows-trans u v w f g
TurnSound-trans u v hangs f g = tt
TurnSound-trans u v crashes f g = g

drain-Sound :
    (env : Env) (safe : KeepsPackage env) (elapse : ℕ) (queue swap : List ℕ) (w : World)
    → IsWorld w
    → InStore w queue
    → InStore w swap
    → TurnSound w (drain env elapse queue swap w)
unfolding drain
drain-Sound env safe elapse [] swap w i q k = (Follows-refl w i, k)
drain-Sound env safe elapse (a ∷ queue) swap w i q k =
    resume-Sound env elapse queue w _
      (λ swap' w' f k'. TurnSound-trans w w' _ f (
        drain-Sound env safe elapse queue swap' w' f.is_world (InStore-mono w w' queue f.grows q.1)
          k'))
      (turn-Sound env safe a elapse swap w i k q.0)

-- The loop holds only events of the store, in a world in order.
pub record IsLoop (l : Loop) : Type 0 where
  pub is_world : IsWorld l.world
  pub queued : InStore l.world l.queue

abbrev pub IsProcess : Process → Type 0
IsProcess (running l) = IsLoop l
IsProcess (closed l) = IsWorld l.world
IsProcess hung = Unit
IsProcess crashed = ⊥

finish_tick-IsProcess : (l : Loop) (r : Turn) → TurnSound l.world r → IsProcess (finish_tick l r)
unfolding finish_tick
finish_tick-IsProcess l (next swap w) f = record { is_world = f.0.is_world; queued = f.1 }
finish_tick-IsProcess l (aborted x w) f = f.is_world
finish_tick-IsProcess l hangs f = tt
finish_tick-IsProcess l crashes f = f

pub tick-IsProcess :
    (s : Sorter) (env : Env) (safe : KeepsPackage env) (elapse : ℕ) (l : Loop)
    → IsLoop l
    → IsProcess (tick s env elapse l)
unfolding tick
tick-IsProcess s env safe elapse l i = finish_tick-IsProcess l _ (
    drain-Sound env safe elapse _ [] l.world i.is_world
      (All-perm (λ a. a < length l.world.store) (λ a. le_prop) _ l.queue
        (s.sort-perm (priority_at l.world) l.queue) i.queued)
      tt)

receive-IsProcess :
    (l : Loop) (xs : List ℕ) (p : Process)
    → IsLoop l
    → l.world.channel ≡ xs
    → receive l xs ≡ some p
    → IsProcess p
unfolding receive
receive-IsProcess l [] p i e h = absurd (ground (arith, h))
receive-IsProcess l (a ∷ rest) p i e h =
    let held : InStore l.world (a ∷ rest) = subst (InStore l.world) e i.is_world.in_store in
    subst IsProcess (some_inj h) (record {
      is_world = record {
        bounded = omega (arith, i.is_world.bounded, ap length e);
        in_store = held.1;
        events = i.is_world.events;
        packaged = i.is_world.packaged;
      };
      queued = All-append (λ b. b < length l.world.store) l.queue (a ∷ []) i.queued (held.0, tt);
    })

-- No round of the loop panics: from a loop in order, the case that `select` takes leads to a loop in
-- order, to a closed one with its world in order, or to one that blocks.
pub select-IsProcess :
    (s : Sorter) (env : Env) (safe : KeepsPackage env) (c : Select) (l : Loop) (p : Process)
    → IsLoop l
    → select s env c l ≡ some p
    → IsProcess p
unfolding select
select-IsProcess s env safe cancelled l p i h = elim (Bool-cases l.world.done) [
  | inl e ↦ let is : closed l ≡ p = ground (arith, h, e) in subst IsProcess is i.is_world
  | inr e ↦ absurd (ground (arith, h, e))
]
select-IsProcess s env safe (timeout elapse) l p i h =
    subst IsProcess (some_inj h) (tick-IsProcess s env safe elapse l i)
select-IsProcess s env safe info l p i h = subst IsProcess (some_inj h) i
select-IsProcess s env safe incoming l p i h = receive-IsProcess l l.world.channel p i refl h

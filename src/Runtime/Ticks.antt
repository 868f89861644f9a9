-- ===== src/Runtime/Ticks.antt =====
-- What one tick makes of the queue.
use runtimelua.Common.{
  ℕ, ◌≤◌, ◌≡◌, refl, sym, ap, subst, ◌∙◌, ◌⊎◌, inl, inr, Option, none, some, true, List, [], ◌∷◌,
  ◌++◌, arith, get_elem?, Bytes, Bool-cases, Option-cases, Perm,
}
use mathlib.Core.Path.{fun_ext}
use mathlib.Core.List.{Sublistᴰ, append_assoc, append-nil, Pairwise}
use runtimelua.Event.Object.{Event, valid, continue}
use runtimelua.Runtime.World.{World}
use runtimelua.Runtime.Api.{Env}
use runtimelua.Runtime.Exec.{Updated, updated, failed, blocked, fault}
use runtimelua.Runtime.Update.{update}
use runtimelua.Runtime.Process.{
  Sorter, Turn, next, aborted, hangs, crashes, keep, after_update, take_turn, turn, resume, drain,
  Loop, running, closed, finish_tick, tick, priority_at,
}

resume-resume :
    (f g : List ℕ → World → Turn) (r : Turn)
    → resume (λ s w. resume g (f s w)) r ≡ resume g (resume f r)
unfolding resume
resume-resume f g (next swap w) = refl
resume-resume f g (aborted x w) = refl
resume-resume f g hangs = refl
resume-resume f g crashes = refl

-- The events of a queue have their turns in order, the later ones only if the earlier ones all came
-- to their end.
pub drain-append :
    (env : Env) (elapse : ℕ) (pre post swap : List ℕ) (w : World)
    → drain env elapse (pre ++ post) swap w
      ≡ resume (drain env elapse post) (drain env elapse pre swap w)
unfolding drain
drain-append env elapse [] post swap w = unfold resume in refl
drain-append env elapse (a ∷ pre) post swap w =
    ap (λ f. resume f (turn env elapse a swap w))
      (fun_ext (λ s. fun_ext (λ v. drain-append env elapse pre post s v)))
    ∙ resume-resume (drain env elapse pre) (drain env elapse post) (turn env elapse a swap w)

-- If the events that the sort puts before an event all come to their end, this event is valid, and
-- its update fails: the tick closes the loop with the error of the update, an empty queue and the
-- world of the update, and the events behind it have no turn.
pub tick_aborts :
    (s : Sorter) (env : Env) (elapse a : ℕ) (l : Loop) (pre post swap : List ℕ) (w w' : World)
    (e : Event) (x : Bytes)
    → s.sort (priority_at l.world) l.queue ≡ pre ++ (a ∷ post)
    → drain env elapse pre [] l.world ≡ next swap w
    → get_elem? w.store a ≡ some e
    → valid e ≡ true
    → update env a elapse e w ≡ failed x w'
    → tick s env elapse l ≡ closed (record l { queue = []; world = w'; errors = x ∷ l.errors })
unfolding tick finish_tick resume drain turn take_turn after_update
tick_aborts s env elapse a l pre post swap w w' e x order before at is_valid fails =
    let fails' : turn env elapse a swap w ≡ aborted x w' =
      ap (take_turn env elapse a swap w) at ∙ rw is_valid (ap (after_update a swap) fails) in
    ground (arith, drain-append env elapse pre (a ∷ post) [] l.world)

-- What a round may leave of the queue to swap in.
abbrev Keeps : ℕ → List ℕ → Turn → Type 0
Keeps a swap (next swap' w) = (swap' ≡ swap) ⊎ (swap' ≡ swap ++ (a ∷ []))
Keeps a swap (aborted x w) = Unit
Keeps a swap hangs = Unit
Keeps a swap crashes = Unit

after_update-Keeps : (a : ℕ) (swap : List ℕ) (r : Updated) → Keeps a swap (after_update a swap r)
unfolding after_update keep
after_update-Keeps a swap (updated w) = by_event (get_elem? w.store a)
  where
    by_event : (o : Option Event) → Keeps a swap (keep a swap w o)
    by_event none = tt
    by_event (some e) = elim (Bool-cases (continue e)) [
      | inl t ↦ rw t (inr refl)
      | inr t ↦ rw t (inl refl)
    ]
after_update-Keeps a swap (failed x w) = tt
after_update-Keeps a swap blocked = tt
after_update-Keeps a swap fault = tt

turn-Keeps :
    (env : Env) (elapse a : ℕ) (swap : List ℕ) (w : World) → Keeps a swap (turn env elapse a swap w)
unfolding turn take_turn
turn-Keeps env elapse a swap w = elim (Option-cases (get_elem? w.store a)) [
  | inl h ↦ rw (h, turn) tt
  | inr (e, h) ↦ elim (Bool-cases (valid e)) [
    | inl t ↦ rw (h, turn) (rw t (after_update-Keeps a swap (update env a elapse e w)))
    | inr t ↦ rw (h, turn) (rw t (inl refl))
  ]
]

-- The queue to swap in is the old one with some of the events behind it, in the same order.
abbrev Selects : List ℕ → List ℕ → Turn → Type 0
Selects queue swap (next swap' w) = (kept : List ℕ) × (swap' ≡ swap ++ kept) × Sublistᴰ kept queue
Selects queue swap (aborted x w) = Unit
Selects queue swap hangs = Unit
Selects queue swap crashes = Unit

Selects-cons :
    (a : ℕ) (queue swap swap' : List ℕ) (r : Turn)
    → (swap' ≡ swap) ⊎ (swap' ≡ swap ++ (a ∷ []))
    → Selects queue swap' r
    → Selects (a ∷ queue) swap r
Selects-cons a queue swap swap' (next s w) (inl e) (kept, is, sub) =
    (kept, is ∙ ap (λ t. t ++ kept) e, Sublistᴰ.cons sub)
Selects-cons a queue swap swap' (next s w) (inr e) (kept, is, sub) = (
  a ∷ kept,
  is ∙ ap (λ t. t ++ kept) e ∙ append_assoc swap (a ∷ []) kept,
  Sublistᴰ.cons-cons refl sub,
)
Selects-cons a queue swap swap' (aborted x w) e k = tt
Selects-cons a queue swap swap' hangs e k = tt
Selects-cons a queue swap swap' crashes e k = tt

drain-Selects :
    (env : Env) (elapse : ℕ) (queue swap : List ℕ) (w : World)
    → Selects queue swap (drain env elapse queue swap w)
unfolding drain
drain-Selects env elapse [] swap w = ([], sym (append-nil swap), Sublistᴰ.slnil)
drain-Selects env elapse (a ∷ queue) swap w =
    resumed (turn env elapse a swap w) (turn-Keeps env elapse a swap w)
      (drain-Selects env elapse queue)
  where
    resumed :
        (r : Turn)
        → Keeps a swap r
        → ((s : List ℕ) (v : World) → Selects queue s (drain env elapse queue s v))
        → Selects (a ∷ queue) swap (resume (drain env elapse queue) r)
    resumed (next s v) k rest = unfold resume in Selects-cons a queue swap s _ k (rest s v)
    resumed (aborted x v) k rest = unfold resume in tt
    resumed hangs k rest = unfold resume in tt
    resumed crashes k rest = unfold resume in tt

-- After a tick that leaves the loop running, the queue holds some of the events that it held, each
-- no more often than before, in the order of the sort: none is added or repeated. No error is
-- recorded.
pub tick_queue :
    (s : Sorter) (env : Env) (elapse : ℕ) (l l' : Loop)
    → tick s env elapse l ≡ running l'
    → (order : List ℕ) × Perm order l.queue
      × Pairwise (λ a b. priority_at l.world a ≤ priority_at l.world b) order
      × Sublistᴰ l'.queue order
      × (l'.errors ≡ l.errors)
unfolding tick finish_tick
tick_queue s env elapse l l' h =
    by_turn (drain env elapse sorted [] l.world) (drain-Selects env elapse sorted [] l.world) h
  where
    sorted : List ℕ
    sorted = s.sort (priority_at l.world) l.queue

    by_turn :
        (r : Turn)
        → Selects sorted [] r
        → finish_tick l r ≡ running l'
        → (order : List ℕ) × Perm order l.queue
          × Pairwise (λ a b. priority_at l.world a ≤ priority_at l.world b) order
          × Sublistᴰ l'.queue order
          × (l'.errors ≡ l.errors)
    by_turn (next swap w) (kept, is, sub) e = (
      sorted,
      s.sort-perm (priority_at l.world) l.queue,
      s.sort-IsSorted (priority_at l.world) l.queue,
      subst (λ q. Sublistᴰ q sorted) (ground (arith, is, e)) sub,
      ground (arith, e),
    )
    by_turn (aborted x w) k e = absurd (ground (arith, e))
    by_turn hangs k e = absurd (ground (arith, e))
    by_turn crashes k e = absurd (ground (arith, e))

-- ===== src/Runtime/Process.antt =====
-- `Runtime.process` (runtime.go): the event loop, as a function of the case that `select` takes.
-- The 66 ms timer and the 1 s timer of the `select` are the cases `timeout` and `info`.
use runtimelua.Common.{
  ℕ, ◌≤◌, Option, none, some, List, [], ◌∷◌, ◌++◌, Bytes, get_elem?, if◌then◌else◌, Perm,
}
use runtimelua.Event.Object.{Event, valid, continue, priority}
use runtimelua.Runtime.World.{World}
use runtimelua.Runtime.Api.{Env}
use runtimelua.Runtime.Exec.{Updated, updated, failed, blocked, fault}
use runtimelua.Runtime.Update.{update}
use mathlib.Core.List.{Pairwise}

-- `sort.Sort` on addresses with the given priorities: what its documentation promises, for a `Less`
-- that compares numbers. It is not promised to be stable.
pub record Sorter : Type 0 where
  pub sort : (ℕ → ℕ) → List ℕ → List ℕ
  pub sort-perm : (key : ℕ → ℕ) (xs : List ℕ) → Perm (sort key xs) xs
  pub sort-IsSorted : (key : ℕ → ℕ) (xs : List ℕ) → Pairwise (λ a b. key a ≤ key b) (sort key xs)

-- `s[i].Priority()`.
unfoldable pub priority_at : World → ℕ → ℕ
priority_at w a = elim (get_elem? w.store a) [ none ↦ 0 | some e ↦ priority e ]

-- One round of `for len(eventQueue) > 0`, or all of them: the queue to swap in and the world, the
-- error that ended the loop, or no end.
pub data Turn : Type 0 where
  next : List ℕ → World → Turn
  aborted : Bytes → World → Turn
  hangs : Turn
  crashes : Turn

-- `else if e.Continue() { eventSwapQueue = append(eventSwapQueue, e) }`, on the event as the update
-- left it.
unfoldable pub keep : ℕ → List ℕ → World → Option Event → Turn
keep a swap w none = crashes
keep a swap w (some e) = if continue e then next (swap ++ (a ∷ [])) w else next swap w

unfoldable pub after_update : ℕ → List ℕ → Updated → Turn
unfolding keep
after_update a swap (updated w) = keep a swap w (get_elem? w.store a)
after_update a swap (failed x w) = aborted x w
after_update a swap blocked = hangs
after_update a swap fault = crashes

unfoldable pub take_turn : Env → ℕ → ℕ → List ℕ → World → Option Event → Turn
unfolding after_update
take_turn env elapse a swap w none = crashes
take_turn env elapse a swap w (some e) =
    if valid e then after_update a swap (update env a elapse e w) else next swap w

unfoldable pub turn : Env → ℕ → ℕ → List ℕ → World → Turn
unfolding take_turn
turn env elapse a swap w = take_turn env elapse a swap w (get_elem? w.store a)

unfoldable pub resume : (List ℕ → World → Turn) → Turn → Turn
resume rest (next swap w) = rest swap w
resume rest (aborted x w) = aborted x w
resume rest hangs = hangs
resume rest crashes = crashes

-- `for len(eventQueue) > 0 { … }`.
unfoldable pub drain : Env → ℕ → List ℕ → List ℕ → World → Turn
unfolding resume
drain env elapse [] swap w = next swap w
drain env elapse (a ∷ queue) swap w = resume (drain env elapse queue) (turn env elapse a swap w)

-- `errors` are the errors given to the logger or to `evaluate`, newest first.
pub record Loop : Type 0 where
  pub queue : List ℕ
  pub world : World
  pub errors : List Bytes

-- A loop that runs, one that has closed the virtual machine and called `wg.Done`, one whose
-- goroutine blocks for good, and one that has panicked.
pub data Process : Type 0 where
  running : Loop → Process
  closed : Loop → Process
  hung : Process
  crashed : Process

unfoldable pub finish_tick : Loop → Turn → Process
finish_tick l (next swap w) = running (record l { queue = swap; world = w })
finish_tick l (aborted x w) = closed (record l { queue = []; world = w; errors = x ∷ l.errors })
finish_tick l hangs = hung
finish_tick l crashes = crashed

-- The case of the 66 ms timer.
unfoldable pub tick : Sorter → Env → ℕ → Loop → Process
unfolding drain finish_tick
tick s env elapse l =
    finish_tick l (drain env elapse (s.sort (priority_at l.world) l.queue) [] l.world)

pub data Select : Type 0 where
  cancelled : Select
  timeout : ℕ → Select
  info : Select
  incoming : Select

-- `case e = <-r.EventQueue`, which waits while the channel is empty.
unfoldable pub receive : Loop → List ℕ → Option Process
receive l [] = none
receive l (a ∷ rest) =
    some (
      running (record l { queue = l.queue ++ (a ∷ []); world = record l.world { channel = rest } }))

-- One round of the outer loop; `none` if the case is not ready.
unfoldable pub select : Sorter → Env → Select → Loop → Option Process
unfolding receive tick
select s env cancelled l = if l.world.done then some (closed l) else none
select s env (timeout elapse) l = some (tick s env elapse l)
select s env info l = some (running l)
select s env incoming l = receive l l.world.channel

-- ===== src/Tests/Loop.antt =====
-- Events that run once, ticks, and the loop among the other goroutines.
use runtimelua.Common.{ℕ, ◌≤◌, ◌≡◌, refl, List, [], ◌∷◌, ◌++◌, true, codes, Perm}
use mathlib.Core.List.{Pairwise, Sublistᴰ}
use runtimelua.Common.Word.{sub64, is_pos64}
use runtimelua.Lua.{bool, string, number, table, end}
use runtimelua.Event.State.{event_state_initialize, StateEvent}
use runtimelua.Event.Object.{
  LocalTimerEvent, PubSubEvent, Response, read, timer, pub_sub, http_request, valid, continue,
}
use runtimelua.Runtime.World.{World, Call, callback, put, log_call, send}
use runtimelua.Runtime.Api.{new_request, send_request, perform_all, new_timer}
use runtimelua.Runtime.Exec.{pcall, finish_call, returned, failed}
use runtimelua.Runtime.Update.{count_down, update, update_timer, finish_timer}
use runtimelua.Runtime.Process.{
  turn, take_turn, after_update, keep, resume, finish_tick, next, drain, tick, Loop, Process,
  running, closed, priority_at,
}
use runtimelua.Runtime.Ticks.{tick_queue, tick_aborts}
use runtimelua.Runtime.Asked.{asked, answered_world, request_reaches_callback}
use runtimelua.Runtime.OneShot.{message_once, empty_reply, handled}
use runtimelua.Runtime.System.{new_world, start}
use runtimelua.Tests.World.{yes_env, raising_env, timer_of, world_of}
use runtimelua.Tests.Sort.{sorter}
use runtimelua.Tests.Timers.{once, later, fired}

abbrev message : PubSubEvent
message = record { base = record { value = 0 }; func = 5; arguments = string (codes "hi") ∷ [] }

called_yes : (c : Call) (w : World) → pcall yes_env c w ≡ returned (bool true) (log_call c w)
unfolding pcall finish_call perform_all
called_yes c w = refl

message_once_example :
    let w =
      put 0
        (pub_sub (handled message))
        (log_call (callback 5 (string (codes "hi") ∷ [])) (world_of (pub_sub message))) in
    (turn yes_env 66 0 [] (world_of (pub_sub message)) ≡ next [] w)
    × (w.calls ≡ callback 5 (string (codes "hi") ∷ []) ∷ [])
    × ((later_on : ℕ) (queue : List ℕ) → turn yes_env later_on 0 queue w ≡ next queue w)
message_once_example =
    message_once yes_env 0 66 [] (world_of (pub_sub message)) message (bool true) _ refl refl
      (called_yes _ _)

abbrev reply : Response
reply = record {
  status_code = 200;
  header = (codes "Server", codes "nginx" ∷ []) ∷ [];
  body = read (codes "body");
}

-- The world after a request from an empty one, before and after its first turn.
abbrev requested : World
requested = record (world_of (new_request 5)) { channel = 0 ∷ [] }

abbrev running_request : World
running_request = put 0 (http_request (asked 5)) requested

request_reaches_callback_example :
    ((elapse : ℕ) (swap : List ℕ)
      → turn yes_env elapse 0 swap requested ≡ next (swap ++ (0 ∷ [])) running_request)
    × ((elapse : ℕ) (swap : List ℕ)
        → turn yes_env elapse 0 swap running_request ≡ next (swap ++ (0 ∷ [])) running_request)
    × ((elapse : ℕ) (swap : List ℕ)
        → (w5 : World) × (turn yes_env elapse 0 swap (answered_world 0 5 reply running_request)
            ≡ next swap w5)
          × (w5.calls ≡ callback 5 (number 400 ∷ table end ∷ string [] ∷ []) ∷ []))
unfolding send_request send new_world
request_reaches_callback_example =
    request_reaches_callback yes_env 5 new_world requested reply (bool true)
      (log_call (empty_reply yes_env (asked 5) reply) (answered_world 0 5 reply running_request))
      refl (called_yes _ _)

abbrev leaving : StateEvent
leaving = record { value = event_state_initialize }

-- A loop that holds one timer.
abbrev loop_of : LocalTimerEvent → Loop
loop_of t = record { queue = 0 ∷ []; world = world_of (timer t); errors = [] }

abbrev counted : World
counted = put 0 (timer (timer_of 34 0)) (world_of (timer later))

later_waits :
    tick sorter yes_env 66 (loop_of later)
    ≡ running (record { queue = 0 ∷ []; world = counted; errors = [] })
unfolding tick drain resume finish_tick turn take_turn update update_timer count_down after_update
    keep put valid continue sub64 is_pos64 priority_at
later_waits = refl

tick_queue_example :
    (order : List ℕ) × Perm order (0 ∷ [])
    × Pairwise
        (λ a b. priority_at (world_of (timer later)) a ≤ priority_at (world_of (timer later)) b)
        order
    × Sublistᴰ (0 ∷ []) order
    × ((loop_of later).errors ≡ [])
tick_queue_example =
    tick_queue sorter yes_env 66 (loop_of later)
      (record { queue = 0 ∷ []; world = counted; errors = [] }) later_waits

nothing_before :
    drain raising_env 66 [] [] (world_of (timer once)) ≡ next [] (world_of (timer once))
unfolding drain
nothing_before = refl

once_fails :
    update raising_env 0 66 (timer once) (world_of (timer once))
    ≡ failed (codes "boom") (fired once)
unfolding update update_timer finish_timer count_down put pcall finish_call log_call perform_all
    sub64 is_pos64
once_fails = refl

once_valid : valid (timer once) ≡ true
unfolding valid
once_valid = refl

tick_aborts_example :
    tick sorter raising_env 66 (loop_of once)
    ≡ closed (record { queue = []; world = fired once; errors = codes "boom" ∷ [] })
tick_aborts_example =
    tick_aborts sorter raising_env 66 0 (loop_of once) [] [] [] (world_of (timer once)) (fired once)
      (timer once) (codes "boom") refl nothing_before refl once_valid once_fails

-- The entry script calls `delay`, and the loop takes the event from the channel.
abbrev sent : World
sent = record new_world { store = new_timer 1000000000 0 7 new_world ∷ []; channel = 0 ∷ [] }

abbrev taken : Process
taken = running (record { queue = 0 ∷ []; world = record sent { channel = [] }; errors = [] })

abbrev before_taken : Loop
before_taken = record start { world = sent }

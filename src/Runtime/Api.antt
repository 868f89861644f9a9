-- ===== src/Runtime/Api.antt =====
-- What a script can do to its runtime while it runs in the event loop: the functions of the
-- modules `event` (module_event.go) and `runtime` (runtime.go), the events
-- that `zmq` and `http` send (module_zmq.go, module_http.go), and the methods of an event's table.
use runtimelua.Common.{
  ℕ, true, false, ◌⊎◌, Option, none, some, List, [], ◌∷◌, Bytes, codes, length, get_elem?,
}
use runtimelua.Common.Word.{mul64}
use runtimelua.Luaconv.Convert.{Api}
use runtimelua.Lua.{LValue, handle}
use runtimelua.Event.State.{event_state_initialize}
use runtimelua.Event.State
use runtimelua.Event.Timer.{TimerEvent}
use runtimelua.Event.Timer
use runtimelua.Event.Object.{Event, timer, exit, http_request, zmq}
use runtimelua.Runtime.World.{World, Package, Call, put, send}

-- `time.Second`.
abbrev pub second : ℕ
second = 1000000000

-- The timer that `delay` and `loop` make: `Store(true)`, and the table with its methods. The table
-- is made after the send, by the same goroutine, and nothing reads it in between.
unfoldable pub new_timer : ℕ → ℕ → ℕ → World → Event
unfolding Timer.store
new_timer delay period fn w = timer (record {
  timer = Timer.store (record { value = 0; delay = delay; period = period }) true;
  bind = handle (length w.store);
  fn = fn;
})

-- `delay(sec, fn)` and `loop(sec, fn)`, whose arguments passed their checks; `sec` is
-- `time.Duration(sec)`, an int64 pattern.
unfoldable pub delay : ℕ → ℕ → World → Option World
unfolding new_timer
delay sec fn w = send (new_timer (mul64 second sec) 0 fn w) w

unfoldable pub loop : ℕ → ℕ → World → Option World
unfolding new_timer
loop sec fn w = send (new_timer 0 (mul64 second sec) fn w) w

-- The functions of the module, by their names.
unfoldable pub event_functions : List (Bytes × (ℕ → ℕ → World → Option World))
event_functions = (codes "loop", loop) ∷ (codes "delay", delay) ∷ []

-- `exit()`.
unfoldable pub send_exit : World → Option World
send_exit w = send (exit (record { value = event_state_initialize })) w

unfoldable pub stop_event : ℕ → Event → World → World
unfolding Timer.stop State.stop
stop_event a (timer t) w = put a (timer (record t { timer = Timer.stop t.timer })) w
stop_event a (zmq e) w = put a (zmq (record e { base = State.stop e.base })) w
stop_event a _ w = w

-- `stop()` on the table of the event at an address; only timers and zmq events have such a table.
unfoldable pub stop : ℕ → World → World
unfolding stop_event
stop a w = elim (get_elem? w.store a) [ none ↦ w | some e ↦ stop_event a e w ]

-- `dealer(address, fn)` and `router(port, fn)` of module_zmq.go behind their checks: the event and
-- its table, which is made after the send.
unfoldable pub new_zmq : ℕ → World → Event
new_zmq fn w = zmq (record {
  base = record { value = event_state_initialize };
  queue = [];
  bind = handle (length w.store);
  fn = fn;
  receiving = false;
})

unfoldable pub open_zmq : ℕ → World → Option World
unfolding new_zmq
open_zmq fn w = send (new_zmq fn w) w

-- `request_async` of module_http.go behind its checks. The request itself is left out.
unfoldable pub new_request : ℕ → Event
new_request fn = http_request (record {
  base = record { value = event_state_initialize };
  func = fn;
  resp = none;
  err = none;
})

unfoldable pub send_request : ℕ → World → Option World
unfolding new_request
send_request fn w = send (new_request fn) w

-- What a call does to its runtime; `rebinds` is an assignment to the global `package` or to its
-- `preload`.
pub data Action : Type 0 where
  delays : ℕ → ℕ → Action
  loops : ℕ → ℕ → Action
  exits : Action
  stops : ℕ → Action
  opens : ℕ → Action
  requests : ℕ → Action
  rebinds : Package → Action

unfoldable pub perform : Action → World → Option World
unfolding delay loop send_exit stop open_zmq send_request
perform (delays sec fn) w = delay sec fn w
perform (loops sec fn) w = loop sec fn w
perform exits w = send_exit w
perform (stops a) w = some (stop a w)
perform (opens fn) w = open_zmq fn w
perform (requests fn) w = send_request fn w
perform (rebinds p) w = some (record w { lua_package = p })

-- The actions of one call, in order; `none` if one of them blocks.
unfoldable pub perform_all : List Action → World → Option World
unfolding perform
perform_all [] w = some w
perform_all (x ∷ xs) w = elim (perform x w) [ none ↦ none | some w' ↦ perform_all xs w' ]

-- How a call of a script ends.
pub data Outcome : Type 0 where
  returns : LValue → Outcome
  raises : Bytes → Outcome

-- What lies outside the repository: the scripts, by the actions and the outcome of a call in a
-- world, the files, the Lua compiler (an error, or none), what the conversions of luaconv call, and
-- the number of the closure that Go makes for the method `send` of a zmq sender.
pub record Env : Type 0 where
  pub script : Call → World → List Action × Outcome
  pub read_file : Bytes → Bytes ⊎ Bytes
  pub compile : Bytes → Bytes → Option Bytes
  pub api : Api
  pub sender_send : Bytes → ℕ

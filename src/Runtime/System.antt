-- ===== src/Runtime/System.antt =====
-- The loop among the goroutines that share its world: the redis subscribers and the file watcher,
-- which send events, the goroutine of an HTTP request, that of a zmq event, `Shutdown`, and the entry
-- script, which `Startup` runs beside the loop (runtime.go). Their steps come between two rounds. The
-- goroutine of a zmq event makes no step on a message without a frame, at which it panics; and the
-- entry script, as far as it runs here, leaves `package.preload` a table, without which a patch panics.
use runtimelua.Common.{true, List, Bytes, ℕ, ◌≡◌, false, true, Option, some, [], get_elem?}
use runtimelua.Event.State.{event_state_progress, event_state_finalize}
use runtimelua.Event.State
use runtimelua.Zmq.Packet.{Gob, receive_message, close_receiver}
use runtimelua.Event.Object.{Event, HttpEvent, ZmqEvent, zmq, Response, Error, http_request}
use runtimelua.Runtime.World.{World, preloads, put, send}
use runtimelua.Runtime.Api.{Env, Action, perform}
use runtimelua.Runtime.Process.{Sorter, Loop, Process, running, Select, select}
use runtimelua.Runtime.Effect.{IsEvent}
use runtimelua.Runtime.Globals.{Leaves}

-- `NewRuntime`: no event, an open context.
unfoldable pub new_world : World
new_world = record {
  store = [];
  channel = [];
  done = false;
  lua_package = preloads [];
  loaded = [];
  calls = [];
}

unfoldable pub start : Loop
unfolding new_world
start = record { queue = []; world = new_world; errors = [] }

-- The deferred `Store(FINALIZE)` of the request's goroutine, with the response or the error.
unfoldable pub respond : HttpEvent → Option Response → Error → HttpEvent
respond e resp err = record e {
  base = record { value = event_state_finalize };
  resp = resp;
  err = err;
}

-- A step that another goroutine makes in the world.
pub data Outside (w w' : World) : Type 0 where
  shutdown : w' ≡ record w { done = true } → Outside w w'
  delivers : (e : Event) → IsEvent e → send e w ≡ some w' → Outside w w'
  acts : (x : Action) → Leaves x → perform x w ≡ some w' → Outside w w'
  responds :
      (a : ℕ) (e : HttpEvent) (resp : Option Response) (err : Error)
      → get_elem? w.store a ≡ some (http_request e)
      → e.base.value ≡ event_state_progress
      → w' ≡ put a (http_request (respond e resp err)) w
      → Outside w w'
  receives :
      (a : ℕ) (e e' : ZmqEvent) (gob : Gob) (b : List Bytes)
      → get_elem? w.store a ≡ some (zmq e)
      → e.receiving ≡ true
      → receive_message gob b e ≡ some e'
      → w' ≡ put a (zmq e') w
      → Outside w w'
  closes :
      (a : ℕ) (e : ZmqEvent)
      → get_elem? w.store a ≡ some (zmq e)
      → e.receiving ≡ true
      → w' ≡ put a (zmq (close_receiver e)) w
      → Outside w w'

pub data Step (s : Sorter) (env : Env) (l : Loop) (p : Process) : Type 0 where
  selects : (c : Select) → select s env c l ≡ some p → Step s env l p
  outside :
      (w' : World) → Outside l.world w' → p ≡ running (record l { world = w' }) → Step s env l p

pub data Reach (s : Sorter) (env : Env) : Process → Type 0 where
  started : Reach s env (running start)
  steps : {l : Loop} {p : Process} → Reach s env (running l) → Step s env l p → Reach s env p

-- ===== src/Event/Object.antt =====
-- The event objects that reach a runtime's queue, one constructor for each type that implements
-- `Event`: `localTimerEvent` (module_event.go), `localExitEvent` (runtime.go), `localHotfixEvent`
-- and `localPatchEvent` (scripts.go), `pubSubEvent` (module_redis.go) and `localHTTPRequestEvent`
-- (module_http.go). The pointer to the runtime's context and the loggers are left out.
use runtimelua.Common.{ℕ, Bool, Option, List, Bytes}
use runtimelua.Lua.{LValue}
use runtimelua.Luaconv.Convert.{GoValue}
use runtimelua.Event.State.{StateEvent}
use runtimelua.Event.State
use runtimelua.Event.Timer.{TimerEvent}
use runtimelua.Event.Timer

-- `localTimerEvent`: `bind` is the table that `LuaValue` made for it.
pub record LocalTimerEvent : Type 0 where
  pub timer : TimerEvent
  pub open timer use *
  pub bind : LValue
  pub fn : ℕ

-- `localFileCache`, as the event points to it.
pub record FileCache : Type 0 where
  pub hotfix_disabled : Bool
  pub name : Bytes
  pub path : Bytes
  pub content : Bytes

-- The value that a finished hotfix or patch sends: a Go `error`, or nil.
abbrev pub Error : Type 0
Error = Option Bytes

-- `result_ch` is what the channel of capacity 1 holds.
pub record ReloadEvent : Type 0 where
  pub base : StateEvent
  pub module_file : FileCache
  pub result_ch : Option Error

pub record PubSubEvent : Type 0 where
  pub base : StateEvent
  pub func : ℕ
  pub arguments : List LValue

-- `http.Response`: the status, the header map with the values of each key, and what reading the
-- whole body gives: its bytes or an error.
pub data ReadAll : Type 0 where
  read : Bytes → ReadAll
  read_error : Bytes → ReadAll

pub record Response : Type 0 where
  pub status_code : ℕ
  pub header : List (Bytes × List Bytes)
  pub body : ReadAll

pub record HttpEvent : Type 0 where
  pub base : StateEvent
  pub func : ℕ
  pub resp : Option Response
  pub err : Error

-- `zmqPacket`: a missing sender frame is the empty one.
pub record ZmqPacket : Type 0 where
  pub sender : Bytes
  pub payload : GoValue

-- `localZmqEvent`: `receiving` says that its goroutine was started. The sockets are left out.
pub record ZmqEvent : Type 0 where
  pub base : StateEvent
  pub queue : List ZmqPacket
  pub bind : LValue
  pub fn : ℕ
  pub receiving : Bool

pub data Event : Type 0 where
  timer : LocalTimerEvent → Event
  exit : StateEvent → Event
  hotfix : ReloadEvent → Event
  patch : ReloadEvent → Event
  pub_sub : PubSubEvent → Event
  http_request : HttpEvent → Event
  zmq : ZmqEvent → Event

-- The methods `Valid` and `Continue`, which each type takes from the base type that it embeds.
unfoldable pub valid : Event → Bool
unfolding State.valid Timer.valid
valid (timer t) = Timer.valid t.timer
valid (exit e) = State.valid e
valid (hotfix e) = State.valid e.base
valid (patch e) = State.valid e.base
valid (pub_sub e) = State.valid e.base
valid (http_request e) = State.valid e.base
valid (zmq e) = State.valid e.base

unfoldable pub continue : Event → Bool
unfolding State.continue Timer.continue
continue (timer t) = Timer.continue t.timer
continue (exit e) = State.continue e
continue (hotfix e) = State.continue e.base
continue (patch e) = State.continue e.base
continue (pub_sub e) = State.continue e.base
continue (http_request e) = State.continue e.base
continue (zmq e) = State.continue e.base

-- `Priority`, which no type overrides.
unfoldable pub priority : Event → ℕ
priority _ = 1

-- ===== src/Runtime/World.antt =====
-- The state that the event loop, the events and the scripts share: the event objects, which the
-- queue, the channel and Lua's tables all point to, the channel `EventQueue` of a `Runtime`
-- (runtime.go), the context, and the two tables of the virtual machine that hot reload reads.
use runtimelua.Common.{
  ℕ, Bool, true, false, Option, none, some, List, [], ◌∷◌, ◌++◌, Bytes, ltb, if◌then◌else◌, length,
  set, bytes_eq,
}
use runtimelua.Lua.{LValue}
use runtimelua.Event.Object.{Event}

-- What the runtime runs in the virtual machine: a closure with its arguments, or a loaded chunk.
pub data Call : Type 0 where
  callback : ℕ → List LValue → Call
  chunk : Bytes → Bytes → Call

-- The global `package` as hot reload uses it: its table `preload`, by the names and the texts that
-- are put into it; a `preload` that takes no field; or a value that has no fields at all.
pub data Package : Type 0 where
  preloads : List (Bytes × Bytes) → Package
  no_preload : Package
  no_package : Package

-- `store` is the heap of events: an event's address is its position. `calls`, newest first, is a
-- record of what was run, which the program does not keep. `done` says that the context's channel
-- is closed.
pub record World : Type 0 where
  pub store : List Event
  pub channel : List ℕ
  pub done : Bool
  pub lua_package : Package
  pub loaded : List Bytes
  pub calls : List Call

-- `make(chan Event, 128)`.
abbrev pub channel_size : ℕ
channel_size = 128

unfoldable pub put : ℕ → Event → World → World
put a e w = record w { store = set w.store a e }

unfoldable pub log_call : Call → World → World
log_call c w = record w { calls = c ∷ w.calls }

-- `r.EventQueue <- e` for a new event: `none` is a send that blocks, because the channel is full.
unfoldable pub send : Event → World → Option World
send e w =
    if ltb (length w.channel) channel_size
    then some
        (record w { store = w.store ++ (e ∷ []); channel = w.channel ++ (length w.store ∷ []) })
    else none

-- `l.GetField` of `package`, and `l.SetField` of its `preload`: a value without fields raises an
-- error.
unfoldable pub has_preload : Package → Bool
has_preload (preloads ps) = true
has_preload no_preload = true
has_preload no_package = false

unfoldable pub set_preload : Bytes → Bytes → Package → Option Package
set_preload name content (preloads ps) = some (preloads ((name, content) ∷ ps))
set_preload name content no_preload = none
set_preload name content no_package = none

unfoldable pub is_loaded : Bytes → List Bytes → Bool
is_loaded name [] = false
is_loaded name (n ∷ ns) = if bytes_eq n name then true else is_loaded name ns

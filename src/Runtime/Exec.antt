-- ===== src/Runtime/Exec.antt =====
-- How a script is called from the event loop, and how an update ends.
use runtimelua.Common.{Option, none, some, Bytes}
use runtimelua.Lua.{LValue}
use runtimelua.Runtime.World.{World, Call, log_call}
use runtimelua.Runtime.Api.{Env, Outcome, returns, raises, perform_all}

-- How `PCall` ends: with a value, with an error, or never, because a send in it blocks.
pub data Called : Type 0 where
  returned : LValue → World → Called
  raised : Bytes → World → Called
  never : Called

unfoldable pub finish_call : Outcome → Option World → Called
finish_call out none = never
finish_call (returns v) (some w) = returned v w
finish_call (raises e) (some w) = raised e w

unfoldable pub pcall : Env → Call → World → Called
unfolding log_call finish_call
pcall env c w =
    let (actions, out) = env.script c (log_call c w) in
    finish_call out (perform_all actions (log_call c w))

-- How `Update` ends: with nil, with an error, never, or by a fault of the Go code.
pub data Updated : Type 0 where
  updated : World → Updated
  failed : Bytes → World → Updated
  blocked : Updated
  fault : Updated

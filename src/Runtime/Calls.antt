-- ===== src/Runtime/Calls.antt =====
-- A call of a script, with its actions: what it leaves alone.
use runtimelua.Common.{◌≡◌, Option, none, some, arith, Bytes}
use runtimelua.Lua.{LValue}
use runtimelua.Runtime.World.{World, Call, log_call}
use runtimelua.Runtime.Api.{Env, Outcome, returns, raises}
use runtimelua.Runtime.Exec.{Called, returned, raised, pcall, finish_call}
use runtimelua.Runtime.Effect.{Effect, perform_all-Effect}
use runtimelua.Runtime.Globals.{IsPackage, KeepsPackage, perform_all-IsPackage}

-- The world that a call ends in, however it ends.
pub data EndsIn (w : World) : Called → Type 0 where
  by_return : (v : LValue) → EndsIn w (returned v w)
  by_error : (e : Bytes) → EndsIn w (raised e w)

finish_call-some :
    (out : Outcome) (r : Option World) (c : Called) (w' : World)
    → finish_call out r ≡ c
    → EndsIn w' c
    → r ≡ some w'
unfolding finish_call
finish_call-some (returns u) none c w' h (by_return v) = absurd (ground (arith, h))
finish_call-some (returns u) none c w' h (by_error x) = absurd (ground (arith, h))
finish_call-some (raises y) none c w' h (by_return v) = absurd (ground (arith, h))
finish_call-some (raises y) none c w' h (by_error x) = absurd (ground (arith, h))
finish_call-some (returns u) (some w) c w' h (by_return v) = ground (arith, h)
finish_call-some (returns u) (some w) c w' h (by_error x) = ground (arith, h)
finish_call-some (raises y) (some w) c w' h (by_return v) = ground (arith, h)
finish_call-some (raises y) (some w) c w' h (by_error x) = ground (arith, h)

-- A call that ends has the effect of its actions, on the world with the call recorded.
pub pcall-Effect :
    (env : Env) (c : Call) (w : World) {r : Called} {w' : World}
    → pcall env c w ≡ r
    → EndsIn w' r
    → Effect (log_call c w) w'
unfolding pcall
pcall-Effect env c w {r} {w'} h e =
    perform_all-Effect (env.script c (log_call c w)).0 (log_call c w) w'
      (finish_call-some (env.script c (log_call c w)).1 _ r w' h e)

-- If the scripts leave `package.preload` a table, it is one after a call.
pub pcall-IsPackage :
    (env : Env) (safe : KeepsPackage env) (c : Call) (w : World) {r : Called} {w' : World}
    → pcall env c w ≡ r
    → EndsIn w' r
    → IsPackage w.lua_package
    → IsPackage w'.lua_package
unfolding pcall log_call
pcall-IsPackage env safe c w {r} {w'} h e k =
    perform_all-IsPackage (env.script c (log_call c w)).0 (log_call c w) w' (safe c (log_call c w))
      k (finish_call-some (env.script c (log_call c w)).1 _ r w' h e)

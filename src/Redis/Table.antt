-- ===== src/Redis/Table.antt =====
-- module_redis.go: the functions of the module by their names.
use runtimelua.Common.{List, [], ◌∷◌, Bytes, codes}
use runtimelua.Lua.{LValue}
use runtimelua.Redis.Session.{Outer, Client, M}
use runtimelua.Redis.Commands.{
  handler, exists_name, ping_name, get_name, set_name, incr_name, incrby_name, hincrby_name,
  hkeys_name, hgetall_name, hget_name, hset_name, hmset_name, publish_name,
}
use runtimelua.Redis.Subscriptions.{subscribe, psubscribe, unsubscribe, punsubscribe}

abbrev pub Function : Type 0
Function = Outer → Client → List LValue → M (Unit {0})

-- The table that `Open` makes.
unfoldable pub redis_functions : List (Bytes × Function)
redis_functions =
    (codes "exists", handler exists_name)
    ∷ (codes "ping", handler ping_name)
    ∷ (codes "get", handler get_name)
    ∷ (codes "set", handler set_name)
    ∷ (codes "incr", handler incr_name)
    ∷ (codes "incrby", handler incrby_name)
    ∷ (codes "hincrby", handler hincrby_name)
    ∷ (codes "hkeys", handler hkeys_name)
    ∷ (codes "hgetall", handler hgetall_name)
    ∷ (codes "hget", handler hget_name)
    ∷ (codes "hset", handler hset_name)
    ∷ (codes "hmset", handler hmset_name)
    ∷ (codes "publish", handler publish_name)
    ∷ (codes "subscribe", subscribe)
    ∷ (codes "psubscribe", psubscribe)
    ∷ (codes "unsubscribe", unsubscribe)
    ∷ (codes "punsubscribe", punsubscribe)
    ∷ []

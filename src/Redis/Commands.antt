-- ===== src/Redis/Commands.antt =====
-- module_redis.go: the handlers that send one command.
use runtimelua.Common.{ℕ, zero, suc, true, false, List, [], ◌∷◌, Bytes, codes}
use runtimelua.Lua.{LValue, bool, number, string, table, Entries, end, entry}
use runtimelua.Luaconv.Convert.{GoValue, gstring, gint, lua_value, push, string_array}
use runtimelua.Redis.Session.{
  command, panics, Outer, Client, stop, M, ◌>>=◌, ◌>>◌, returns, checked, needs, validate,
  get_client, request, encode, decode,
}

-- `[]lua.LValue{lua.LFalse, lua.LTrue}[val]`.
abbrev pub pick : ℕ → M (Unit {0})
pick zero s = returns (bool false ∷ []) s
pick (suc zero) s = returns (bool true ∷ []) s
pick (suc (suc n)) s = stop panics s

-- `table.RawSetString(field, decode(l, value))` for each field of the reply.
unfoldable pub decoded_fields : Outer → List (Bytes × Bytes) → Entries
decoded_fields o [] = end
decoded_fields o ((k, v) ∷ rest) = push (string k) (decode o v) (decoded_fields o rest)

-- The arguments of `hmset`: each key and value of the table, converted and encoded.
unfoldable pub flat_values : Outer → Entries → List GoValue
flat_values o end = []
flat_values o (entry k v rest) =
    encode o (lua_value o.api k) ∷ encode o (lua_value o.api v) ∷ flat_values o rest

module _ (o : Outer) (c : Client) (args : List LValue) where
  unfoldable pub ping : M (Unit {0})
  ping = do
    validate
    get_client
    result ← request (command (codes "ping") []) c.ping
    returns (string result ∷ [])

  unfoldable pub exists : M (Unit {0})
  exists = do
    key ← checked 1 (o.check_string 1 args)
    needs key 1 (codes "expects key")
    validate
    get_client
    val ← request (command (codes "exists") (gstring key ∷ [])) (c.exists key)
    pick val

  unfoldable pub get : M (Unit {0})
  get = do
    key ← checked 1 (o.check_string 1 args)
    needs key 1 (codes "expects key")
    validate
    get_client
    val ← request (command (codes "get") (gstring key ∷ [])) (c.get key)
    returns (decode o val ∷ [])

  unfoldable pub set : M (Unit {0})
  set = do
    key ← checked 1 (o.check_string 1 args)
    any ← checked 2 (o.check_any 2 args)
    let v = encode o (lua_value o.api any)
    needs key 1 (codes "expects key")
    validate
    get_client
    _ ← request (command (codes "set") (gstring key ∷ v ∷ [])) (c.set key v)
    returns []

  unfoldable pub incr : M (Unit {0})
  incr = do
    key ← checked 1 (o.check_string 1 args)
    needs key 1 (codes "expects hash key")
    get_client
    v ← request (command (codes "incr") (gstring key ∷ [])) (c.incr key)
    returns (number (o.api.of_int v) ∷ [])

  unfoldable pub incrby : M (Unit {0})
  incrby = do
    key ← checked 1 (o.check_string 1 args)
    needs key 1 (codes "expects hash key")
    n ← checked 2 (o.check_number 2 args)
    get_client
    v ←
        request (command (codes "incrby") (gstring key ∷ gint (o.api.to_int n) ∷ []))
          (c.incr_by key (o.api.to_int n))
    returns (number (o.api.of_int v) ∷ [])

  unfoldable pub hincrby : M (Unit {0})
  hincrby = do
    key ← checked 1 (o.check_string 1 args)
    needs key 1 (codes "expects hash key")
    field ← checked 2 (o.check_string 2 args)
    needs field 2 (codes "expects field key")
    n ← checked 3 (o.check_number 3 args)
    get_client
    v ←
        request
          (command (codes "hincrby") (gstring key ∷ gstring field ∷ gint (o.api.to_int n) ∷ []))
          (c.h_incr_by key field (o.api.to_int n))
    returns (number (o.api.of_int v) ∷ [])

  unfoldable pub hgetall : M (Unit {0})
  hgetall = do
    key ← checked 1 (o.check_string 1 args)
    needs key 1 (codes "expects hash key")
    validate
    get_client
    val ← request (command (codes "hgetall") (gstring key ∷ [])) (c.h_get_all key)
    returns (table (decoded_fields o val) ∷ [])

  unfoldable pub hkeys : M (Unit {0})
  hkeys = do
    key ← checked 1 (o.check_string 1 args)
    needs key 1 (codes "expects key")
    validate
    get_client
    val ← request (command (codes "hkeys") (gstring key ∷ [])) (c.h_keys key)
    returns (table (string_array o.api 1 val) ∷ [])

  unfoldable pub hget : M (Unit {0})
  hget = do
    key ← checked 1 (o.check_string 1 args)
    field ← checked 2 (o.check_string 2 args)
    needs key 1 (codes "expects key")
    needs field 2 (codes "expects field")
    validate
    get_client
    val ← request (command (codes "hget") (gstring key ∷ gstring field ∷ [])) (c.h_get key field)
    returns (decode o val ∷ [])

  unfoldable pub hset : M (Unit {0})
  hset = do
    key ← checked 1 (o.check_string 1 args)
    field ← checked 2 (o.check_string 2 args)
    any ← checked 3 (o.check_any 3 args)
    let v = encode o (lua_value o.api any)
    needs key 1 (codes "expects key")
    needs field 2 (codes "expects field")
    validate
    get_client
    _ ←
        request (command (codes "hset") (gstring key ∷ gstring field ∷ v ∷ []))
          (c.h_set key field v)
    returns []

  unfoldable pub hmset : M (Unit {0})
  hmset = do
    key ← checked 1 (o.check_string 1 args)
    t ← checked 2 (o.check_table 2 args)
    needs key 1 (codes "expects key")
    let vs = flat_values o t
    get_client
    _ ← request (command (codes "hmset") (gstring key ∷ vs)) (c.hm_set key vs)
    returns []

  unfoldable pub publish : M (Unit {0})
  publish = do
    channel ← checked 1 (o.check_string 1 args)
    needs channel 1 (codes "expects channel")
    any ← checked 2 (o.check_any 2 args)
    let v = encode o (lua_value o.api any)
    validate
    get_client
    _ ← request (command (codes "publish") (gstring channel ∷ v ∷ [])) (c.publish channel v)
    returns []

-- The commands of the table in `Open`, but those of the subscriptions.
pub data Name : Type 0 where
  exists_name ping_name get_name set_name incr_name incrby_name hincrby_name hkeys_name : Name
  hgetall_name hget_name hset_name hmset_name publish_name : Name

unfoldable pub handler : Name → Outer → Client → List LValue → M (Unit {0})
unfolding exists ping get set incr incrby hincrby hkeys hgetall hget hset hmset publish
handler exists_name = exists
handler ping_name = ping
handler get_name = get
handler set_name = set
handler incr_name = incr
handler incrby_name = incrby
handler hincrby_name = hincrby
handler hkeys_name = hkeys
handler hgetall_name = hgetall
handler hget_name = hget
handler hset_name = hset
handler hmset_name = hmset
handler publish_name = publish

-- ===== src/Luaconv/Convert.antt =====
-- luaconv/luaconv.go: `LuaValue`, `Table`, and `Value` with `Map`, `MapString` and `MapInt64`.
use runtimelua.Common.{
  ℕ, zero, suc, ◌+◌, Bool, false, Option, none, some, List, [], ◌∷◌, Bytes, bytes_eq, ◌==◌,
  if◌then◌else◌,
}
use runtimelua.Lua.{LValue, nil, bool, number, string, function, handle, table, Entries, end, entry}

-- The integer types of the switch in `Value` other than int64.
pub data IntType : Type 0 where
  int_type int8_type int32_type uint_type uint8_type uint32_type uint64_type : IntType

-- A Go `interface{}`: the types that the switch in `Value` names, and every other type. `gint` is an
-- int64 and `gfloat` a float64, by their patterns, and `gfloat32` a float32 by its own. `ginteger` is
-- an integer of another type, which stands as its pattern of 64 bits, with the sign extended if
-- the type has one. `int_map` is `map[string]int64`, `header` `map[string][]string`, `strings`
-- `[]string`, `time` a `time.Time` by its Unix seconds.
mutual
  pub data GoValue : Type 0 where
    gnil : GoValue
    gbool : Bool → GoValue
    gstring : Bytes → GoValue
    gbytes : Bytes → GoValue
    gint : ℕ → GoValue
    gfloat : ℕ → GoValue
    ginteger : IntType → ℕ → GoValue
    gfloat32 : ℕ → GoValue
    gmap : Fields → GoValue
    gslice : Items → GoValue
    string_map : List (Bytes × Bytes) → GoValue
    int_map : List (Bytes × ℕ) → GoValue
    header : List (Bytes × List Bytes) → GoValue
    strings : List Bytes → GoValue
    time : ℕ → GoValue
    gother : ℕ → GoValue

  pub data Fields : Type 0 where
    no_field : Fields
    field : Bytes → GoValue → Fields → Fields

  pub data Items : Type 0 where
    no_item : Items
    item : GoValue → Items → Items

-- What the conversions call: Go's conversions between int64 and float64 patterns, those to float64
-- from uint64 and float32, and its `==` on floats, `fmt.Sprint`, gopher-lua's `MaxN` of a table and `String` of a function, and the Go value
-- of the table that stands for an event.
pub record Api : Type 0 where
  pub of_int : ℕ → ℕ
  pub of_uint : ℕ → ℕ
  pub of_float32 : ℕ → ℕ
  pub to_int : ℕ → ℕ
  pub same_float : ℕ → ℕ → Bool
  pub sprint : GoValue → Bytes
  pub max_n : Entries → ℕ
  pub function_string : ℕ → Bytes
  pub handle_value : ℕ → GoValue

-- `ret[key] = value`.
unfoldable pub set_field : Bytes → GoValue → Fields → Fields
set_field k v no_field = field k v no_field
set_field k v (field j w rest) =
    let rest' = set_field k v rest in if bytes_eq j k then field k v rest else field j w rest'

-- The entries of a table with both sides converted, in the order of `ForEach`; the key is kept too.
pub data Pairs : Type 0 where
  no_pair : Pairs
  pair : LValue → GoValue → GoValue → Pairs → Pairs

-- The map that `ForEach` fills.
unfoldable pub fill : Api → Pairs → Fields → Fields
unfolding set_field
fill api no_pair ret = ret
fill api (pair key k v rest) ret = fill api rest (set_field (api.sprint k) v ret)

unfoldable pub is_number : ℕ → LValue → Bool
is_number p (number q) = p == q
is_number p _ = false

-- `LuaValue(v.RawGetInt(i))`, at the float64 pattern of the index.
unfoldable pub get_int : ℕ → Pairs → GoValue
unfolding is_number
get_int p no_pair = gnil
get_int p (pair key k v rest) = if is_number p key then v else get_int p rest

-- `for i := 1; i <= maxn; i++`: `n` rounds from the index `i`.
unfoldable pub collect : Api → ℕ → ℕ → Pairs → Items
unfolding get_int
collect api zero i ps = no_item
collect api (suc n) i ps = item (get_int (api.of_int i) ps) (collect api n (i + 1) ps)

unfoldable pub from_table : Api → ℕ → Pairs → GoValue
unfolding fill collect
from_table api maxn ps =
    if maxn == 0 then gmap (fill api ps no_field) else gslice (collect api maxn 1 ps)

unfoldable pub from_number : Api → ℕ → GoValue
from_number api v =
    let vi = api.to_int v in if api.same_float v (api.of_int vi) then gint vi else gfloat v

unfoldable mutual
  unfolding from_table from_number

  pub lua_value : Api → LValue → GoValue
  lua_value api nil = gnil
  lua_value api (bool b) = gbool b
  lua_value api (string s) = gstring s
  lua_value api (number v) = from_number api v
  lua_value api (table t) = from_table api (api.max_n t) (lua_pairs api t)
  lua_value api (function f) = gstring (api.function_string f)
  lua_value api (handle a) = api.handle_value a

  pub lua_pairs : Api → Entries → Pairs
  lua_pairs api end = no_pair
  lua_pairs api (entry k v rest) = pair k (lua_value api k) (lua_value api v) (lua_pairs api rest)

-- `Table`: the map, or the nil map if the table is an array.
unfoldable pub fields_of : GoValue → Option Fields
fields_of (gmap fs) = some fs
fields_of _ = none

unfoldable pub go_table : Api → Entries → Option Fields
unfolding fields_of
go_table api t = fields_of (lua_value api (table t))

-- `RawSetString` and `RawSetInt` at a new key: nil leaves no entry.
unfoldable pub push : LValue → LValue → Entries → Entries
push k nil rest = rest
push k v rest = entry k v rest

unfoldable pub map_string : List (Bytes × Bytes) → Entries
map_string [] = end
map_string ((k, v) ∷ rest) = entry (string k) (string v) (map_string rest)

unfoldable pub map_int : Api → List (Bytes × ℕ) → Entries
map_int api [] = end
map_int api ((k, v) ∷ rest) = entry (string k) (number (api.of_int v)) (map_int api rest)

unfoldable pub string_array : Api → ℕ → List Bytes → Entries
string_array api i [] = end
string_array api i (s ∷ rest) =
    entry (number (api.of_int i)) (string s) (string_array api (i + 1) rest)

unfoldable pub map_header : Api → List (Bytes × List Bytes) → Entries
unfolding string_array
map_header api [] = end
map_header api ((k, vs) ∷ rest) =
    entry (string k) (table (string_array api 1 vs)) (map_header api rest)

-- `lua.LNumber(v)` at an integer of another type than int64.
unfoldable pub of_integer : Api → IntType → ℕ → ℕ
of_integer api int_type n = api.of_int n
of_integer api int8_type n = api.of_int n
of_integer api int32_type n = api.of_int n
of_integer api uint_type n = api.of_uint n
of_integer api uint8_type n = api.of_uint n
of_integer api uint32_type n = api.of_uint n
of_integer api uint64_type n = api.of_uint n

unfoldable mutual
  unfolding of_integer push map_string map_int string_array map_header

  pub value : Api → GoValue → LValue
  value api gnil = nil
  value api (gbool b) = bool b
  value api (gstring s) = string s
  value api (gbytes s) = string s
  value api (gint n) = number (api.of_int n)
  value api (gfloat v) = number v
  value api (ginteger type n) = number (of_integer api type n)
  value api (gfloat32 v) = number (api.of_float32 v)
  value api (gmap fs) = table (map_fields api fs)
  value api (gslice xs) = table (array api 1 xs)
  value api (string_map m) = table (map_string m)
  value api (int_map m) = table (map_int api m)
  value api (header m) = table (map_header api m)
  value api (strings ss) = table (string_array api 1 ss)
  value api (time t) = number (api.of_int t)
  value api (gother x) = nil

  -- `Map`.
  pub map_fields : Api → Fields → Entries
  map_fields api no_field = end
  map_fields api (field k v rest) = push (string k) (value api v) (map_fields api rest)

  -- The loop over `[]interface{}`.
  pub array : Api → ℕ → Items → Entries
  array api i no_item = end
  array api i (item v rest) = push (number (api.of_int i)) (value api v) (array api (i + 1) rest)

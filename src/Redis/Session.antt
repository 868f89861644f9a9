-- ===== src/Redis/Session.antt =====
-- module_redis.go: what the handlers of the redis module share: the module's state, the checks of the
-- arguments, the client, and how a handler ends. Logging is left out.
use runtimelua.Common.{
  ℕ, Bool, true, false, ◌⊎◌, inl, inr, Option, none, some, List, [], ◌∷◌, Bytes, if◌then◌else◌,
}
use runtimelua.Lua.{LValue, Entries}
use runtimelua.Luaconv.Convert.{Api, GoValue, gstring, gbytes, gmap, value}

-- `localRedisSubscriber`: whether it was made by `PSubscribe`, and its callbacks. Its goroutine runs
-- until `Close`, which cancels its context first and then closes the connection.
pub record Subscriber : Type 0 where
  pub by_pattern : Bool
  pub functions : List ℕ

-- What a handler asks of the server, by the command's name and its arguments.
pub data Command : Type 0 where
  command : Bytes → List GoValue → Command

-- `connected` says that the pool is not nil. `detached` holds the subscribers that are out of the
-- map and not closed. `sent`, newest first, records the commands, which the program does not keep.
pub record Session : Type 0 where
  pub connected : Bool
  pub pubsub : List (Bytes × Subscriber)
  pub detached : List Subscriber
  pub sent : List Command

-- How a handler ends: it returns values, `ArgError`, an error that a check of gopher-lua raises, or a
-- panic of the Go code.
pub data Handled : Type 0 where
  returned : List LValue → Handled
  arg_error : ℕ → Bytes → Handled
  type_error : ℕ → Handled
  panics : Handled

-- The checks of gopher-lua on the argument at a position; `none` is an error that the check raises.
-- `unmarshal` and `marshal` are those of encoding/json, where an error of the first leaves none.
pub record Outer : Type 0 where
  pub api : Api
  pub check_string : ℕ → List LValue → Option Bytes
  pub check_number : ℕ → List LValue → Option ℕ
  pub check_table : ℕ → List LValue → Option Entries
  pub check_function : ℕ → List LValue → Option ℕ
  pub check_any : ℕ → List LValue → Option LValue
  pub unmarshal : Bytes → Option GoValue
  pub marshal : GoValue → Bytes

-- The client of go-redis: an error, or the result of a command.
pub record Client : Type 0 where
  pub ping : Bytes ⊎ Bytes
  pub exists : Bytes → Bytes ⊎ ℕ
  pub get : Bytes → Bytes ⊎ Bytes
  pub set : Bytes → GoValue → Bytes ⊎ Bytes
  pub incr : Bytes → Bytes ⊎ ℕ
  pub incr_by : Bytes → ℕ → Bytes ⊎ ℕ
  pub h_incr_by : Bytes → Bytes → ℕ → Bytes ⊎ ℕ
  pub h_get_all : Bytes → Bytes ⊎ List (Bytes × Bytes)
  pub h_keys : Bytes → Bytes ⊎ List Bytes
  pub h_get : Bytes → Bytes → Bytes ⊎ Bytes
  pub h_set : Bytes → Bytes → GoValue → Bytes ⊎ ℕ
  pub hm_set : Bytes → List GoValue → Bytes ⊎ Bool
  pub publish : Bytes → GoValue → Bytes ⊎ ℕ
  pub subscribe : Bytes → Bool
  pub p_subscribe : Bytes → Bool
  pub unsubscribe : Bytes → Bytes ⊎ Bool
  pub p_unsubscribe : Bytes → Bytes ⊎ Bool

-- A part of a handler: it ends the handler, or goes on with a value.
pub data Out (A : Type 0) : Type 0 where
  stop : Handled → Session → Out A
  go : A → Session → Out A

abbrev pub M : Type 0 → Type 0
M A = Session → Out A

infixl 5 ◌>>=◌ ◌>>◌
unfoldable pub ◌>>=◌ : {A B : Type 0} → M A → (A → M B) → M B
◌>>=◌ m f s = elim (m s) [ stop h s' ↦ stop h s' | go a s' ↦ f a s' ]

unfoldable pub ◌>>◌ : {B : Type 0} → M (Unit {0}) → M B → M B
unfolding ◌>>=◌
m >> k = m >>= λ _. k

-- `return n` after the pushes.
abbrev pub returns : List LValue → M (Unit {0})
returns vs s = stop (returned vs) s

unfoldable pub checked : {A : Type 0} → ℕ → Option A → M A
checked n none s = stop (type_error n) s
checked n (some a) s = go a s

abbrev pub is_empty : Bytes → Bool
is_empty [] = true
is_empty (b ∷ bs) = false

-- `if len(x) == 0 { l.ArgError(n, msg); return 0 }`.
unfoldable pub needs : Bytes → ℕ → Bytes → M (Unit {0})
needs x n msg s = if is_empty x then stop (arg_error n msg) s else go tt s

-- `if err := m.validate(); err != nil { …; return 0 }`.
unfoldable pub validate : M (Unit {0})
validate s = if s.connected then go tt s else stop (returned []) s

-- `m.pool.Get()`, which dereferences the pool.
unfoldable pub get_client : M (Unit {0})
get_client s = if s.connected then go tt s else stop panics s

-- A command and its result; an error is logged and ends the handler with no value.
unfoldable pub answered : {A : Type 0} → Bytes ⊎ A → M A
answered (inl e) s = stop (returned []) s
answered (inr a) s = go a s

unfoldable pub request : {A : Type 0} → Command → Bytes ⊎ A → M A
unfolding answered
request c r s = answered r (record s { sent = c ∷ s.sent })

-- `encode` and `decode`.
unfoldable pub encode : Outer → GoValue → GoValue
encode o (gmap fs) = gbytes (o.marshal (gmap fs))
encode o v = v

unfoldable pub decode : Outer → Bytes → LValue
decode o s = value o.api (elim (o.unmarshal s) [ none ↦ gstring s | some v ↦ v ])

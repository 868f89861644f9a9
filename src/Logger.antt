-- ===== src/Logger.antt =====
-- module_logger.go: what the functions of the Lua module logger hand to the logger.
pub mod Keys
use runtimelua.Common.{
  ℕ, Bool, true, false, Option, none, some, List, [], ◌∷◌, Bytes, codes, bytes_eq, if◌then◌else◌,
}
use runtimelua.Lua.{LValue, nil, bool, number, string, function, handle, table, Entries, end, entry}
use runtimelua.Luaconv.Convert.{
  Api, GoValue, gnil, gbool, gstring, gbytes, gint, gfloat, gmap, gslice, string_map, int_map,
  header, strings, time, gother, lua_value,
}

-- The fields of zap, by the function that makes them.
pub data LogField : Type 0 where
  int64_field : Bytes → ℕ → LogField
  string_field : Bytes → Bytes → LogField
  float64_field : Bytes → ℕ → LogField
  any_field : Bytes → GoValue → LogField
  bool_field : Bytes → Bool → LogField

pub data Level : Type 0 where
  debug info warn error : Level

-- How a call ends: with an error about its first argument, a panic, nothing, a line on the standard
-- logger, or a message of the runtime's logger.
pub data Logged : Type 0 where
  type_error : Logged
  panics : Logged
  silent : Logged
  printed : Bytes → Logged
  logged : Level → Bytes → List LogField → Logged

-- The switch on the key: the text that `field` holds then, or none if it holds no string. `format`
-- is `strconv.FormatInt` in base 10.
unfoldable pub key_text : (ℕ → Bytes) → GoValue → Option Bytes
key_text format (gint n) = some (format n)
key_text format (gbytes s) = some s
key_text format (gstring s) = some s
key_text format _ = none

-- The switch on the value: none is the default, which makes no field.
unfoldable pub field_of : GoValue → Option (Bytes → LogField)
field_of (gint n) = some (λ key. int64_field key n)
field_of (gbytes s) = some (λ key. string_field key s)
field_of (gstring s) = some (λ key. string_field key s)
field_of (gfloat p) = some (λ key. float64_field key p)
field_of (gmap m) = some (λ key. any_field key (gmap m))
field_of (gslice xs) = some (λ key. any_field key (gslice xs))
field_of (gbool b) = some (λ key. bool_field key b)
field_of _ = none

-- `field.(string)` at a field that holds no string panics: `none`.
unfoldable pub append_field :
    Option Bytes → Option (Bytes → LogField) → List LogField → Option (List LogField)
append_field key none rest = some rest
append_field (some key) (some f) rest = some (f key ∷ rest)
append_field none (some f) rest = none

-- `collapse_to_log`: the fields in the order of `ForEach`.
unfoldable pub collapse_to_log : Api → (ℕ → Bytes) → Entries → Option (List LogField)
unfolding key_text field_of append_field
collapse_to_log api format end = some []
collapse_to_log api format (entry k v es) = elim (collapse_to_log api format es) [
  | none ↦ none
  | some rest ↦ append_field (key_text format (lua_value api k)) (field_of (lua_value api v)) rest
]

-- The switch on the second argument, which the functions of the four levels share.
unfoldable pub log_value : Api → (ℕ → Bytes) → Level → Bytes → LValue → Logged
unfolding collapse_to_log
log_value api format level msg (table es) = elim (collapse_to_log api format es) [
  | none ↦ panics
  | some fs ↦ logged level msg fs
]
log_value api format level msg (string s) = logged level msg (string_field (codes "content") s ∷ [])
log_value api format level msg _ = logged level msg []

-- `logInfo`, `logWarn`, `logError` and `logDebug`: `check` is `l.CheckString(1)`, whose `none` is the
-- error that it raises, and `second` is `l.Get(2)`.
unfoldable pub log_at : Api → (ℕ → Bytes) → Level → Option Bytes → LValue → Logged
unfolding log_value
log_at api format level none second = type_error
log_at api format level (some msg) second = log_value api format level msg second

-- `log`: an empty message is dropped.
unfoldable pub log : Option Bytes → Logged
log none = type_error
log (some []) = silent
log (some (b ∷ bs)) = printed (b ∷ bs)

-- The functions of the module, by their names, on the two arguments.
unfoldable pub logger_functions :
    List (Bytes × (Api → (ℕ → Bytes) → Option Bytes → LValue → Logged))
logger_functions =
    (codes "log", λ api format msg second. log msg)
    ∷ (codes "debug", λ api format. log_at api format debug)
    ∷ (codes "info", λ api format. log_at api format info)
    ∷ (codes "warn", λ api format. log_at api format warn)
    ∷ (codes "error", λ api format. log_at api format error)
    ∷ []

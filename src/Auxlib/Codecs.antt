-- ===== src/Auxlib/Codecs.antt =====
-- auxlib/json.go, auxlib/base64.go, auxlib/md5.go and auxlib/uuid.go: calls of Go's packages behind
-- an argument check.
use runtimelua.Common.{ℕ, ◌⊎◌, inl, inr, Option, none, some, List, [], ◌∷◌, ◌++◌, Bytes, codes}
use runtimelua.Lua.{LValue, nil, string}
use runtimelua.Luaconv.Convert.{Api, GoValue, lua_value, value}

-- What the functions call: `json.Marshal` and `json.Unmarshal`, an error or the result;
-- `EncodeToString` and `DecodeString` of base64's standard encoding; and the hexadecimal digits of
-- `md5.Sum`.
pub record Codecs : Type 0 where
  pub api : Api
  pub marshal : GoValue → Bytes ⊎ Bytes
  pub unmarshal : Bytes → Bytes ⊎ GoValue
  pub encode_to_string : Bytes → Bytes
  pub decode_string : Bytes → Bytes ⊎ Bytes
  pub md5_hex : Bytes → Bytes

-- How a function ends: with values, an error about an argument, or an error that it raises.
pub data Handled : Type 0 where
  pushed : List LValue → Handled
  type_error : ℕ → Handled
  arg_error : ℕ → Handled
  raised : Bytes → Handled

-- `l.Get(1)` is never Go's nil, so that check never fails.
unfoldable pub json_encode : Codecs → LValue → Handled
json_encode o v = elim (o.marshal (lua_value o.api v)) [
  | inl e ↦ raised (codes "error encoding to JSON: " ++ e)
  | inr s ↦ pushed (string s ∷ [])
]

unfoldable pub decoded_json : Codecs → Bytes ⊎ GoValue → Handled
decoded_json o (inl e) = raised (codes "not a valid JSON string: " ++ e)
decoded_json o (inr v) = pushed (value o.api v ∷ [])

-- The argument of these is what `l.CheckString(1)` gives: `none` is the error that it raises.
unfoldable pub json_decode : Codecs → Option Bytes → Handled
unfolding decoded_json
json_decode o none = type_error 1
json_decode o (some []) = arg_error 1
json_decode o (some (b ∷ bs)) = decoded_json o (o.unmarshal (b ∷ bs))

unfoldable pub base64_encode : Codecs → Option Bytes → Handled
base64_encode o none = type_error 1
base64_encode o (some s) = pushed (string (o.encode_to_string s) ∷ [])

unfoldable pub decoded_text : Bytes ⊎ Bytes → Handled
decoded_text (inl e) = pushed (nil ∷ string e ∷ [])
decoded_text (inr s) = pushed (string s ∷ [])

unfoldable pub base64_decode : Codecs → Option Bytes → Handled
unfolding decoded_text
base64_decode o none = type_error 1
base64_decode o (some s) = decoded_text (o.decode_string s)

unfoldable pub md5_sum : Codecs → Option Bytes → Handled
md5_sum o none = type_error 1
md5_sum o (some s) = pushed (string (o.md5_hex s) ∷ [])

-- `uuid.New().String()` is a text of the package's.
unfoldable pub uuid_gen : Bytes → Handled
uuid_gen fresh = pushed (string fresh ∷ [])

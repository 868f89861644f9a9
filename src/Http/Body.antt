-- ===== src/Http/Body.antt =====
-- module_http.go: how a response becomes the Lua arguments, in `request` and in the FINALIZE state
-- of `localHTTPRequestEvent`.
use runtimelua.Common.{ℕ, zero, suc, Option, none, some, List, [], ◌∷◌, ◌++◌, Bytes, codes}
use runtimelua.Lua.{LValue, nil, number, string, table, Entries, end, entry}
use runtimelua.Event.Object.{Error, ReadAll, read, read_error, Response}

-- `map[string]interface{}` that holds strings only: distinct keys, in an order of its own.
abbrev pub Headers : Type 0
Headers = List (Bytes × Bytes)

-- `for k, vs := range resp.Header { for _, v := range vs { headers[k] = v; break } }`: the first
-- value of each key that has one.
unfoldable pub first_values : List (Bytes × List Bytes) → Headers
first_values [] = []
first_values ((k, []) ∷ rest) = first_values rest
first_values ((k, v ∷ vs) ∷ rest) = (k, v) ∷ first_values rest

-- `luaconv.Map` at such a map: a table of strings. A nil map gives the empty table.
unfoldable pub map_table : Headers → Entries
map_table [] = end
map_table ((k, v) ∷ rest) = entry (string k) (string v) (map_table rest)

abbrev pub status_bad_gateway : ℕ
status_bad_gateway = 502

-- `var headers map[string]interface{}` starts as the nil map; `err` is the field of the event.
pub record Finalize : Type 0 where
  pub headers : Option Headers
  pub body : Bytes
  pub err : Error

unfoldable pub body_error : Bytes → Bytes
body_error e = codes "HTTP response body error: " ++ e

-- How a round of the loop ends: it goes on, it breaks, or it dereferences a nil response.
pub data Round : Type 0 where
  again : Finalize → Round
  break : Finalize → Round
  nil_response : Round

unfoldable pub read_body : Response → Finalize → ReadAll → Round
unfolding body_error
read_body r f (read b) = again (record f { headers = some (first_values r.header); body = b })
read_body r f (read_error e) = break (record f { body = []; err = some (body_error e) })

-- The body of the loop `for headers != nil`.
unfoldable pub read_response : Option Response → Finalize → Round
unfolding read_body
read_response resp f = elim f.err [
  | some e ↦ break f
  | none ↦ elim resp [ some r ↦ read_body r f r.body | none ↦ nil_response ]
]

-- `for headers != nil { … }` with fuel; no result if it runs out or the code panics.
unfoldable pub read_loop : ℕ → Option Response → Finalize → Option Finalize
unfolding read_response
read_loop zero resp f = none
read_loop (suc fuel) resp f = elim f.headers [
  | none ↦ some f
  | some h ↦ elim (read_response resp f) [
    | again f' ↦ read_loop fuel resp f'
    | break f' ↦ some f'
    | nil_response ↦ none
  ]
]

-- What the FINALIZE state hands to the callback: the status, then the headers and the body, or nil
-- and the error. `of_int` is Go's conversion of an int to a float64.
unfoldable pub callback_arguments : (ℕ → ℕ) → Option Response → Finalize → List LValue
unfolding map_table
callback_arguments of_int resp f =
    number (of_int (elim resp [ none ↦ status_bad_gateway | some r ↦ r.status_code ]))
    ∷ elim f.err [
      | some e ↦ nil ∷ string e ∷ []
      | none ↦ table (map_table (elim f.headers [ none ↦ [] | some h ↦ h ])) ∷ string f.body ∷ []
    ]

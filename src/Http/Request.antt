-- ===== src/Http/Request.antt =====
-- module_http.go: `request` and `request_async`. They check their arguments and build the request
-- in the same lines, but for the places of the arguments.
use runtimelua.Common.{
  ℕ, ◌+◌, Bool, not, ◌||◌, ◌⊎◌, inl, inr, Option, none, some, List, [], ◌∷◌, ◌++◌, Bytes, codes,
  bytes_eq, if◌then◌else◌,
}
use runtimelua.Common.Text.{to_upper}
use runtimelua.Common.Word.{is_pos64, mul64}
use runtimelua.Lua.{LValue, number, string, table, Entries}
use runtimelua.Luaconv.Convert.{Api, GoValue, gstring, Fields, go_table}
use runtimelua.Event.Object.{ReadAll, read, read_error, Response}
use runtimelua.Http.Body.{Headers, first_values, map_table, body_error}
use runtimelua.Runtime.World.{World}
use runtimelua.Runtime.Api.{send_request}

-- The `http.Request` that the functions build: the body if it is not empty, the timeout in
-- nanoseconds, and the headers in the order in which they are added.
pub record Request : Type 0 where
  pub method : Bytes
  pub url : Bytes
  pub body : Option Bytes
  pub timeout : ℕ
  pub headers : Headers

-- What the functions call: the checks of gopher-lua, whose `none` is the error that they raise, on
-- `int64` as a pattern of 64 bits; the error of `http.NewRequestWithContext` for a method and a URL;
-- the order in which `range` goes through a map; and the client.
pub record Outer : Type 0 where
  pub api : Api
  pub check_string : ℕ → List LValue → Option Bytes
  pub check_table : ℕ → List LValue → Option Entries
  pub check_function : ℕ → List LValue → Option ℕ
  pub opt_string : ℕ → Bytes → List LValue → Option Bytes
  pub opt_int64 : ℕ → ℕ → List LValue → Option ℕ
  pub bad_request : Bytes → Bytes → Option Bytes
  pub ranged : Option Fields → List (Bytes × GoValue)
  pub run : Request → Bytes ⊎ Response

-- An early return: an error about an argument, or an error that the function raises.
pub data Failure : Type 0 where
  type_error : ℕ → Failure
  arg_error : ℕ → Failure
  raised : Bytes → Failure

-- How a function ends: early, with the values that it pushes, or with an event, whose send blocks at
-- `none`.
pub data Handled : Type 0 where
  failed : Failure → Handled
  responded : List LValue → Handled
  sent : Option World → Handled

-- An early return, or the rest.
unfoldable pub checked {ℓ} :
    {A : Type ℓ} → Failure → Option A → (A → Failure ⊎ Request) → Failure ⊎ Request
checked e none rest = inl e
checked e (some a) rest = rest a

unfoldable pub unless : Failure → Bool → Failure ⊎ Request → Failure ⊎ Request
unless e ok rest = if ok then rest else inl e

-- The switch on the method.
unfoldable pub is_method : Bytes → Bool
is_method m =
    bytes_eq m (codes "GET")
    || bytes_eq m (codes "POST")
    || bytes_eq m (codes "PUT")
    || bytes_eq m (codes "PATCH")
    || bytes_eq m (codes "DELETE")
    || bytes_eq m (codes "HEAD")

-- `if timeoutMs <= 0 { timeoutMs = 5_000 }`.
unfoldable pub timeout_ms : ℕ → ℕ
timeout_ms t = if is_pos64 t then t else 5000

unfoldable pub request_body : Bytes → Option Bytes
request_body [] = none
request_body (b ∷ bs) = some (b ∷ bs)

-- `for k, v := range httpHeaders { vs, ok := v.(string); … req.Header.Add(k, vs) }`.
unfoldable pub add_headers : List (Bytes × GoValue) → Option Headers
add_headers [] = some []
add_headers ((k, gstring v) ∷ rest) = elim (add_headers rest) [
  | none ↦ none
  | some hs ↦ some ((k, v) ∷ hs)
]
add_headers ((k, _) ∷ rest) = none

abbrev pub not_strings : Bytes
not_strings = codes "HTTP header values must be strings"

abbrev pub request_error : Bytes → Bytes
request_error e = codes "HTTP request error: " ++ e

-- `http.NewRequestWithContext` and the headers.
unfoldable pub build : Outer → Bytes → Bytes → Entries → Bytes → ℕ → Failure ⊎ Request
unfolding checked add_headers timeout_ms request_body
build o url method es body t = elim (o.bad_request method url) [
  | some e ↦ inl (raised (request_error e))
  | none ↦ checked (raised not_strings) (add_headers (o.ranged (go_table o.api es))) (λ hs.
      inr (record {
        method = method;
        url = url;
        body = request_body body;
        timeout = mul64 (timeout_ms t) 1000000;
        headers = hs;
      }))
]

-- The checks, where the argument `i` is the URL, those behind it are the method, the headers, the
-- body and the timeout.
unfoldable pub prepare : Outer → ℕ → List LValue → Failure ⊎ Request
unfolding checked unless is_method build
prepare o i args = checked (type_error i) (o.check_string i args) (λ url.
    checked (type_error (i + 1)) (o.check_string (i + 1) args) (λ method.
      checked (type_error (i + 2)) (o.check_table (i + 2) args) (λ es.
        checked (type_error (i + 3)) (o.opt_string (i + 3) [] args) (λ body.
          unless (arg_error i) (not (bytes_eq url [])) (
            unless (arg_error (i + 1)) (is_method (to_upper method)) (
              checked (type_error (i + 4)) (o.opt_int64 (i + 4) 5000 args)
                (λ t. build o url (to_upper method) es body t)))))))

-- The response's body is read, then its headers.
unfoldable pub respond : Outer → Response → ReadAll → Handled
unfolding body_error
respond o r (read_error e) = failed (raised (body_error e))
respond o r (read body) = responded (
    number (o.api.of_int r.status_code)
    ∷ table (map_table (first_values r.header))
    ∷ string body
    ∷ [])

unfoldable pub finish_request : Outer → Failure ⊎ Request → Handled
unfolding respond
finish_request o (inl e) = failed e
finish_request o (inr q) = elim (o.run q) [
  | inl e ↦ failed (raised (request_error e))
  | inr r ↦ respond o r r.body
]

unfoldable pub request : Outer → List LValue → Handled
unfolding finish_request prepare
request o args = finish_request o (prepare o 1 args)

unfoldable pub finish_async : ℕ → World → Failure ⊎ Request → Handled
finish_async fn w (inl e) = failed e
finish_async fn w (inr q) = sent (send_request fn w)

-- A function that `CheckFunction` gives is never nil, so that check never fails.
unfoldable pub request_async : Outer → List LValue → World → Handled
unfolding finish_async prepare
request_async o args w = elim (o.check_function 1 args) [
  | none ↦ failed (type_error 1)
  | some fn ↦ finish_async fn w (prepare o 2 args)
]

-- The functions of the module, by their names.
unfoldable pub http_functions : List (Bytes × (Outer → List LValue → World → Handled))
http_functions =
    (codes "request", λ o args w. request o args) ∷ (codes "request_async", request_async) ∷ []

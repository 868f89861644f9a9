-- ===== src/Tests/Http.antt =====
-- The functions of the module http on concrete arguments.
use runtimelua.Common.{
  ℕ, ◌≡◌, ◌↔◌, ◌⊎◌, inr, List, [], ◌∷◌, some, none, false, Option, Bytes, codes, zero, suc,
}
use runtimelua.Lua.{LValue, nil, string, number, function, table, end, entry}
use runtimelua.Luaconv.Convert.{GoValue, Fields, no_field, field}
use runtimelua.Event.Object.{Response, read}
use runtimelua.Http.Body.{map_table, first_values}
use runtimelua.Http.Request.{
  Request, Outer, Failure, failed, responded, sent, request, request_async,
}
use runtimelua.Http.Prepare.{Asks}
use runtimelua.Http.Checks.{request_async-sent, request-responded}
use runtimelua.Runtime.World.{World, preloads}
use runtimelua.Runtime.Api.{send_request}
use runtimelua.Tests.Values.{api}

abbrev nth : ℕ → List LValue → LValue
nth (suc zero) (v ∷ rest) = v
nth (suc (suc i)) (_ ∷ rest) = nth (suc i) rest
nth _ _ = nil

abbrev text_of : LValue → Option Bytes
text_of (string s) = some s
text_of _ = none

abbrev listed : Fields → List (Bytes × GoValue)
listed no_field = []
listed (field k v rest) = (k, v) ∷ listed rest

abbrev answer : Response
answer = record {
  status_code = 200;
  header = (codes "Server", codes "nginx" ∷ codes "x" ∷ []) ∷ [];
  body = read (codes "ok");
}

abbrev client : Outer
client = record {
  api = api;
  check_string = λ i args. text_of (nth i args);
  check_table = λ i args. elim (nth i args) [ table es ↦ some es | _ ↦ none ];
  check_function = λ i args. elim (nth i args) [ function f ↦ some f | _ ↦ none ];
  opt_string = λ i d args. elim (nth i args) [ nil ↦ some d | v ↦ text_of v ];
  opt_int64 = λ i d args. elim (nth i args) [ nil ↦ some d | number p ↦ some p | _ ↦ none ];
  bad_request = λ method url. none;
  ranged = λ m. elim m [ none ↦ [] | some fs ↦ listed fs ];
  run = λ q. inr answer;
}

abbrev get_args : List LValue
get_args =
    string (codes "http://a")
    ∷ string (codes "get")
    ∷ table (entry (string (codes "X")) (string (codes "1")) end)
    ∷ []

request-responded_example :
    (request client get_args
      ≡ responded (
          number 400
          ∷ table (entry (string (codes "Server")) (string (codes "nginx")) end)
          ∷ string (codes "ok")
          ∷ []))
    ↔ ((q : Request) × (r : Response) × (body : Bytes) × Asks client 1 get_args q
        × (client.run q ≡ inr r)
        × (r.body ≡ read body)
        × (number 400
              ∷ table (entry (string (codes "Server")) (string (codes "nginx")) end)
              ∷ string (codes "ok")
              ∷ []
            ≡ number (api.of_int r.status_code)
              ∷ table (map_table (first_values r.header))
              ∷ string body
              ∷ []))
request-responded_example = request-responded client get_args (
    number 400
    ∷ table (entry (string (codes "Server")) (string (codes "nginx")) end)
    ∷ string (codes "ok")
    ∷ [])

abbrev empty_world : World
empty_world = record {
  store = [];
  channel = [];
  done = false;
  lua_package = preloads [];
  loaded = [];
  calls = [];
}

request_async-sent_example :
    ((r : Option World)
      → (request_async client (function 7 ∷ get_args) empty_world ≡ sent r) ↔ (
          (fn : ℕ) × (q : Request) × (some 7 ≡ some fn)
          × Asks client 2 (function 7 ∷ get_args) q
          × (r ≡ send_request fn empty_world)))
    × (((fn : ℕ) × (q : Request) × (some 7 ≡ some fn)
          × Asks client 2 (function 7 ∷ get_args) q
          × (request_async client (function 7 ∷ get_args) empty_world
              ≡ sent (send_request fn empty_world)))
        ⊎ ((e : Failure) × (request_async client (function 7 ∷ get_args) empty_world ≡ failed e)))
request_async-sent_example = request_async-sent client (function 7 ∷ get_args) empty_world

-- ===== src/Http/Checks.antt =====
-- When `request` and `request_async` of module_http.go do what they are called for.
use runtimelua.Common.{
  ℕ, ◌≡◌, refl, arith, ◌↔◌, ◌⊎◌, inl, inr, Option, some, List, [], ◌∷◌, Bytes, Option-cases,
  Sum-cases,
}
use runtimelua.Lua.{LValue, number, string, table}
use runtimelua.Event.Object.{ReadAll, read, read_error, Response}
use runtimelua.Http.Body.{first_values, map_table}
use runtimelua.Runtime.World.{World}
use runtimelua.Runtime.Api.{send_request}
use runtimelua.Http.Request.{
  Request, Outer, Failure, type_error, failed, responded, sent, prepare, respond, finish_request,
  request, finish_async, request_async,
}
use runtimelua.Http.Prepare.{Asks, prepare-inr, prepare_lem}

-- request_async sends an event to the runtime if and only if its first argument is a function and
-- the others ask for a request that net/http takes; and then it sends one, with this function and no
-- response yet, or blocks at a full channel. In every other case it ends with an error: it sends and
-- pushes nothing.
pub request_async-sent :
    (o : Outer) (args : List LValue) (w : World)
    → ((r : Option World)
        → (request_async o args w ≡ sent r) ↔ (
            (fn : ℕ) × (q : Request) × (o.check_function 1 args ≡ some fn)
            × Asks o 2 args q
            × (r ≡ send_request fn w)))
      × (((fn : ℕ) × (q : Request) × (o.check_function 1 args ≡ some fn)
            × Asks o 2 args q
            × (request_async o args w ≡ sent (send_request fn w)))
          ⊎ ((e : Failure) × (request_async o args w ≡ failed e)))
unfolding request_async finish_async
request_async-sent o args w = (λ r. (there r, back r), either)
  where
    there :
        (r : Option World)
        → request_async o args w ≡ sent r
        → (fn : ℕ) × (q : Request) × (o.check_function 1 args ≡ some fn)
          × Asks o 2 args q
          × (r ≡ send_request fn w)
    there r h = elim (Option-cases (o.check_function 1 args)) [
      | inl bad ↦ absurd (ground (arith, h, bad))
      | inr (fn, is) ↦ elim (Sum-cases (prepare o 2 args)) [
        | inl (e, bad) ↦ absurd (ground (arith, h, is, bad))
        | inr (q, good) ↦ (fn, q, is, prepare-inr o 2 args q good, ground (arith, h, is, good))
      ]
    ]

    back :
        (r : Option World)
        → (fn : ℕ) × (q : Request) × (o.check_function 1 args ≡ some fn)
          × Asks o 2 args q
          × (r ≡ send_request fn w)
        → request_async o args w ≡ sent r
    back r (fn, q, is, asks, same) = ground (arith, is, same, prepare_lem o 2 args q asks)

    either :
        ((fn : ℕ) × (q : Request) × (o.check_function 1 args ≡ some fn)
          × Asks o 2 args q
          × (request_async o args w ≡ sent (send_request fn w)))
        ⊎ ((e : Failure) × (request_async o args w ≡ failed e))
    either = elim (Option-cases (o.check_function 1 args)) [
      | inl bad ↦ inr (type_error 1, ground (arith, bad))
      | inr (fn, is) ↦ elim (Sum-cases (prepare o 2 args)) [
        | inl (e, bad) ↦ inr (e, ground (arith, is, bad))
        | inr (q, good) ↦ inl (fn, q, is, prepare-inr o 2 args q good, ground (arith, is, good))
      ]
    ]

-- request pushes values if and only if its arguments ask for a request that net/http takes, the
-- client answers it and the whole body can be read; and then they are the status, a table of the
-- first value of each header of the answer, and the body.
pub request-responded :
    (o : Outer) (args : List LValue) (vs : List LValue)
    → (request o args ≡ responded vs) ↔ (
        (q : Request) × (r : Response) × (body : Bytes) × Asks o 1 args q
        × (o.run q ≡ inr r)
        × (r.body ≡ read body)
        × (vs
            ≡ number (o.api.of_int r.status_code)
              ∷ table (map_table (first_values r.header))
              ∷ string body
              ∷ []))
unfolding request finish_request respond
request-responded o args vs = (there, back)
  where
    Responds : Type 0
    Responds =
        (q : Request) × (r : Response) × (body : Bytes) × Asks o 1 args q
        × (o.run q ≡ inr r)
        × (r.body ≡ read body)
        × (vs
            ≡ number (o.api.of_int r.status_code)
              ∷ table (map_table (first_values r.header))
              ∷ string body
              ∷ [])

    there : request o args ≡ responded vs → Responds
    there h = elim (Sum-cases (prepare o 1 args)) [
      | inl (e, bad) ↦ absurd (ground (arith, h, bad))
      | inr (q, good) ↦ elim (Sum-cases (o.run q)) [
        | inl (e, bad) ↦ absurd (ground (arith, h, good, bad))
        | inr (r, is) ↦ answered q good r is r.body refl h
      ]
    ]
      where
        answered :
            (q : Request)
            → prepare o 1 args ≡ inr q
            → (r : Response) → o.run q ≡ inr r
            → (b : ReadAll) → r.body ≡ b
            → request o args ≡ responded vs
            → Responds
        answered q good r is (read body) all h =
            (q, r, body, prepare-inr o 1 args q good, is, all, ground (arith, h, good, is, all))
        answered q good r is (read_error e) all h = absurd (ground (arith, h, good, is, all))

    back : Responds → request o args ≡ responded vs
    back (q, r, body, asks, is, all, same) =
        ground (arith, is, all, same, prepare_lem o 1 args q asks)

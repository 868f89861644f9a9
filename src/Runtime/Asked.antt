-- ===== src/Runtime/Asked.antt =====
-- A request of request_async from its call to its callback.
use runtimelua.Common.{
  ℕ, ◌≡◌, refl, ap, ◌∙◌, arith, none, some, List, [], ◌∷◌, ◌++◌, length, get_elem?,
  get_elem?-set_self, lt-of_get_elem?, get_elem?-append_length,
}
use runtimelua.Lua.{LValue}
use runtimelua.Event.State.{event_state_progress}
use runtimelua.Event.Object.{HttpEvent, http_request, Response, valid, continue}
use runtimelua.Runtime.World.{World, put}
use runtimelua.Runtime.Api.{Env, new_request, send_request}
use runtimelua.Runtime.Exec.{pcall, returned}
use runtimelua.Runtime.Update.{update, update_http}
use runtimelua.Runtime.Process.{next, turn, take_turn, after_update, keep}
use runtimelua.Runtime.System.{respond}
use runtimelua.Runtime.Effect.{send-eq_some}
use runtimelua.Runtime.OneShot.{empty_reply, finalize_drops_response}

-- The event of a request whose goroutine runs.
abbrev pub asked : ℕ → HttpEvent
asked fn = record {
  base = record { value = event_state_progress };
  func = fn;
  resp = none;
  err = none;
}

-- The world when the goroutine of the request `a` has stored its answer.
abbrev pub answered_world : ℕ → ℕ → Response → World → World
answered_world a fn resp w = put a (http_request (respond (asked fn) (some resp) none)) w

send_request-stored :
    (fn : ℕ) (w w1 : World)
    → send_request fn w ≡ some w1
    → (get_elem? w1.store (length w.store) ≡ some (new_request fn)) × (w1.calls ≡ w.calls)
unfolding send_request
send_request-stored fn w w1 h =
    let (room, is) = send-eq_some (new_request fn) w h in
    rw is (get_elem?-append_length w.store (new_request fn), refl)

module _ (env : Env) (fn a : ℕ) (w1 : World)
    (at : get_elem? w1.store a ≡ some (new_request fn)) where
  first_turn :
      (elapse : ℕ) (swap : List ℕ)
      → turn env elapse a swap w1 ≡ next (swap ++ (a ∷ [])) (put a (http_request (asked fn)) w1)
  unfolding turn take_turn update update_http after_update keep put valid continue new_request
  first_turn elapse swap =
      let there =
        get_elem?-set_self w1.store a (http_request (asked fn))
          (lt-of_get_elem? w1.store a (new_request fn) at) in
      ground (arith, at, there)

  waiting_turn :
      (elapse : ℕ) (swap : List ℕ)
      → turn env elapse a swap (put a (http_request (asked fn)) w1)
        ≡ next (swap ++ (a ∷ [])) (put a (http_request (asked fn)) w1)
  unfolding turn take_turn update update_http after_update keep put valid continue
  waiting_turn elapse swap =
      let there =
        get_elem?-set_self w1.store a (http_request (asked fn))
          (lt-of_get_elem? w1.store a (new_request fn) at) in
      ground (arith, there)

  answered-at :
      (resp : Response)
      → get_elem? (answered_world a fn resp (put a (http_request (asked fn)) w1)).store a
        ≡ some (http_request (respond (asked fn) (some resp) none))
  unfolding put
  answered-at resp =
      let small = lt-of_get_elem? w1.store a (new_request fn) at in
      let there = get_elem?-set_self w1.store a (http_request (asked fn)) small in
      get_elem?-set_self _ a (http_request (respond (asked fn) (some resp) none))
        (lt-of_get_elem? _ a (http_request (asked fn)) there)

-- The way of a request of request_async that the channel takes. In its first turn the event goes to
-- PROGRESS and stays in the queue; in each further one it stays as it is, until the answer is there;
-- and in the turn after that, if the callback returns, the event leaves the queue, and of all these
-- turns the only call is one of the request's function, with the status of the answer, an empty
-- table and an empty string, whatever headers and body the answer has.
pub request_reaches_callback :
    (env : Env) (fn : ℕ) (w w1 : World) (resp : Response) (v : LValue) (w4 : World)
    → send_request fn w ≡ some w1
    → pcall env (empty_reply env (asked fn) resp) (
        answered_world (length w.store) fn resp (put (length w.store) (http_request (asked fn)) w1))
      ≡ returned v w4
    → let a = length w.store in
      let w2 = put a (http_request (asked fn)) w1 in
      ((elapse : ℕ) (swap : List ℕ) → turn env elapse a swap w1 ≡ next (swap ++ (a ∷ [])) w2)
      × ((elapse : ℕ) (swap : List ℕ) → turn env elapse a swap w2 ≡ next (swap ++ (a ∷ [])) w2)
      × ((elapse : ℕ) (swap : List ℕ)
          → (w5 : World) × (turn env elapse a swap (answered_world a fn resp w2) ≡ next swap w5)
            × (w5.calls ≡ empty_reply env (asked fn) resp ∷ w.calls))
unfolding respond put
request_reaches_callback env fn w w1 resp v w4 h called =
    let a = length w.store in
    let w2 = put a (http_request (asked fn)) w1 in
    let (at, same) = send_request-stored fn w w1 h in
    (
      first_turn env fn a w1 at,
      waiting_turn env fn a w1 at,
      λ elapse swap.
          let (w5, is, calls) =
            finalize_drops_response env a elapse swap (answered_world a fn resp w2)
              (respond (asked fn) (some resp) none) resp v w4 (answered-at env fn a w1 at resp) refl
              refl refl called in
          (w5, is, calls ∙ ap (λ cs. empty_reply env (asked fn) resp ∷ cs) same),
    )

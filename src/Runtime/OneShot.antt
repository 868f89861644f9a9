-- ===== src/Runtime/OneShot.antt =====
-- Events that run once: redis messages, the end of an HTTP request, hot reloads and `exit`.
use runtimelua.Common.{
  ℕ, ◌+◌, ◌==◌, if◌then◌else◌, ◌≤◌, ◌<◌, ◌≡◌, refl, true, false, none, some, List, [], ◌∷◌, ◌++◌,
  arith, length, get_elem?, get_elem?-set_self, lt-of_get_elem?,
}
use runtimelua.Lua.{LValue, number, string, table, end}
use runtimelua.Event.State.{
  StateEvent, event_state_initialize, event_state_finalize, event_state_complete,
}
use runtimelua.Event.State
use runtimelua.Event.Object.{
  Event, PubSubEvent, HttpEvent, Response, valid, continue, exit, pub_sub, http_request,
}
use runtimelua.Http.Body.{read_loop, callback_arguments, map_table}
use runtimelua.Runtime.World.{World, Call, callback, put, log_call}
use runtimelua.Runtime.Api.{Env}
use runtimelua.Runtime.Exec.{Called, returned, pcall}
use runtimelua.Runtime.Update.{
  finish_callback, update_pub_sub, update_exit, start_finalize, finalize, update_http, update,
}
use runtimelua.Runtime.Process.{next, turn, take_turn, after_update, keep}
use runtimelua.Runtime.Calls.{EndsIn, by_return, pcall-Effect}

-- An event that has completed has no further turn, in any world: it is dropped and nothing runs.
turn_over :
    (env : Env) (a elapse : ℕ) (swap : List ℕ) (w : World) (e : Event)
    → get_elem? w.store a ≡ some e
    → valid e ≡ false
    → turn env elapse a swap w ≡ next swap w
unfolding turn take_turn
turn_over env a elapse swap w e at over = rw (at, turn) (rw over)

-- A completed message: as it is after its callback.
abbrev pub handled : PubSubEvent → PubSubEvent
handled e = record e { base = record { value = event_state_complete } }

-- The call that a response without a header and a body would lead to.
abbrev pub empty_reply : Env → HttpEvent → Response → Call
empty_reply env e resp =
    callback e.func (number (env.api.of_int resp.status_code) ∷ table end ∷ string [] ∷ [])

module _ (env : Env) (a elapse : ℕ) (swap : List ℕ) (w : World) where
  still_there :
      (e : Event) (c : Call) {r : Called} {w' : World}
      → get_elem? w.store a ≡ some e
      → pcall env c w ≡ r
      → EndsIn w' r
      → (a < length w'.store) × (w'.calls ≡ c ∷ w.calls)
  unfolding log_call
  still_there e c at h ends =
      let effect = pcall-Effect env c w h ends in
      (omega (arith, effect.grows, lt-of_get_elem? w.store a e at), effect.same_calls)

  -- A redis message is handed to its callback in its first turn, once: whatever the callback
  -- returns, the event leaves the queue, complete, so that no other turn of it runs anything.
  pub message_once :
      (e : PubSubEvent) (v : LValue) (w' : World)
      → get_elem? w.store a ≡ some (pub_sub e)
      → e.base.value ≡ event_state_initialize
      → pcall env (callback e.func e.arguments) w ≡ returned v w'
      → let w'' = put a (pub_sub (handled e)) w' in
        (turn env elapse a swap w ≡ next swap w'')
        × (w''.calls ≡ callback e.func e.arguments ∷ w.calls)
        × ((later : ℕ) (queue : List ℕ) → turn env later a queue w'' ≡ next queue w'')
  unfolding turn take_turn update update_pub_sub finish_callback after_update keep put valid
      continue
  message_once e v w' at fresh h =
      let (below, logged) = still_there (pub_sub e) _ at h (by_return v) in
      let there = get_elem?-set_self w'.store a (pub_sub (handled e)) below in
      (
        ground (arith, at, fresh, h, there),
        logged,
        λ later queue.
            turn_over env a later queue (put a (pub_sub (handled e)) w') (pub_sub (handled e)) there
              refl,
      )

  -- What the callback of `request_async` gets when the response has come: its status, an empty table
  -- and an empty string, for every header and every body of the response. The event is complete.
  pub finalize_drops_response :
      (e : HttpEvent) (resp : Response) (v : LValue) (w' : World)
      → get_elem? w.store a ≡ some (http_request e)
      → e.base.value ≡ event_state_finalize
      → e.resp ≡ some resp
      → e.err ≡ none
      → pcall env (empty_reply env e resp) w ≡ returned v w'
      → (w'' : World) × (turn env elapse a swap w ≡ next swap w'')
        × (w''.calls ≡ empty_reply env e resp ∷ w.calls)
  unfolding turn take_turn update update_http finalize read_loop start_finalize callback_arguments
      map_table finish_callback after_update keep put valid continue
  finalize_drops_response e resp v w' at ready got fine h =
      let (below, logged) = still_there (http_request e) _ at h (by_return v) in
      let e' = record e { base = record { value = event_state_complete } } in
      let there = get_elem?-set_self w'.store a (http_request e') below in
      (put a (http_request e') w', ground (arith, at, ready, got, fine, h, there), logged)

  -- `exit` takes effect in the turn of its event: the context is cancelled and no script runs; the
  -- event goes on to its next state and stays in the queue until that is COMPLETE.
  pub exit_cancels :
      (e : StateEvent)
      → get_elem? w.store a ≡ some (exit e)
      → e.value ≤ event_state_finalize
      → turn env elapse a swap w
        ≡ next
            (if e.value == event_state_finalize then swap else swap ++ (a ∷ []))
            (record (put a (exit (record { value = e.value + 1 })) w) { done = true })
  unfolding turn take_turn update update_exit after_update keep put valid continue
  exit_cancels e at early =
      let there =
        get_elem?-set_self w.store a (exit (State.update e))
          (lt-of_get_elem? w.store a (exit e) at) in
      ground (arith, at, early, there)

-- ===== src/Runtime/Reloads.antt =====
-- What a runtime answers to the watcher that sends it a script (scripts.go, runtime.go).
use runtimelua.Common.{
  ℕ, ◌≤◌, ◌≡◌, ◌≢◌, refl, ap, ◌∙◌, ◌⊎◌, inl, inr, none, some, [], Bytes, arith, length, get_elem?,
  get_elem?-set_self, lt-of_get_elem?, Option-cases, Sum-cases,
}
use runtimelua.Lua.{LValue}
use runtimelua.Event.State
use runtimelua.Event.State.{load, event_state_initialize, event_state_complete}
use runtimelua.Event.Object.{Error, FileCache, ReloadEvent, hotfix, valid, continue}
use runtimelua.Runtime.World.{World, chunk, put, send, log_call}
use runtimelua.Runtime.Api.{Env}
use runtimelua.Runtime.Exec.{Called, returned, raised, never, pcall}
use runtimelua.Runtime.Update.{
  reloaded, hotfix_file, finish_hotfix, finish_reload, update_reload, update,
}
use runtimelua.Runtime.Process.{
  Sorter, next, turn, take_turn, after_update, keep, resume, Loop, running, finish_tick, tick,
  select, incoming,
}
use runtimelua.Runtime.Calls.{by_return, by_error, pcall-Effect}
use runtimelua.Runtime.Schedule.{tick_alone}
use runtimelua.Runtime.Arrivals.{
  IsIdle, sent_event, taken_event, send-idle, select-idle, taken_event_at,
}

-- The event that the watcher sends, and the event when it has run, with its answer on the channel.
abbrev pub asked : FileCache → ReloadEvent
asked m = record {
  base = record { value = event_state_initialize };
  module_file = m;
  result_ch = none;
}

abbrev pub answered : FileCache → Error → ReloadEvent
answered m err = record {
  base = record { value = event_state_complete };
  module_file = m;
  result_ch = some err;
}

-- How a runtime tries the new text of a script: it cannot read the file or compile the text, or it
-- runs it, which returns or raises an error.
pub data Tried (env : Env) (m : FileCache) (w : World) : Error → Type 0 where
  unread : (e : Bytes) → env.read_file m.path ≡ inl e → Tried env m w (some e)
  no_syntax :
      (content e : Bytes)
      → env.read_file m.path ≡ inr content
      → env.compile m.name content ≡ some e
      → Tried env m w (some e)
  ran :
      (content : Bytes) (v : LValue) (w' : World)
      → env.read_file m.path ≡ inr content
      → env.compile m.name content ≡ none
      → pcall env (chunk m.name content) w ≡ returned v w'
      → Tried env m w none
  broke :
      (content e : Bytes) (w' : World)
      → env.read_file m.path ≡ inr content
      → env.compile m.name content ≡ none
      → pcall env (chunk m.name content) w ≡ raised e w'
      → Tried env m w (some e)

Called-cases :
    (r : Called)
    → ((v : LValue) × (w : World) × (r ≡ returned v w))
      ⊎ (((e : Bytes) × (w : World) × (r ≡ raised e w)) ⊎ (r ≡ never))
Called-cases (returned v w) = inl (v, w, refl)
Called-cases (raised e w) = inr (inl (e, w, refl))
Called-cases never = inr (inr refl)

-- A hotfix that does not hang ends with the answer of such a try, and with all events kept.
hotfix_file-Tried :
    (env : Env) (m : FileCache) (w : World)
    → ((content : Bytes) → pcall env (chunk m.name content) w ≢ never)
    → (err : Error) × (m' : FileCache) × (w' : World) × (hotfix_file env m w ≡ reloaded err m' w')
      × Tried env m w err
      × (length w.store ≤ length w'.store)
unfolding hotfix_file finish_hotfix log_call
hotfix_file-Tried env m w ends = elim (Sum-cases (env.read_file m.path)) [
  | inl (e, bad) ↦ (some e, m, w, rw (bad, hotfix_file) refl, unread e bad, omega arith)
  | inr (content, good) ↦ elim (Option-cases (env.compile m.name content)) [
    | inr (e, bad) ↦
        (some e, m, w, rw (good, bad, hotfix_file) refl, no_syntax content e good bad, omega arith)
    | inl fine ↦ elim (Called-cases (pcall env (chunk m.name content) w)) [
      | inl (v, w', h) ↦ (
        none,
        record m { content = content },
        w',
        rw (good, fine, h, hotfix_file) refl,
        ran content v w' good fine h,
        (pcall-Effect env (chunk m.name content) w h (by_return v)).grows,
      )
      | inr (inl (e, w', h)) ↦ (
        some e,
        m,
        w',
        rw (good, fine, h, hotfix_file) refl,
        broke content e w' good fine h,
        (pcall-Effect env (chunk m.name content) w h (by_error e)).grows,
      )
      | inr (inr h) ↦ absurd (ends content h)
    ]
  ]
]

-- The turn of the reload leaves it out of the queue, with its answer.
turn_answers :
    (env : Env) (m m' : FileCache) (err : Error) (elapse a : ℕ) (w w' : World)
    → get_elem? w.store a ≡ some (hotfix (asked m))
    → hotfix_file env m w ≡ reloaded err m' w'
    → length w.store ≤ length w'.store
    → turn env elapse a [] w ≡ next [] (put a (hotfix (answered m' err)) w')
unfolding turn take_turn after_update keep valid continue State.valid State.continue update
    update_reload finish_reload load put
turn_answers env m m' err elapse a w w' at h grows =
    let found : get_elem? (put a (hotfix (answered m' err)) w').store a
        ≡ some (hotfix (answered m' err)) =
      get_elem?-set_self w'.store a (hotfix (answered m' err))
        (omega (arith, lt-of_get_elem? w.store a (hotfix (asked m)) at, grows)) in
    ap (take_turn env elapse a [] w) at
    ∙ ap (λ r. after_update a [] (finish_reload hotfix a (asked m) r)) h
    ∙ ap (keep a [] (put a (hotfix (answered m' err)) w')) found

-- A script file is sent as a hotfix to a loop with an empty queue and an empty channel, in which the
-- call of the text of the file, should it be made, ends. The send goes through and the next round of
-- select takes the event. In the next tick the file is tried: with `err` the loop answers that it cannot
-- be read, that it does not compile, or what the call raised, and with none that the text has run. The loop goes
-- on with an empty queue, and the event, complete, holds this answer.
pub hotfix_answers :
    (s : Sorter) (env : Env) (m : FileCache) (l : Loop) (elapse : ℕ)
    → IsIdle l
    → ((content : Bytes)
        → pcall env (chunk m.name content) (taken_event (hotfix (asked m)) l).world ≢ never)
    → (send (hotfix (asked m)) l.world ≡ some (sent_event (hotfix (asked m)) l.world))
      × (select s env incoming (record l { world = sent_event (hotfix (asked m)) l.world })
          ≡ some (running (taken_event (hotfix (asked m)) l)))
      × (err : Error) × Tried env m (taken_event (hotfix (asked m)) l).world err
      × (m' : FileCache) × (l' : Loop) × (tick s env elapse (taken_event (hotfix (asked m)) l)
          ≡ running l')
      × (l'.queue ≡ [])
      × (get_elem? l'.world.store (length l.world.store) ≡ some (hotfix (answered m' err)))
unfolding put resume finish_tick
hotfix_answers s env m l elapse idle ends =
    let e = hotfix (asked m) in
    let a = length l.world.store in
    let k = taken_event e l in
    let (err, m', w', h, tried, grows) = hotfix_file-Tried env m k.world ends in
    let at = taken_event_at e l in
    (
      send-idle e l.world idle.no_channel,
      select-idle s env e l idle.no_queue,
      err,
      tried,
      m',
      record k { queue = []; world = put a (hotfix (answered m' err)) w' },
      tick_alone s env elapse a k refl
          ∙ ap (λ r. finish_tick k (resume next r))
              (turn_answers env m m' err elapse a k.world w' at h grows),
      refl,
      get_elem?-set_self w'.store a (hotfix (answered m' err))
          (omega (arith, lt-of_get_elem? k.world.store a e at, grows)),
    )

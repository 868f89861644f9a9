-- ===== src/Runtime/Update.antt =====
-- The methods `Update` of the event types (module_event.go, runtime.go, scripts.go,
-- module_redis.go, module_http.go), each on the event at its address; that of module_zmq.go stands in
-- Runtime/Packets.
use runtimelua.Common.{
  ℕ, true, false, inl, inr, Option, none, some, [], ◌∷◌, Bytes, get_elem?, ◌==◌, if◌then◌else◌,
}
use runtimelua.Common.Word.{sub64, is_pos64}
use runtimelua.Lua.{LValue, is_true}
use runtimelua.Event.State.{
  StateEvent, event_state_initialize, event_state_progress, event_state_finalize,
  event_state_complete,
}
use runtimelua.Event.State
use runtimelua.Event.Timer.{TimerEvent}
use runtimelua.Event.Timer
use runtimelua.Event.Object.{
  Event, LocalTimerEvent, ReloadEvent, FileCache, PubSubEvent, HttpEvent, Error, timer, exit,
  hotfix, patch, pub_sub, http_request, zmq,
}
use runtimelua.Http.Body.{Finalize, read_loop, callback_arguments}
use runtimelua.Runtime.World.{World, callback, chunk, put, has_preload, set_preload, is_loaded}
use runtimelua.Runtime.Exec.{
  Called, returned, raised, never, Updated, updated, failed, blocked, fault, pcall,
}
use runtimelua.Runtime.Packets.{update_zmq}
use runtimelua.Runtime.Api.{Env}

-- `localTimerEvent.Update` after the callback: the event is read again, since the callback may have
-- stopped it.
unfoldable pub rearm : ℕ → LValue → World → Option Event → Updated
unfolding Timer.store
rearm a v w (some (timer t)) = updated (
    put a
      (timer (record t {
        timer =
            if is_true v
            then record t.timer { delay = t.timer.period }
            else Timer.store t.timer false;
      }))
      w)
rearm a v w _ = fault

unfoldable pub finish_timer : ℕ → Called → Updated
unfolding rearm
finish_timer a (returned v w) = rearm a v w (get_elem? w.store a)
finish_timer a (raised e w) = failed e w
finish_timer a never = blocked

-- `e.Delay -= elapse`.
unfoldable pub count_down : ℕ → LocalTimerEvent → LocalTimerEvent
count_down elapse t = record t { timer = record t.timer { delay = sub64 t.delay elapse } }

unfoldable pub update_timer : Env → ℕ → ℕ → LocalTimerEvent → World → Updated
unfolding count_down finish_timer
update_timer env a elapse t w =
    let t' = count_down elapse t in
    let w' = put a (timer t') w in
    if is_pos64 t'.delay
    then updated w'
    else finish_timer a (pcall env (callback t.fn (t.bind ∷ [])) w')

-- `localExitEvent.Update`.
unfoldable pub update_exit : ℕ → StateEvent → World → Updated
unfolding State.update
update_exit a e w = updated (record (put a (exit (State.update e)) w) { done = true })

-- How `hotfix` and `patch` of `localFileCache` end: with an error or nil, the file, and the world;
-- never; or by an error that is raised outside a protected call, and so panics.
pub data Reloaded : Type 0 where
  reloaded : Error → FileCache → World → Reloaded
  stuck : Reloaded
  unprotected : Reloaded

unfoldable pub finish_hotfix : FileCache → Bytes → Called → Reloaded
finish_hotfix m content (returned v w) = reloaded none (record m { content = content }) w
finish_hotfix m content (raised e w) = reloaded (some e) m w
finish_hotfix m content never = stuck

unfoldable pub hotfix_file : Env → FileCache → World → Reloaded
unfolding finish_hotfix
hotfix_file env m w = elim (env.read_file m.path) [
  | inl e ↦ reloaded (some e) m w
  | inr content ↦ elim (env.compile m.name content) [
    | some e ↦ reloaded (some e) m w
    | none ↦ finish_hotfix m content (pcall env (chunk m.name content) w)
  ]
]

unfoldable pub finish_patch : FileCache → Called → Reloaded
finish_patch m (returned v w) = reloaded none m w
finish_patch m (raised e w) = reloaded (some e) m w
finish_patch m never = stuck

unfoldable pub patch_file : Env → FileCache → World → Reloaded
unfolding finish_patch
patch_file env m w =
    if has_preload w.lua_package
    then (elim (env.compile m.name m.content) [
      | some e ↦ reloaded (some e) m w
      | none ↦ elim (set_preload m.name m.content w.lua_package) [
        | none ↦ unprotected
        | some p ↦
            let w' = record w { lua_package = p } in
            if is_loaded m.name w.loaded
            then finish_patch m (pcall env (chunk m.name m.content) w')
            else reloaded none m w'
      ]
    ])
    else unprotected

-- The send on `resultCh`, which holds one value, and the deferred `Store(COMPLETE)`.
unfoldable pub finish_reload : (ReloadEvent → Event) → ℕ → ReloadEvent → Reloaded → Updated
finish_reload wrap a e stuck = blocked
finish_reload wrap a e unprotected = fault
finish_reload wrap a e (reloaded err m w) = elim e.result_ch [
  | some _ ↦ blocked
  | none ↦ updated (
      put a
        (wrap (record {
          base = record { value = event_state_complete };
          module_file = m;
          result_ch = some err;
        }))
        w)
]

-- `localHotfixEvent.Update` and `localPatchEvent.Update`.
unfoldable pub update_reload :
    (Env → FileCache → World → Reloaded)
    → (ReloadEvent → Event)
    → Env
    → ℕ
    → ReloadEvent
    → World
    → Updated
unfolding finish_reload
update_reload run wrap env a e w =
    if e.base.value == event_state_initialize
    then finish_reload wrap a e (run env e.module_file w)
    else updated w

-- The deferred `Store(COMPLETE)` of an event whose callback has ended.
unfoldable pub finish_callback : ℕ → Event → Called → Updated
finish_callback a e (returned v w) = updated (put a e w)
finish_callback a e (raised x w) = failed x (put a e w)
finish_callback a e never = blocked

-- `pubSubEvent.Update`.
unfoldable pub update_pub_sub : Env → ℕ → PubSubEvent → World → Updated
unfolding finish_callback
update_pub_sub env a e w =
    if e.base.value == event_state_initialize
    then finish_callback a (pub_sub (record e { base = record { value = event_state_complete } }))
        (pcall env (callback e.func e.arguments) w)
    else updated w

-- The rounds of `for headers != nil` that the model runs: one is enough, since the map is nil before
-- the first.
abbrev pub read_fuel : ℕ
read_fuel = 1

unfoldable pub start_finalize : HttpEvent → Finalize
start_finalize e = record { headers = none; body = []; err = e.err }

unfoldable pub finalize : Env → ℕ → HttpEvent → World → Option Finalize → Updated
unfolding finish_callback
finalize env a e w none = fault
finalize env a e w (some f) =
    finish_callback a
      (http_request (record e { base = record { value = event_state_complete }; err = f.err }))
      (pcall env (callback e.func (callback_arguments env.api.of_int e.resp f)) w)

-- `localHTTPRequestEvent.Update`. The goroutine that INITIALIZE starts is a step of the
-- environment of the loop.
unfoldable pub update_http : Env → ℕ → HttpEvent → World → Updated
unfolding finalize start_finalize
update_http env a e w =
    if e.base.value == event_state_initialize
    then updated
        (put a (http_request (record e { base = record { value = event_state_progress } })) w)
    else if e.base.value == event_state_finalize
    then finalize env a e w (read_loop read_fuel e.resp (start_finalize e))
    else updated w

-- `e.Update(elapse, vm)`, by the type of the event.
unfoldable pub update : Env → ℕ → ℕ → Event → World → Updated
unfolding update_timer update_exit update_reload update_pub_sub update_http update_zmq
update env a elapse (timer t) w = update_timer env a elapse t w
update env a elapse (exit e) w = update_exit a e w
update env a elapse (hotfix e) w = update_reload hotfix_file hotfix env a e w
update env a elapse (patch e) w = update_reload patch_file patch env a e w
update env a elapse (pub_sub e) w = update_pub_sub env a e w
update env a elapse (http_request e) w = update_http env a e w
update env a elapse (zmq e) w = update_zmq env a e w

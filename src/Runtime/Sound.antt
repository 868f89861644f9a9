-- ===== src/Runtime/Sound.antt =====
-- Every update of every event keeps the invariant, and none of them faults.
use runtimelua.Common.{
  ℕ, ◌≡◌, refl, true, ◌∷◌, ◌⊎◌, inl, inr, Option, none, some, arith, get_elem?, get_elem?-set_self,
  lt-of_get_elem?, All-get_elem?, Bytes, Option-cases, Bool-cases, ◌==◌,
}
use runtimelua.Common.Word.{is_pos64}
use runtimelua.Event.State.{
  StateEvent, event_state_initialize, event_state_finalize, event_state_complete,
}
use runtimelua.Event.State
use runtimelua.Event.Object.{
  Event, LocalTimerEvent, ReloadEvent, FileCache, PubSubEvent, HttpEvent, timer, exit, hotfix,
  patch, pub_sub, http_request, zmq,
}
use runtimelua.Http.Body.{read_loop}
use runtimelua.Runtime.World.{
  World, Package, preloads, no_preload, no_package, chunk, put, has_preload, set_preload, is_loaded,
}
use runtimelua.Runtime.Api.{Env}
use runtimelua.Runtime.Exec.{Called, returned, raised, never, pcall}
use runtimelua.Runtime.Update.{
  Reloaded, reloaded, stuck, unprotected, count_down, update_timer, update_exit, finish_hotfix,
  hotfix_file, finish_patch, patch_file, finish_reload, read_fuel, update_reload, finish_callback,
  update_pub_sub, start_finalize, finalize, update_http, update,
}
use runtimelua.Runtime.Effect.{IsEvent, IsReload}
use runtimelua.Runtime.Queued.{update_zmq-Sound}
use runtimelua.Runtime.Globals.{IsPackage, KeepsPackage}
use runtimelua.Runtime.Invariant.{
  UpdateSound-trans, IsWorld, Follows, Follows-refl, Follows-trans, put-Follows, CallSound,
  pcall-CallSound, UpdateSound, finish_timer-Sound,
}

CallSound-trans : (u v : World) (r : Called) → Follows u v → CallSound v r → CallSound u r
CallSound-trans u v (returned x w) f g = Follows-trans u v w f g
CallSound-trans u v (raised x w) f g = Follows-trans u v w f g
CallSound-trans u v never f g = tt

update_timer-Sound :
    (env : Env) (safe : KeepsPackage env) (a elapse : ℕ) (t : LocalTimerEvent) (w : World)
    → IsWorld w
    → get_elem? w.store a ≡ some (timer t)
    → UpdateSound w (update_timer env a elapse t w)
unfolding update_timer count_down put
update_timer-Sound env safe a elapse t w k at =
    let t' = count_down elapse t in
    let small : IsEvent (timer t) = All-get_elem? IsEvent w.store a (timer t) k.events at in
    let f = put-Follows a (timer t') w small k in
    elim (Bool-cases (is_pos64 t'.delay)) [
      | inl e ↦ rw e f
      | inr e ↦ rw e (
          UpdateSound-trans w (put a (timer t') w) _ f (
            finish_timer-Sound env safe _ a t' (put a (timer t') w) f.is_world
              (get_elem?-set_self w.store a (timer t') (lt-of_get_elem? w.store a (timer t) at))))
    ]

update_exit-Sound :
    (a : ℕ) (e : StateEvent) (w : World)
    → IsWorld w
    → IsEvent (exit e)
    → UpdateSound w (update_exit a e w)
unfolding update_exit State.update
update_exit-Sound a e w k h =
    let f = put-Follows a (exit (State.update e)) w (ground (arith, h)) k in
    record {
      is_world = record {
        bounded = f.is_world.bounded;
        in_store = f.is_world.in_store;
        events = f.is_world.events;
        packaged = f.is_world.packaged;
      };
      grows = f.grows;
    }

finish_callback-Sound :
    (a : ℕ) (e : Event) (w : World) (r : Called)
    → IsEvent e
    → CallSound w r
    → UpdateSound w (finish_callback a e r)
unfolding finish_callback
finish_callback-Sound a e w (returned v w') h f =
    Follows-trans w w' _ f (put-Follows a e w' h f.is_world)
finish_callback-Sound a e w (raised x w') h f =
    Follows-trans w w' _ f (put-Follows a e w' h f.is_world)
finish_callback-Sound a e w never h f = tt

update_pub_sub-Sound :
    (env : Env) (safe : KeepsPackage env) (a : ℕ) (e : PubSubEvent) (w : World)
    → IsWorld w
    → UpdateSound w (update_pub_sub env a e w)
unfolding update_pub_sub
update_pub_sub-Sound env safe a e w k = elim (Bool-cases (e.base.value == event_state_initialize)) [
  | inl h ↦ rw h (finish_callback-Sound a _ w _ (omega arith) (pcall-CallSound env safe _ w k))
  | inr h ↦ rw h (record { is_world = k; grows = omega arith })
]

abbrev ReloadSound : World → Reloaded → Type 0
ReloadSound w (reloaded err m w') = Follows w w'
ReloadSound w stuck = Unit
ReloadSound w unprotected = ⊥

finish_hotfix-Sound :
    (m : FileCache) (content : Bytes) (w : World) (r : Called)
    → CallSound w r
    → ReloadSound w (finish_hotfix m content r)
unfolding finish_hotfix
finish_hotfix-Sound m content w (returned v w') f = f
finish_hotfix-Sound m content w (raised x w') f = f
finish_hotfix-Sound m content w never f = tt

finish_patch-Sound :
    (m : FileCache) (w : World) (r : Called) → CallSound w r → ReloadSound w (finish_patch m r)
unfolding finish_patch
finish_patch-Sound m w (returned v w') f = f
finish_patch-Sound m w (raised x w') f = f
finish_patch-Sound m w never f = tt

hotfix_file-Sound :
    (env : Env) (safe : KeepsPackage env) (m : FileCache) (w : World)
    → IsWorld w
    → ReloadSound w (hotfix_file env m w)
unfolding hotfix_file
hotfix_file-Sound env safe m w k = by_file (env.read_file m.path)
  where
    by_compile :
        (content : Bytes) (o : Option Bytes)
        → ReloadSound w (elim o [
          | some e ↦ reloaded (some e) m w
          | none ↦ finish_hotfix m content (pcall env (chunk m.name content) w)
        ])
    by_compile content (some e) = Follows-refl w k
    by_compile content none = finish_hotfix-Sound m content w _ (pcall-CallSound env safe _ w k)

    by_file :
        (r : Bytes ⊎ Bytes)
        → ReloadSound w (elim r [
          | inl e ↦ reloaded (some e) m w
          | inr content ↦ elim (env.compile m.name content) [
            | some e ↦ reloaded (some e) m w
            | none ↦ finish_hotfix m content (pcall env (chunk m.name content) w)
          ]
        ])
    by_file (inl e) = Follows-refl w k
    by_file (inr content) = by_compile content (env.compile m.name content)

-- The table takes the new loader.
put_preload :
    (name content : Bytes) (p : Package)
    → IsPackage p
    → (has_preload p ≡ true) × (q : Package) × (set_preload name content p ≡ some q) × IsPackage q
unfolding has_preload set_preload
put_preload name content (preloads ps) k = (refl, preloads ((name, content) ∷ ps), refl, tt)
put_preload name content no_preload k = elim k [ ]
put_preload name content no_package k = elim k [ ]

patch_file-Sound :
    (env : Env) (safe : KeepsPackage env) (m : FileCache) (w : World)
    → IsWorld w
    → ReloadSound w (patch_file env m w)
unfolding patch_file
patch_file-Sound env safe m w k =
    let (there, p, taken, fine) = put_preload m.name m.content w.lua_package k.packaged in
    let v : World = record w { lua_package = p } in
    let is : IsWorld v = record {
      bounded = k.bounded;
      in_store = k.in_store;
      events = k.events;
      packaged = fine;
    } in
    let f : Follows w v = record { is_world = is; grows = omega arith } in
    elim (Option-cases (env.compile m.name m.content)) [
      | inr (x, e) ↦ rw (there, e, patch_file) (Follows-refl w k)
      | inl ok ↦ elim (Bool-cases (is_loaded m.name w.loaded)) [
        | inr e ↦ rw (there, ok, taken, patch_file) (rw e f)
        | inl e ↦
            rw (there, ok, taken, patch_file)
              (rw e (
                finish_patch-Sound m w _
                  (CallSound-trans w v _ f (pcall-CallSound env safe _ v is))))
      ]
    ]

finish_reload-Sound :
    (wrap : ReloadEvent → Event) (a : ℕ) (e : ReloadEvent) (w : World) (r : Reloaded)
    → ((e' : ReloadEvent) → IsReload e' → IsEvent (wrap e'))
    → ReloadSound w r
    → UpdateSound w (finish_reload wrap a e r)
unfolding finish_reload
finish_reload-Sound wrap a e w stuck h f = tt
finish_reload-Sound wrap a e w unprotected h f = f
finish_reload-Sound wrap a e w (reloaded err m w') h f = elim (Option-cases e.result_ch) [
  | inl none_sent ↦ rw none_sent (
      Follows-trans w w' _ f
        (put-Follows a _ w' (h _ (omega arith, λ x. absurd (omega arith))) f.is_world))
  | inr (x, sent) ↦ rw sent tt
]

update_reload-Sound :
    (run : Env → FileCache → World → Reloaded) (wrap : ReloadEvent → Event) (env : Env) (a : ℕ)
    (e : ReloadEvent) (w : World)
    → ((e' : ReloadEvent) → IsReload e' → IsEvent (wrap e'))
    → IsWorld w
    → ReloadSound w (run env e.module_file w)
    → UpdateSound w (update_reload run wrap env a e w)
unfolding update_reload
update_reload-Sound run wrap env a e w h k f =
    elim (Bool-cases (e.base.value == event_state_initialize)) [
      | inl t ↦ rw t (finish_reload-Sound wrap a e w _ h f)
      | inr t ↦ rw t (Follows-refl w k)
    ]

finalize-Sound :
    (env : Env) (safe : KeepsPackage env) (a : ℕ) (e : HttpEvent) (w : World)
    → IsWorld w
    → UpdateSound w (finalize env a e w (read_loop read_fuel e.resp (start_finalize e)))
unfolding finalize read_loop start_finalize
finalize-Sound env safe a e w k =
    finish_callback-Sound a _ w _ (omega arith) (pcall-CallSound env safe _ w k)

update_http-Sound :
    (env : Env) (safe : KeepsPackage env) (a : ℕ) (e : HttpEvent) (w : World)
    → IsWorld w
    → UpdateSound w (update_http env a e w)
unfolding update_http
update_http-Sound env safe a e w k = elim (Bool-cases (e.base.value == event_state_initialize)) [
  | inl t ↦ rw t (put-Follows a _ w (omega arith) k)
  | inr t ↦ elim (Bool-cases (e.base.value == event_state_finalize)) [
    | inl u ↦ rw (t, u) (finalize-Sound env safe a e w k)
    | inr u ↦ rw (t, u) (Follows-refl w k)
  ]
]

-- Every update of an event in the store keeps the invariant, if the scripts leave `package.preload` a
-- table, on the error path too, and none of them faults.
pub update-Sound :
    (env : Env) (safe : KeepsPackage env) (a elapse : ℕ) (e : Event) (w : World)
    → IsWorld w
    → get_elem? w.store a ≡ some e
    → UpdateSound w (update env a elapse e w)
unfolding update
update-Sound env safe a elapse (timer t) w k at = update_timer-Sound env safe a elapse t w k at
update-Sound env safe a elapse (exit e) w k at =
    update_exit-Sound a e w k (All-get_elem? IsEvent w.store a (exit e) k.events at)
update-Sound env safe a elapse (hotfix e) w k at =
    update_reload-Sound hotfix_file hotfix env a e w (λ f h. h) k
      (hotfix_file-Sound env safe e.module_file w k)
update-Sound env safe a elapse (patch e) w k at =
    update_reload-Sound patch_file patch env a e w (λ f h. h) k
      (patch_file-Sound env safe e.module_file w k)
update-Sound env safe a elapse (pub_sub e) w k at = update_pub_sub-Sound env safe a e w k
update-Sound env safe a elapse (http_request e) w k at = update_http-Sound env safe a e w k
update-Sound env safe a elapse (zmq e) w k at =
    update_zmq-Sound env safe a e w k (All-get_elem? IsEvent w.store a (zmq e) k.events at) at

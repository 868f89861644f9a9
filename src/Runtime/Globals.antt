-- ===== src/Runtime/Globals.antt =====
-- When the scripts leave the global `package` as hot reload needs it.
use runtimelua.Common.{
  ℕ, ◌≡◌, refl, sym, ap, subst, ◌∙◌, inl, inr, some, some_inj, List, [], ◌∷◌, arith, All, get_elem?,
  Option-cases,
}
use runtimelua.Event.Object.{Event, timer, exit, hotfix, patch, pub_sub, http_request, zmq}
use runtimelua.Runtime.World.{World, Package, preloads, no_preload, no_package, Call, put, send}
use runtimelua.Runtime.Api.{
  Action, delays, loops, exits, stops, opens, requests, rebinds, open_zmq, send_request, delay,
  loop, send_exit, stop, stop_event, perform, perform_all, Env,
}
use runtimelua.Runtime.Effect.{send-eq_some}

-- `package.preload` is a table.
abbrev pub IsPackage : Package → Type 0
IsPackage (preloads ps) = Unit {0}
IsPackage no_preload = ⊥
IsPackage no_package = ⊥

-- What is assigned to it, if anything, has such a table.
abbrev pub Leaves : Action → Type 0
Leaves (rebinds p) = IsPackage p
Leaves _ = Unit {0}

abbrev pub KeepsPackage : Env → Type 0
KeepsPackage env = (c : Call) (w : World) → All Leaves (env.script c w).0

pub send-lua_package :
    (e : Event) (w w' : World) → send e w ≡ some w' → w'.lua_package ≡ w.lua_package
send-lua_package e w w' h = ap (λ v. v.lua_package) (send-eq_some e w h).1

stop_event-lua_package :
    (a : ℕ) (e : Event) (w : World) → (stop_event a e w).lua_package ≡ w.lua_package
unfolding stop_event put
stop_event-lua_package a (timer t) w = refl
stop_event-lua_package a (exit e) w = refl
stop_event-lua_package a (hotfix e) w = refl
stop_event-lua_package a (patch e) w = refl
stop_event-lua_package a (pub_sub e) w = refl
stop_event-lua_package a (http_request e) w = refl
stop_event-lua_package a (zmq e) w = refl

stop-lua_package : (a : ℕ) (w : World) → (stop a w).lua_package ≡ w.lua_package
unfolding stop
stop-lua_package a w = elim (Option-cases (get_elem? w.store a)) [
  | inl e ↦ rw (e, stop) refl
  | inr (f, e) ↦ rw (e, stop) (stop_event-lua_package a f w)
]

pub perform-IsPackage :
    (x : Action) (w w' : World)
    → Leaves x
    → IsPackage w.lua_package
    → perform x w ≡ some w'
    → IsPackage w'.lua_package
unfolding perform delay loop send_exit open_zmq send_request
perform-IsPackage (delays sec fn) w w' l k h = subst IsPackage (sym (send-lua_package _ w w' h)) k
perform-IsPackage (loops sec fn) w w' l k h = subst IsPackage (sym (send-lua_package _ w w' h)) k
perform-IsPackage exits w w' l k h = subst IsPackage (sym (send-lua_package _ w w' h)) k
perform-IsPackage (opens fn) w w' l k h = subst IsPackage (sym (send-lua_package _ w w' h)) k
perform-IsPackage (requests fn) w w' l k h = subst IsPackage (sym (send-lua_package _ w w' h)) k
perform-IsPackage (stops a) w w' l k h =
    subst IsPackage (sym (stop-lua_package a w) ∙ ap (λ v. v.lua_package) (some_inj h)) k
perform-IsPackage (rebinds p) w w' l k h = subst IsPackage (ap (λ v. v.lua_package) (some_inj h)) l

pub perform_all-IsPackage :
    (xs : List Action) (w w' : World)
    → All Leaves xs
    → IsPackage w.lua_package
    → perform_all xs w ≡ some w'
    → IsPackage w'.lua_package
unfolding perform_all
perform_all-IsPackage [] w w' l k h = subst IsPackage (ap (λ v. v.lua_package) (some_inj h)) k
perform_all-IsPackage (x ∷ xs) w w' l k h = elim (Option-cases (perform x w)) [
  | inl e ↦ absurd (ground (arith, e))
  | inr (v, e) ↦
      perform_all-IsPackage xs v w' l.1 (perform-IsPackage x w v l.0 k e) (ground (arith, e))
]

-- ===== src/Runtime/Invariant.antt =====
-- The invariant of a running loop, kept by every event's update and by every round.
use runtimelua.Common.{
  ℕ, ◌≤◌, ◌<◌, ◌≡◌, refl, inl, inr, some, arith, length, get_elem?, set, length-set, All, All-set,
  All-get_elem?, All-mono, Bool-cases,
}
use runtimelua.Lua.{LValue, is_true}
use runtimelua.Event.Timer
use runtimelua.Event.Object.{Event, LocalTimerEvent, timer}
use runtimelua.Runtime.World.{World, Call, channel_size, put, log_call}
use runtimelua.Runtime.Api.{Env}
use runtimelua.Runtime.Exec.{
  Called, returned, raised, never, Updated, updated, failed, blocked, fault, pcall,
}
use runtimelua.Runtime.Update.{finish_timer, rearm}
use runtimelua.Runtime.Effect.{Effect, IsEvent, InStore}
use runtimelua.Runtime.Globals.{IsPackage, KeepsPackage}
use runtimelua.Runtime.Calls.{EndsIn, by_return, by_error, pcall-Effect, pcall-IsPackage}

-- The channel is within its capacity, all that it holds is in the store, the states are declared
-- ones, and `package.preload` is a table.
pub record IsWorld (w : World) : Type 0 where
  pub bounded : length w.channel ≤ channel_size
  pub in_store : InStore w w.channel
  pub events : All IsEvent w.store
  pub packaged : IsPackage w.lua_package

-- `w'` is a world in order that has all the events of `w`.
pub record Follows (w w' : World) : Type 0 where
  pub is_world : IsWorld w'
  pub grows : length w.store ≤ length w'.store

pub Follows-refl : (w : World) → IsWorld w → Follows w w
Follows-refl w k = record { is_world = k; grows = omega arith }

pub Follows-trans : (u v w : World) → Follows u v → Follows v w → Follows u w
Follows-trans u v w p q = record { is_world = q.is_world; grows = omega (arith, p.grows, q.grows) }

pub put-Follows : (a : ℕ) (e : Event) (w : World) → IsEvent e → IsWorld w → Follows w (put a e w)
unfolding put
put-Follows a e w h k = record {
  is_world = record {
    bounded = k.bounded;
    in_store =
        All-mono (λ b. b < length w.store) (λ b. b < length (set w.store a e))
          (λ b l. omega (arith, length-set w.store a e)) w.channel k.in_store;
    events = All-set IsEvent w.store a e h k.events;
    packaged = k.packaged;
  };
  grows = omega (arith, length-set w.store a e);
}

pub Effect-Follows :
    (w w' : World) → IsWorld w → IsPackage w'.lua_package → Effect w w' → Follows w w'
Effect-Follows w w' k p e = record {
  is_world = record {
    bounded = e.bounded k.bounded;
    in_store = e.in_store k.in_store;
    events = e.events k.events;
    packaged = p;
  };
  grows = e.grows;
}

-- Where a call ends, it ends in such a world.
abbrev pub CallSound : World → Called → Type 0
CallSound w (returned v w') = Follows w w'
CallSound w (raised x w') = Follows w w'
CallSound w never = Unit

pcall-Follows :
    (env : Env) (safe : KeepsPackage env) (c : Call) (w : World) (r : Called) (w' : World)
    → IsWorld w
    → pcall env c w ≡ r
    → EndsIn w' r
    → Follows w w'
unfolding log_call
pcall-Follows env safe c w r w' k h e =
    let f =
      Effect-Follows (log_call c w) w'
        (record {
          bounded = k.bounded;
          in_store = k.in_store;
          events = k.events;
          packaged = k.packaged;
        })
        (pcall-IsPackage env safe c w h e k.packaged) (pcall-Effect env c w h e) in
    record { is_world = f.is_world; grows = f.grows }

pub pcall-CallSound :
    (env : Env) (safe : KeepsPackage env) (c : Call) (w : World)
    → IsWorld w
    → CallSound w (pcall env c w)
pcall-CallSound env safe c w k = cases (pcall env c w) refl
  where
    cases : (r : Called) → pcall env c w ≡ r → CallSound w r
    cases (returned v w') h = pcall-Follows env safe c w _ w' k h (by_return v)
    cases (raised x w') h = pcall-Follows env safe c w _ w' k h (by_error x)
    cases never h = tt

-- The same of an update, which moreover never faults.
abbrev pub UpdateSound : World → Updated → Type 0
UpdateSound w (updated w') = Follows w w'
UpdateSound w (failed x w') = Follows w w'
UpdateSound w blocked = Unit
UpdateSound w fault = ⊥

pub UpdateSound-trans :
    (u v : World) (r : Updated) → Follows u v → UpdateSound v r → UpdateSound u r
UpdateSound-trans u v (updated w) f g = Follows-trans u v w f g
UpdateSound-trans u v (failed x w) f g = Follows-trans u v w f g
UpdateSound-trans u v blocked f g = tt
UpdateSound-trans u v fault f g = g

-- A timer's event is still a timer after its callback.
pub still_timer :
    (w w' : World) (a : ℕ) (t : LocalTimerEvent)
    → Effect w w'
    → get_elem? w.store a ≡ some (timer t)
    → (u : LocalTimerEvent) × (get_elem? w'.store a ≡ some (timer u))
still_timer w w' a t e at =
    let (f, at', how) = e.kept a (timer t) at in
    elim how [
      | inl same ↦ (t, ground (arith, at', same))
      | inr q ↦ (record t { timer = Timer.stop t.timer }, ground (arith, at', q))
    ]

rearm-Sound :
    (a : ℕ) (v : LValue) (w w' : World) (u : LocalTimerEvent)
    → Follows w w'
    → get_elem? w'.store a ≡ some (timer u)
    → UpdateSound w (rearm a v w' (get_elem? w'.store a))
unfolding rearm Timer.store
rearm-Sound a v w w' u f at =
    let small : u.timer.value ≤ 1 =
      All-get_elem? IsEvent w'.store a (timer u) f.is_world.events at in
    rw at (
      Follows-trans w w' _ f (
        put-Follows a _ w'
          (elim (Bool-cases (is_true v)) [ inl e ↦ rw e small | inr e ↦ rw e (omega arith) ])
          f.is_world))

pub finish_timer-Sound :
    (env : Env) (safe : KeepsPackage env) (c : Call) (a : ℕ) (t : LocalTimerEvent) (w : World)
    → IsWorld w
    → get_elem? w.store a ≡ some (timer t)
    → UpdateSound w (finish_timer a (pcall env c w))
unfolding finish_timer
finish_timer-Sound env safe c a t w k at = cases (pcall env c w) refl
  where
    cases : (r : Called) → pcall env c w ≡ r → UpdateSound w (finish_timer a r)
    cases (returned v w') h =
        let e = pcall-Effect env c w h (by_return v) in
        let (u, at') = still_timer (log_call c w) w' a t e (unfold log_call in at) in
        rearm-Sound a v w w' u (pcall-Follows env safe c w _ w' k h (by_return v)) at'
    cases (raised x w') h = pcall-Follows env safe c w _ w' k h (by_error x)
    cases never h = tt

-- ===== src/Runtime/Effect.antt =====
-- What the actions of a script leave alone: the frame that the proofs about updates rest on.
use runtimelua.Common.{
  ℕ, ◌≤◌, ◌<◌, ◌≡◌, refl, ap, ◌∙◌, sym, subst, ◌⊎◌, inl, inr, none, some, List, [], ◌∷◌, ◌++◌,
  arith, length, get_elem?, set, length-append, length-set, get_elem?-set_self, get_elem?-set_ne,
  lt-of_get_elem?, get_elem?-append_left, All, All-append, All-mono, All-set, All-get_elem?,
  Option-cases,
}
use native.Mathlib.Decide.{ℕ_discrete}
use runtimelua.Event.Timer
use runtimelua.Event.State
use runtimelua.Event.State.{event_state_initialize, event_state_complete}
use runtimelua.Event.Object.{
  Event, LocalTimerEvent, ReloadEvent, timer, exit, hotfix, patch, pub_sub, http_request, zmq,
}
use runtimelua.Runtime.World.{World, channel_size, put, send}
use runtimelua.Runtime.Api.{
  Action, delays, loops, exits, stops, opens, requests, rebinds, open_zmq, send_request, delay,
  loop, send_exit, stop, stop_event, perform, perform_all,
}

abbrev pub stopped : LocalTimerEvent → LocalTimerEvent
stopped t = record t { timer = Timer.stop t.timer }

-- An event after `stop()` on its table.
abbrev pub halt : Event → Event
halt (timer t) = timer (stopped t)
halt (exit e) = exit e
halt (hotfix e) = hotfix e
halt (patch e) = patch e
halt (pub_sub e) = pub_sub e
halt (http_request e) = http_request e
halt (zmq e) = zmq (record e { base = State.stop e.base })

halt-halt : (e : Event) → halt (halt e) ≡ halt e
unfolding Timer.stop Timer.store State.stop State.store
halt-halt (timer t) = refl
halt-halt (exit e) = refl
halt-halt (hotfix e) = refl
halt-halt (patch e) = refl
halt-halt (pub_sub e) = refl
halt-halt (http_request e) = refl
halt-halt (zmq e) = refl

-- A script leaves an event as it is, or stops it.
abbrev pub Evolves : Event → Event → Type 0
Evolves e e' = (e' ≡ e) ⊎ (e' ≡ halt e)

pub Evolves-trans : (e f g : Event) → Evolves e f → Evolves f g → Evolves e g
Evolves-trans e f g (inl p) (inl q) = inl (q ∙ p)
Evolves-trans e f g (inl p) (inr q) = inr (q ∙ ap halt p)
Evolves-trans e f g (inr p) (inl q) = inr (q ∙ p)
Evolves-trans e f g (inr p) (inr q) = inr (q ∙ ap halt p ∙ halt-halt e)

abbrev pub Kept : World → World → Type 0
Kept w w' =
    (a : ℕ) (e : Event)
    → get_elem? w.store a ≡ some e
    → (e' : Event) × (get_elem? w'.store a ≡ some e') × Evolves e e'

abbrev pub InStore : World → List ℕ → Type 0
InStore w = All (λ a. a < length w.store)

-- An event in a declared state; a reload event that has not run has sent nothing.
abbrev pub IsReload : ReloadEvent → Type 0
IsReload e =
    (e.base.value ≤ event_state_complete)
    × (e.base.value ≡ event_state_initialize → e.result_ch ≡ none)

abbrev pub IsEvent : Event → Type 0
IsEvent (timer t) = t.timer.value ≤ 1
IsEvent (exit e) = e.value ≤ event_state_complete
IsEvent (hotfix e) = IsReload e
IsEvent (patch e) = IsReload e
IsEvent (pub_sub e) = e.base.value ≤ event_state_complete
IsEvent (http_request e) = e.base.value ≤ event_state_complete
IsEvent (zmq e) = e.base.value ≤ event_state_complete

halt-IsEvent : (e : Event) → IsEvent e → IsEvent (halt e)
unfolding Timer.stop Timer.store State.stop State.store
halt-IsEvent (timer t) h = omega arith
halt-IsEvent (exit e) h = h
halt-IsEvent (hotfix e) h = h
halt-IsEvent (patch e) h = h
halt-IsEvent (pub_sub e) h = h
halt-IsEvent (http_request e) h = h
halt-IsEvent (zmq e) h = omega arith

Evolves-IsEvent : (e e' : Event) → Evolves e e' → IsEvent e → IsEvent e'
Evolves-IsEvent e e' (inl p) h = subst IsEvent (sym p) h
Evolves-IsEvent e e' (inr p) h = subst IsEvent (sym p) (halt-IsEvent e h)

pub record Effect (w w' : World) : Type 0 where
  pub kept : Kept w w'
  pub grows : length w.store ≤ length w'.store
  pub bounded : length w.channel ≤ channel_size → length w'.channel ≤ channel_size
  pub in_store : InStore w w.channel → InStore w' w'.channel
  pub events : All IsEvent w.store → All IsEvent w'.store
  pub same_calls : w'.calls ≡ w.calls
  pub same_done : w'.done ≡ w.done

Kept-trans : (u v w : World) → Kept u v → Kept v w → Kept u w
Kept-trans u v w k l a e h =
    let (f, hf, r) = k a e h in let (g, hg, r') = l a f hf in (g, hg, Evolves-trans e f g r r')

pub Effect-refl : (w : World) → Effect w w
Effect-refl w = record {
  kept = λ a e h. (e, h, inl refl);
  grows = omega arith;
  bounded = λ h. h;
  in_store = λ h. h;
  events = λ h. h;
  same_calls = refl;
  same_done = refl;
}

pub Effect-trans : (u v w : World) → Effect u v → Effect v w → Effect u w
Effect-trans u v w p q = record {
  kept = Kept-trans u v w p.kept q.kept;
  grows = omega (arith, p.grows, q.grows);
  bounded = λ h. q.bounded (p.bounded h);
  in_store = λ h. q.in_store (p.in_store h);
  events = λ h. q.events (p.events h);
  same_calls = q.same_calls ∙ p.same_calls;
  same_done = q.same_done ∙ p.same_done;
}

-- A send that goes through: what it needs, and what it does.
pub send-eq_some :
    (e : Event) (w : World) {w' : World}
    → send e w ≡ some w'
    → (length w.channel < channel_size)
      × (w'
          ≡ record w { store = w.store ++ (e ∷ []); channel = w.channel ++ (length w.store ∷ []) })
unfolding send
send-eq_some e w h = ground arith

pub InStore-mono :
    (w w' : World) (xs : List ℕ) → length w.store ≤ length w'.store → InStore w xs → InStore w' xs
InStore-mono w w' xs h =
    All-mono (λ a. a < length w.store) (λ a. a < length w'.store) (λ a k. omega (arith, h, k)) xs

pub send-Effect : (e : Event) (w w' : World) → IsEvent e → send e w ≡ some w' → Effect w w'
send-Effect e w w' fine h =
    let (room, is) = send-eq_some e w h in
    rw is (record {
      kept = λ a f k. (f, get_elem?-append_left w.store (e ∷ []) a f k, inl refl);
      grows = omega (arith, length-append w.store (e ∷ []));
      bounded = λ k. omega (arith, length-append w.channel (length w.store ∷ []));
      in_store = λ k.
          All-append (λ a. a < length (w.store ++ (e ∷ []))) w.channel (length w.store ∷ [])
            (All-mono (λ a. a < length w.store) (λ a. a < length (w.store ++ (e ∷ [])))
              (λ a l. omega (arith, length-append w.store (e ∷ []))) w.channel k)
            (omega (arith, length-append w.store (e ∷ [])), tt);
      events = λ k. All-append IsEvent w.store (e ∷ []) k (fine, tt);
      same_calls = refl;
      same_done = refl;
    })

-- Overwriting one event by one that it may evolve to.
pub put-Effect :
    (a : ℕ) (e e' : Event) (w : World)
    → get_elem? w.store a ≡ some e
    → Evolves e e'
    → Effect w (put a e' w)
unfolding put
put-Effect a e e' w h v = record {
  kept = λ b f k. elim (ℕ_discrete a b) [
    | yes same ↦ (
      e',
      ground (arith, get_elem?-set_self w.store a e' (lt-of_get_elem? w.store a e h)),
      ground arith,
    )
    | no differ ↦ (f, rw (get_elem?-set_ne w.store e' differ) k, inl refl)
  ];
  grows = omega (arith, length-set w.store a e');
  bounded = λ k. k;
  in_store = λ k.
      All-mono (λ b. b < length w.store) (λ b. b < length (set w.store a e'))
        (λ b l. omega (arith, length-set w.store a e')) w.channel k;
  events = λ k.
      All-set IsEvent w.store a e' (Evolves-IsEvent e e' v (All-get_elem? IsEvent w.store a e k h))
        k;
  same_calls = refl;
  same_done = refl;
}

stop_event-Effect :
    (a : ℕ) (e : Event) (w : World) → get_elem? w.store a ≡ some e → Effect w (stop_event a e w)
unfolding stop_event
stop_event-Effect a (timer t) w h = put-Effect a (timer t) (timer (stopped t)) w h (inr refl)
stop_event-Effect a (exit e) w h = Effect-refl w
stop_event-Effect a (zmq e) w h = put-Effect a (zmq e) (halt (zmq e)) w h (inr refl)
stop_event-Effect a _ w h = Effect-refl w

stop-Effect : (a : ℕ) (w : World) → Effect w (stop a w)
unfolding stop
stop-Effect a w = elim (Option-cases (get_elem? w.store a)) [
  | inl e ↦ rw (e, stop) (Effect-refl w)
  | inr (f, e) ↦ rw (e, stop) (stop_event-Effect a f w e)
]

pub perform-Effect : (x : Action) (w w' : World) → perform x w ≡ some w' → Effect w w'
unfolding perform delay loop send_exit Timer.store open_zmq send_request
perform-Effect (delays sec fn) w w' h = send-Effect _ w w' (omega arith) h
perform-Effect (loops sec fn) w w' h = send-Effect _ w w' (omega arith) h
perform-Effect exits w w' h = send-Effect _ w w' (omega arith) h
perform-Effect (opens fn) w w' h = send-Effect _ w w' (omega arith) h
perform-Effect (requests fn) w w' h = send-Effect _ w w' (omega arith) h
perform-Effect (rebinds p) w w' h =
    let e : w' ≡ record w { lua_package = p } = ground arith in
    rw e (record {
      kept = λ a f k. (f, k, inl refl);
      grows = omega arith;
      bounded = λ k. k;
      in_store = λ k. k;
      events = λ k. k;
      same_calls = refl;
      same_done = refl;
    })
perform-Effect (stops a) w w' h = let e : w' ≡ stop a w = ground arith in rw e (stop-Effect a w)

-- A list of actions that all go through has the effect of each.
pub perform_all-Effect :
    (xs : List Action) (w w' : World) → perform_all xs w ≡ some w' → Effect w w'
unfolding perform_all
perform_all-Effect [] w w' h = let e : w' ≡ w = ground arith in rw e (Effect-refl w)
perform_all-Effect (x ∷ xs) w w' h = elim (Option-cases (perform x w)) [
  | inl e ↦ absurd (ground (arith, e))
  | inr (v, e) ↦
      Effect-trans w v w' (perform-Effect x w v e) (perform_all-Effect xs v w' (ground (arith, e)))
]

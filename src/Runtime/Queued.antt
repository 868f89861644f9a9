-- ===== src/Runtime/Queued.antt =====
-- The turn of a zmq event: which packets reach the script, and that the loop stays in order.
use runtimelua.Common.{
  ℕ, ◌≤◌, ◌≡◌, refl, inl, inr, some, List, [], ◌∷◌, ◌++◌, map, ap, subst, sym, arith, get_elem?,
  get_elem?-set_self, lt-of_get_elem?, All-get_elem?, Bool-cases, ◌==◌,
}
use runtimelua.Event.State.{event_state_initialize, event_state_progress, event_state_complete}
use runtimelua.Event.State
use runtimelua.Event.Object.{ZmqPacket, ZmqEvent, zmq}
use runtimelua.Runtime.World.{World, Call, put, log_call}
use runtimelua.Runtime.Api.{Env}
use runtimelua.Runtime.Exec.{
  Called, returned, raised, never, Updated, updated, failed, blocked, fault, pcall,
}
use runtimelua.Runtime.Packets.{set_queue, finish_packet, packet_call, deliver_packets, update_zmq}
use runtimelua.Runtime.Effect.{Effect, IsEvent}
use runtimelua.Runtime.Calls.{EndsIn, by_return, by_error, pcall-Effect}
use runtimelua.Runtime.Globals.{KeepsPackage}
use runtimelua.Runtime.Invariant.{
  IsWorld, Follows-refl, put-Follows, CallSound, pcall-CallSound, UpdateSound, UpdateSound-trans,
}

-- A zmq event is still one after a call.
still_zmq :
    (w w' : World) (a : ℕ) (e : ZmqEvent)
    → Effect w w'
    → get_elem? w.store a ≡ some (zmq e)
    → (u : ZmqEvent) × (get_elem? w'.store a ≡ some (zmq u)) × (u.queue ≡ e.queue)
still_zmq w w' a e f at =
    let (g, at', how) = f.kept a (zmq e) at in
    elim how [
      | inl same ↦ (e, ground (arith, at', same), refl)
      | inr halted ↦ (record e { base = State.stop e.base }, ground (arith, at', halted), refl)
    ]

finish_packet-Sound :
    (env : Env) (safe : KeepsPackage env) (a : ℕ) (e : ZmqEvent) (rest : List ZmqPacket) (c : Call)
    (w : World) (u : ZmqEvent)
    → IsWorld w
    → get_elem? w.store a ≡ some (zmq u)
    → ((v : World) (x : ZmqEvent)
        → IsWorld v
        → get_elem? v.store a ≡ some (zmq x)
        → UpdateSound v (deliver_packets env a e rest v))
    → UpdateSound w (finish_packet (deliver_packets env a e rest) (pcall env c w))
unfolding finish_packet
finish_packet-Sound env safe a e rest c w u k at ih =
    cases (pcall env c w) refl (pcall-CallSound env safe c w k)
  where
    cases :
        (r : Called)
        → pcall env c w ≡ r
        → CallSound w r
        → UpdateSound w (finish_packet (deliver_packets env a e rest) r)
    cases (returned v w') h f =
        let (x, at', same) =
          still_zmq (log_call c w) w' a u (pcall-Effect env c w h (by_return v))
            (unfold log_call in at) in
        UpdateSound-trans w w' _ f (ih w' x f.is_world at')
    cases (raised y w') h f = f
    cases never h f = tt

deliver_packets-Sound :
    (env : Env) (safe : KeepsPackage env) (a : ℕ) (e : ZmqEvent) (ps : List ZmqPacket) (w : World)
    (u : ZmqEvent)
    → IsWorld w
    → get_elem? w.store a ≡ some (zmq u)
    → UpdateSound w (deliver_packets env a e ps w)
unfolding deliver_packets
deliver_packets-Sound env safe a e [] w u k at = Follows-refl w k
deliver_packets-Sound env safe a e (p ∷ rest) w u k at =
    let u' = record u { queue = rest } in
    let small : u.base.value ≤ event_state_complete =
      All-get_elem? IsEvent w.store a (zmq u) k.events at in
    let f = put-Follows a (zmq u') w small k in
    let at' : get_elem? (put a (zmq u') w).store a ≡ some (zmq u') =
      unfold put in get_elem?-set_self w.store a (zmq u') (lt-of_get_elem? w.store a (zmq u) at) in
    rw (at, deliver_packets, set_queue)
      (UpdateSound-trans w (put a (zmq u') w) _ f (
        finish_packet-Sound env safe a e rest (packet_call env e p) (put a (zmq u') w) u' f.is_world
          at' (λ v x. deliver_packets-Sound env safe a e rest v x)))

pub update_zmq-Sound :
    (env : Env) (safe : KeepsPackage env) (a : ℕ) (e : ZmqEvent) (w : World)
    → IsWorld w
    → IsEvent (zmq e)
    → get_elem? w.store a ≡ some (zmq e)
    → UpdateSound w (update_zmq env a e w)
unfolding update_zmq
update_zmq-Sound env safe a e w k h at =
    elim (Bool-cases (e.base.value == event_state_initialize)) [
      | inl t ↦ rw t (put-Follows a _ w (omega arith) k)
      | inr t ↦ elim (Bool-cases (e.base.value == event_state_progress)) [
        | inl u ↦ rw (t, u) (deliver_packets-Sound env safe a e e.queue w e k at)
        | inr u ↦ rw (t, u) (Follows-refl w k)
      ]
    ]

-- The calls, newest first, after some more in order.
abbrev pub logged : List Call → List Call → List Call
logged [] cs = cs
logged (c ∷ more) cs = logged more (c ∷ cs)

-- How far the packets `ps` have reached the script, whose calls were `cs` before: all of them, or
-- those up to one whose callback failed, and then the rest is still in the queue.
abbrev pub Delivered : Env → ℕ → ZmqEvent → List ZmqPacket → List Call → Updated → Type 0
Delivered env a e ps cs (updated w) =
    (w.calls ≡ logged (map (packet_call env e) ps) cs)
    × (u : ZmqEvent) × (get_elem? w.store a ≡ some (zmq u))
    × (u.queue ≡ [])
Delivered env a e ps cs (failed x w) =
    (pre : List ZmqPacket) × (p : ZmqPacket) × (u : ZmqEvent) × (ps ≡ pre ++ (p ∷ u.queue))
    × (w.calls ≡ logged (map (packet_call env e) (pre ++ (p ∷ []))) cs)
    × (get_elem? w.store a ≡ some (zmq u))
Delivered env a e ps cs blocked = Unit
Delivered env a e ps cs fault = ⊥

Delivered-cons :
    (env : Env) (a : ℕ) (e : ZmqEvent) (p : ZmqPacket) (ps : List ZmqPacket) (cs : List Call)
    (r : Updated)
    → Delivered env a e ps (packet_call env e p ∷ cs) r
    → Delivered env a e (p ∷ ps) cs r
Delivered-cons env a e p ps cs (updated w) d = d
Delivered-cons env a e p ps cs (failed x w) (pre, q, u, is, same, at) =
    (p ∷ pre, q, u, ap (◌∷◌ p) is, same, at)
Delivered-cons env a e p ps cs blocked d = tt
Delivered-cons env a e p ps cs fault d = d

-- What is known after the call for one packet.
packet_called :
    (env : Env) (a : ℕ) (c : Call) (w : World) (u : ZmqEvent) (rest : List ZmqPacket) {r : Called}
    {w2 : World}
    → get_elem? w.store a ≡ some (zmq u)
    → pcall env c (put a (zmq (record u { queue = rest })) w) ≡ r
    → EndsIn w2 r
    → (w2.calls ≡ c ∷ w.calls)
      × (x : ZmqEvent) × (get_elem? w2.store a ≡ some (zmq x))
      × (x.queue ≡ rest)
unfolding put log_call
packet_called env a c w u rest {w2} at h ends =
    let u' = record u { queue = rest } in
    let f = pcall-Effect env c (put a (zmq u') w) h ends in
    let there = get_elem?-set_self w.store a (zmq u') (lt-of_get_elem? w.store a (zmq u) at) in
    let (x, at2, left) = still_zmq (log_call c (put a (zmq u') w)) w2 a u' f there in
    (f.same_calls, x, at2, left)

deliver_packets-Delivered :
    (env : Env) (a : ℕ) (e : ZmqEvent) (ps : List ZmqPacket) (w : World) (u : ZmqEvent)
    → get_elem? w.store a ≡ some (zmq u)
    → u.queue ≡ ps
    → Delivered env a e ps w.calls (deliver_packets env a e ps w)
unfolding deliver_packets
deliver_packets-Delivered env a e [] w u at is = (refl, u, at, is)
deliver_packets-Delivered env a e (p ∷ rest) w u at is =
    rw (at, deliver_packets, set_queue)
      (cases (pcall env c _) refl (λ v x. deliver_packets-Delivered env a e rest v x))
  where
    c : Call
    c = packet_call env e p

    cases :
        (r : Called)
        → pcall env c (put a (zmq (record u { queue = rest })) w) ≡ r
        → ((v : World) (x : ZmqEvent)
            → get_elem? v.store a ≡ some (zmq x)
            → x.queue ≡ rest
            → Delivered env a e rest v.calls (deliver_packets env a e rest v))
        → Delivered env a e (p ∷ rest) w.calls (finish_packet (deliver_packets env a e rest) r)
    cases (returned v w2) h ih =
        unfold finish_packet in
        let (called, x, at2, left) = packet_called env a c w u rest at h (by_return v) in
        Delivered-cons env a e p rest w.calls (deliver_packets env a e rest w2) (
          subst (λ cs. Delivered env a e rest cs (deliver_packets env a e rest w2)) called
            (ih w2 x at2 left))
    cases (raised y w2) h ih =
        unfold finish_packet in
        let (called, x, at2, left) = packet_called env a c w u rest at h (by_error y) in
        ([], p, x, ap (◌∷◌ p) (sym left), called, at2)
    cases never h ih = unfold finish_packet in tt

-- The turn of a zmq event in PROGRESS hands the queued packets to its callback one by one, in order
-- and each once, with its table, the payload and the sender. If all the calls return, the queue is
-- empty in the end. If one raises an error, the turn ends with it, and the packets behind it are
-- still in the queue. The turn never faults.
pub update_zmq-Delivered :
    (env : Env) (a : ℕ) (e : ZmqEvent) (w : World)
    → get_elem? w.store a ≡ some (zmq e)
    → e.base.value ≡ event_state_progress
    → Delivered env a e e.queue w.calls (update_zmq env a e w)
unfolding update_zmq
update_zmq-Delivered env a e w at state =
    let is : update_zmq env a e w ≡ deliver_packets env a e e.queue w = ground (arith, state) in
    subst (λ r. Delivered env a e e.queue w.calls r) (sym is)
      (deliver_packets-Delivered env a e e.queue w e at refl)

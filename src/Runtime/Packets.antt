-- ===== src/Runtime/Packets.antt =====
-- `localZmqEvent.Update` (module_zmq.go): the packets that its goroutine has queued go to the script.
use runtimelua.Common.{
  ℕ, true, Option, none, some, List, [], ◌∷◌, Bytes, codes, get_elem?, ◌==◌, if◌then◌else◌,
}
use runtimelua.Lua.{LValue, nil, string, function, table, end, entry}
use runtimelua.Luaconv.Convert.{value}
use runtimelua.Event.State.{event_state_initialize, event_state_progress}
use runtimelua.Event.Object.{Event, ZmqPacket, ZmqEvent, zmq}
use runtimelua.Runtime.World.{World, Call, callback, put}
use runtimelua.Runtime.Api.{Env}
use runtimelua.Runtime.Exec.{
  Called, returned, raised, never, Updated, updated, failed, blocked, fault, pcall,
}

-- `zmqSender.LuaValue`.
unfoldable pub sender_value : (Bytes → ℕ) → Bytes → LValue
sender_value send [] = nil
sender_value send (b ∷ frame) = table (
    entry (string (codes "frame")) (string (b ∷ frame))
      (entry (string (codes "send")) (function (send (b ∷ frame))) end))

-- The call for one packet.
unfoldable pub packet_call : Env → ZmqEvent → ZmqPacket → Call
unfolding sender_value
packet_call env e p =
    callback e.fn (e.bind ∷ value env.api p.payload ∷ sender_value env.sender_send p.sender ∷ [])

-- `packet, e.queue = e.queue[0], e.queue[1:]`, on the event as the callbacks before left it.
unfoldable pub set_queue : ℕ → List ZmqPacket → World → Option Event → Option World
set_queue a rest w (some (zmq e)) = some (put a (zmq (record e { queue = rest })) w)
set_queue a rest w _ = none

unfoldable pub finish_packet : (World → Updated) → Called → Updated
finish_packet rest (returned v w) = rest w
finish_packet rest (raised x w) = failed x w
finish_packet rest never = blocked

-- `for len(e.queue) > 0`. The loop holds the lock, so that no packet is queued meanwhile.
unfoldable pub deliver_packets : Env → ℕ → ZmqEvent → List ZmqPacket → World → Updated
unfolding set_queue finish_packet packet_call
deliver_packets env a e [] w = updated w
deliver_packets env a e (p ∷ rest) w = elim (set_queue a rest w (get_elem? w.store a)) [
  | none ↦ fault
  | some w' ↦ finish_packet (deliver_packets env a e rest) (pcall env (packet_call env e p) w')
]

-- The goroutine that INITIALIZE starts is a step of the environment of the loop.
unfoldable pub update_zmq : Env → ℕ → ZmqEvent → World → Updated
unfolding deliver_packets
update_zmq env a e w =
    if e.base.value == event_state_initialize
    then updated (
        put a
          (zmq (record e {
            base = record { value = event_state_progress };
            queue = [];
            receiving = true;
          }))
          w)
    else if e.base.value == event_state_progress
    then deliver_packets env a e e.queue w
    else updated w

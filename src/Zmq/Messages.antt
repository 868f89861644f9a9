-- ===== src/Zmq/Messages.antt =====
-- module_zmq.go: a message and its answer, from script to script.
use runtimelua.Common.{◌≡◌, ◌≢◌, ap, ◌∙◌, inl, inr, ◌⊎◌, some, List, [], ◌∷◌, ◌++◌, Bytes, arith}
use runtimelua.Lua.{LValue}
use runtimelua.Luaconv.Convert.{GoValue, lua_value, value}
use runtimelua.Luaconv.Plain.{Laws}
use runtimelua.Luaconv.Back.{IsPure, value-lua_value}
use runtimelua.Event.Object.{ZmqEvent, ZmqPacket}
use runtimelua.Runtime.World.{callback}
use runtimelua.Runtime.Api.{Env}
use runtimelua.Runtime.Packets.{packet_call, sender_value}
use runtimelua.Zmq.Packet.{Gob, serialize, deserialize, packet, receive_message, finish_receive}
use runtimelua.Zmq.Module.{Outer, sent, event_send, sender_send, send_to, finish_send}
use runtimelua.Zmq.Frames.{answer_reaches_dealer}

-- The packet of a value with a frame.
abbrev pub packet_of : Outer → Bytes → LValue → ZmqPacket
packet_of o frame v = record { sender = frame; payload = lua_value o.api v }

finish_send-eq_sent :
    (r : Bytes ⊎ List Bytes) (frames : List Bytes) → finish_send r ≡ sent frames → r ≡ inr frames
unfolding finish_send
finish_send-eq_sent (inl e) frames h = absurd cc
finish_send-eq_sent (inr fs) frames h = cc

-- Frames that `send` of an event and of a sender put on the channel are those of the packet.
event_send-sent :
    (o : Outer) (args : List LValue) (frame : Bytes) (v : LValue) (frames : List Bytes)
    → o.opt_string 3 args ≡ some frame
    → o.check_any 2 args ≡ some v
    → event_send o args ≡ sent frames
    → serialize o.gob (packet_of o frame v) ≡ inr frames
unfolding event_send send_to
event_send-sent o args frame v frames h k e =
    finish_send-eq_sent (serialize o.gob (packet_of o frame v)) frames (ground (arith, h, k, e))

sender_send-sent :
    (o : Outer) (args : List LValue) (frame : Bytes) (v : LValue) (frames : List Bytes)
    → o.check_any 2 args ≡ some v
    → sender_send o frame args ≡ sent frames
    → serialize o.gob (packet_of o frame v) ≡ inr frames
unfolding sender_send send_to
sender_send-sent o args frame v frames k e =
    finish_send-eq_sent (serialize o.gob (packet_of o frame v)) frames (ground (arith, k, e))

-- gob decodes what it encodes of a value.
abbrev pub GobKeeps : Gob → GoValue → Type 0
GobKeeps gob v = (d : Bytes) → gob.encode v ≡ inr d → gob.decode d ≡ inr v

-- A round of the receiving goroutine queues the packet that the frames hold.
receive_message-queued :
    (gob : Gob) (frames : List Bytes) (p : ZmqPacket) (e : ZmqEvent)
    → deserialize gob frames ≡ packet p
    → receive_message gob frames e ≡ some (record e { queue = e.queue ++ (p ∷ []) })
unfolding receive_message finish_receive
receive_message-queued gob frames p e h = ap (finish_receive e) h

-- What is handed to the function for the packet of a pure value: the value itself.
packet_call-value :
    (o : Outer) (env : Env) (e : ZmqEvent) (frame : Bytes) (v : LValue)
    → Laws o.api
    → env.api ≡ o.api
    → IsPure o.api v
    → packet_call env e (packet_of o frame v)
      ≡ callback e.fn (e.bind ∷ v ∷ sender_value env.sender_send frame ∷ [])
unfolding packet_call
packet_call-value o env e frame v laws same pure =
    ap (λ x. callback e.fn (e.bind ∷ x ∷ sender_value env.sender_send frame ∷ []))
      (ap (λ a. value a (lua_value o.api v)) same ∙ value-lua_value o.api laws v pure)

-- The frames on the wire lead to a packet in the queue of an event, whose function gets the value
-- and the sender.
abbrev pub Arrives : Outer → Env → List Bytes → Bytes → LValue → ZmqEvent → Type 0
Arrives o env frames frame v e =
    (p : ZmqPacket) × (receive_message o.gob frames e
      ≡ some (record e { queue = e.queue ++ (p ∷ []) }))
    × (packet_call env e p ≡ callback e.fn (e.bind ∷ v ∷ sender_value env.sender_send frame ∷ []))

module _ (o : Outer) (env : Env) (laws : Laws o.api) (same : env.api ≡ o.api) where
  arrives :
      (frames : List Bytes) (frame : Bytes) (v : LValue) (e : ZmqEvent)
      → IsPure o.api v
      → deserialize o.gob frames ≡ packet (packet_of o frame v)
      → Arrives o env frames frame v e
  arrives frames frame v e pure h = (
    packet_of o frame v,
    receive_message-queued o.gob frames (packet_of o frame v) e h,
    packet_call-value o env e frame v laws same pure,
  )

  -- A script of a dealer sends a pure Lua value, and the router's socket puts the dealer's frame
  -- before its frames. The function of the router is called with this value, and with the sender
  -- table of that frame. What its script sends by this table, another pure value, starts with the
  -- frame, which the socket takes off; and the function of the dealer is called with this answer,
  -- and nil for the sender. Given the laws of the conversions, and a gob that decodes what it encodes.
  pub send_and_answer :
      (args args' : List LValue) (v answer : LValue) (id : Bytes) (frames back : List Bytes)
      (router dealer : ZmqEvent)
      → IsPure o.api v
      → IsPure o.api answer
      → GobKeeps o.gob (lua_value o.api v)
      → GobKeeps o.gob (lua_value o.api answer)
      → id ≢ []
      → o.opt_string 3 args ≡ some []
      → o.check_any 2 args ≡ some v
      → event_send o args ≡ sent frames
      → o.check_any 2 args' ≡ some answer
      → sender_send o id args' ≡ sent back
      → Arrives o env (id ∷ frames) id v router
        × (rest : List Bytes) × (back ≡ id ∷ rest)
        × Arrives o env rest [] answer dealer
  send_and_answer args args' v answer id frames back router dealer pure pure' keeps keeps' some_id
        no_frame is_v goes is_answer answers =
      let (there, rest, is, here) =
        answer_reaches_dealer o.gob (lua_value o.api v) (lua_value o.api answer) id frames back
          some_id keeps keeps' (event_send-sent o args [] v frames no_frame is_v goes)
          (sender_send-sent o args' id answer back is_answer answers) in
      (
        arrives (id ∷ frames) id v router pure there,
        rest,
        is,
        arrives rest [] answer dealer pure' here,
      )

-- ===== src/Tests/Zmq.antt =====
-- Packets of zmq events, and the turn that hands them to a script.
use runtimelua.Common.{
  ◌≡◌, refl, inl, inr, List, [], ◌∷◌, Option, none, some, true, false, Bytes, codes, arith,
}
use runtimelua.Lua.{LValue, string, handle}
use runtimelua.Luaconv.Convert.{gstring, lua_value}
use runtimelua.Event.Object.{ZmqPacket, ZmqEvent, zmq}
use runtimelua.Runtime.Packets.{update_zmq}
use runtimelua.Runtime.Queued.{Delivered, update_zmq-Delivered}
use runtimelua.Zmq.Packet.{Gob, serialize, sender_frames}
use runtimelua.Luaconv.Back.{pure_string}
use runtimelua.Zmq.Module.{Outer, sent, event_send, sender_send, send_to, finish_send}
use runtimelua.Zmq.Messages.{Arrives, send_and_answer}
use runtimelua.Tests.Values.{api, laws}
use runtimelua.Tests.World.{yes_env, world_of}

abbrev ping : ZmqPacket
ping = record { sender = codes "id"; payload = gstring (codes "ping") }

abbrev pong : ZmqPacket
pong = record { sender = []; payload = gstring (codes "pong") }

abbrev pub receiver : ZmqEvent
receiver = record {
  base = record { value = 1 };
  queue = ping ∷ pong ∷ [];
  bind = handle 0;
  fn = 7;
  receiving = true;
}

update_zmq-Delivered_example :
    Delivered yes_env 0 receiver
      (ping ∷ pong ∷ [])
      []
      (update_zmq yes_env 0 receiver (world_of (zmq receiver)))
update_zmq-Delivered_example =
    update_zmq-Delivered yes_env 0 receiver (world_of (zmq receiver)) refl refl

-- Strings as they are.
abbrev plain_gob : Gob
plain_gob = record {
  encode = λ v. elim v [ gstring s ↦ inr s | _ ↦ inl (codes "no string") ];
  decode = λ b. inr (gstring b);
}

-- Scripts that send a text; the second argument is the value.
abbrev second : List LValue → Option LValue
second (t ∷ v ∷ rest) = some v
second _ = none

abbrev outer : Outer
outer = record {
  api = api;
  gob = plain_gob;
  check_string = λ n args. none;
  check_number = λ n args. none;
  check_function = λ n args. none;
  check_table = λ n args. true;
  check_any = λ n args. second args;
  opt_string = λ n args. some [];
  parse_url = λ b. true;
  at_most = λ p n. false;
}

abbrev said : Bytes → List LValue
said text = handle 0 ∷ string text ∷ []

ping_sent : event_send outer (said (codes "ping")) ≡ sent (codes "ping" ∷ [])
unfolding event_send send_to finish_send serialize sender_frames lua_value
ping_sent = refl

pong_sent :
    sender_send outer (codes "id") (said (codes "pong")) ≡ sent (codes "id" ∷ codes "pong" ∷ [])
unfolding sender_send send_to finish_send serialize sender_frames lua_value
pong_sent = refl

send_and_answer_example :
    Arrives outer yes_env
      (codes "id" ∷ codes "ping" ∷ [])
      (codes "id")
      (string (codes "ping"))
      receiver
    × (rest : List Bytes) × (codes "id" ∷ codes "pong" ∷ [] ≡ codes "id" ∷ rest)
    × Arrives outer yes_env rest [] (string (codes "pong")) receiver
unfolding lua_value
send_and_answer_example =
    send_and_answer outer yes_env laws refl (said (codes "ping")) (said (codes "pong"))
      (string (codes "ping")) (string (codes "pong")) (codes "id") (codes "ping" ∷ [])
      (codes "id" ∷ codes "pong" ∷ []) receiver receiver (pure_string (codes "ping"))
      (pure_string (codes "pong")) (λ d h. ground (arith, h)) (λ d h. ground (arith, h))
      (λ e. ground (arith, e)) refl refl ping_sent refl pong_sent

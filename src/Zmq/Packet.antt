-- ===== src/Zmq/Packet.antt =====
-- module_zmq.go: the packets as frames. A packet without a sender frame and one with an empty frame
-- are the same to every operation.
use runtimelua.Common.{◌⊎◌, inl, inr, Option, none, some, List, [], ◌∷◌, ◌++◌, Bytes}
use runtimelua.Luaconv.Convert.{GoValue}
use runtimelua.Event.Object.{ZmqPacket, ZmqEvent}
use runtimelua.Event.State

-- encoding/gob on the exported field of a packet: an error, or the result.
pub record Gob : Type 0 where
  pub encode : GoValue → Bytes ⊎ Bytes
  pub decode : Bytes → Bytes ⊎ GoValue

-- `if p.sender != nil && len(p.sender) > 0 { … }`.
unfoldable pub sender_frames : Bytes → List Bytes
sender_frames [] = []
sender_frames (b ∷ frame) = (b ∷ frame) ∷ []

-- `Serialize`: an error, or the frames.
unfoldable pub serialize : Gob → ZmqPacket → Bytes ⊎ List Bytes
unfolding sender_frames
serialize gob p = elim (gob.encode p.payload) [
  | inl e ↦ inl e
  | inr data_frame ↦ inr (sender_frames p.sender ++ (data_frame ∷ []))
]

-- How `Deserialize` ends: with the packet, with an error, or with an index out of range.
pub data Deserialized : Type 0 where
  packet : ZmqPacket → Deserialized
  malformed : Bytes → Deserialized
  out_of_range : Deserialized

-- `b[len(b)-1]`.
unfoldable pub last_frame : List Bytes → Option Bytes
last_frame [] = none
last_frame (f ∷ []) = some f
last_frame (f ∷ g ∷ fs) = last_frame (g ∷ fs)

-- `if len(b) > 1 { p.sender = b[0] }`, on a new packet.
unfoldable pub first_sender : List Bytes → Bytes
first_sender (f ∷ g ∷ fs) = f
first_sender _ = []

unfoldable pub deserialize : Gob → List Bytes → Deserialized
unfolding last_frame first_sender
deserialize gob b = elim (last_frame b) [
  | none ↦ out_of_range
  | some data_frame ↦ elim (gob.decode data_frame) [
    | inl e ↦ malformed e
    | inr v ↦ packet (record { sender = first_sender b; payload = v })
  ]
]

-- One round of the receiving goroutine, for one message: a malformed one is logged only. `none` is
-- the panic of an index out of range.
unfoldable pub finish_receive : ZmqEvent → Deserialized → Option ZmqEvent
finish_receive e (packet p) = some (record e { queue = e.queue ++ (p ∷ []) })
finish_receive e (malformed x) = some e
finish_receive e out_of_range = none

unfoldable pub receive_message : Gob → List Bytes → ZmqEvent → Option ZmqEvent
unfolding finish_receive
receive_message gob b e = finish_receive e (deserialize gob b)

-- The end of the goroutine, when the channel of messages is closed: the deferred `Store(COMPLETE)`.
unfoldable pub close_receiver : ZmqEvent → ZmqEvent
close_receiver e = record e { base = State.stop e.base }

-- ===== src/Zmq/Frames.antt =====
-- What comes back of a packet that is sent.
use runtimelua.Common.{
  ◌≡◌, ◌≢◌, refl, ap, ◌∙◌, inl, inr, some, List, [], ◌∷◌, ◌++◌, Bytes, arith, Sum-cases,
}
use runtimelua.Luaconv.Convert.{GoValue}
use runtimelua.Event.Object.{ZmqPacket}
use runtimelua.Zmq.Packet.{
  Gob, sender_frames, serialize, packet, last_frame, first_sender, deserialize,
}

serialize-eq_inr :
    (gob : Gob) (p : ZmqPacket) (frames : List Bytes)
    → serialize gob p ≡ inr frames
    → (data_frame : Bytes) × (gob.encode p.payload ≡ inr data_frame)
      × (frames ≡ sender_frames p.sender ++ (data_frame ∷ []))
unfolding serialize
serialize-eq_inr gob p frames h = elim (Sum-cases (gob.encode p.payload)) [
  | inl (e, bad) ↦ absurd (ground (arith, h, bad))
  | inr (d, good) ↦ (d, good, ground (arith, h, good))
]

-- The frames of one packet.
last_frame-sender : (sender d : Bytes) → last_frame (sender_frames sender ++ (d ∷ [])) ≡ some d
unfolding last_frame sender_frames
last_frame-sender [] d = refl
last_frame-sender (b ∷ frame) d = refl

first_sender-sender : (sender d : Bytes) → first_sender (sender_frames sender ++ (d ∷ [])) ≡ sender
unfolding first_sender sender_frames
first_sender-sender [] d = refl
first_sender-sender (b ∷ frame) d = refl

deserialize_lem :
    (gob : Gob) (frames : List Bytes) (d : Bytes) (v : GoValue)
    → last_frame frames ≡ some d
    → gob.decode d ≡ inr v
    → deserialize gob frames ≡ packet (record { sender = first_sender frames; payload = v })
unfolding deserialize
deserialize_lem gob frames d v last good = ground (arith, last, good)

-- A packet that is serialized comes back as it was, with its sender frame or with none, if gob
-- decodes what it encodes.
pub deserialize-serialize :
    (gob : Gob) (p : ZmqPacket) (frames : List Bytes)
    → ((d : Bytes) → gob.encode p.payload ≡ inr d → gob.decode d ≡ inr p.payload)
    → serialize gob p ≡ inr frames
    → deserialize gob frames ≡ packet p
deserialize-serialize gob p frames law h =
    let (d, good, is) = serialize-eq_inr gob p frames h in
    ap (deserialize gob) is
    ∙ deserialize_lem gob (sender_frames p.sender ++ (d ∷ [])) d p.payload
        (last_frame-sender p.sender d) (law d good)
    ∙ ap (λ s. packet (record { sender = s; payload = p.payload })) (first_sender-sender p.sender d)

-- The way of a request and its answer. A dealer's packet, before whose frames the router's socket
-- has put the dealer's frame, reaches the router's script with that frame as its sender; and what
-- the script answers to this sender starts with the frame, behind which the dealer finds the answer
-- with no sender.
pub answer_reaches_dealer :
    (gob : Gob) (v answer : GoValue) (id : Bytes) (sent back : List Bytes)
    → id ≢ []
    → ((d : Bytes) → gob.encode v ≡ inr d → gob.decode d ≡ inr v)
    → ((d : Bytes) → gob.encode answer ≡ inr d → gob.decode d ≡ inr answer)
    → serialize gob (record { sender = []; payload = v }) ≡ inr sent
    → serialize gob (record { sender = id; payload = answer }) ≡ inr back
    → (deserialize gob (id ∷ sent) ≡ packet (record { sender = id; payload = v }))
      × (rest : List Bytes) × (back ≡ id ∷ rest)
      × (deserialize gob rest ≡ packet (record { sender = []; payload = answer }))
unfolding sender_frames last_frame first_sender
answer_reaches_dealer gob v answer [] sent back some_id law law' h h' = absurd (some_id refl)
answer_reaches_dealer gob v answer (b ∷ id) sent back some_id law law' h h' =
    let (d, good, is) = serialize-eq_inr gob (record { sender = []; payload = v }) sent h in
    let (d', good', is') =
      serialize-eq_inr gob (record { sender = b ∷ id; payload = answer }) back h' in
    (
      ap (λ fs. deserialize gob ((b ∷ id) ∷ fs)) is
          ∙ deserialize_lem gob ((b ∷ id) ∷ d ∷ []) d v refl (law d good),
      d' ∷ [],
      is',
      deserialize_lem gob (d' ∷ []) d' answer refl (law' d' good'),
    )

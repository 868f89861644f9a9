-- ===== src/Runtime/Arrivals.antt =====
-- The way of an event into a loop that is idle: its send, and the round of select that takes it
-- (runtime.go).
use runtimelua.Common.{
  ◌≡◌, refl, ap, some, [], ◌∷◌, ◌++◌, length, get_elem?, get_elem?-append_length,
}
use runtimelua.Event.Object.{Event}
use runtimelua.Runtime.World.{World, send}
use runtimelua.Runtime.Api.{Env}
use runtimelua.Runtime.Process.{Sorter, Loop, running, select, incoming, receive}

-- The loop has nothing to do.
pub record IsIdle (l : Loop) : Type 0 where
  pub no_queue : l.queue ≡ []
  pub no_channel : l.world.channel ≡ []

-- The world after the send, and the loop after the round.
abbrev pub sent_event : Event → World → World
sent_event e w = record w { store = w.store ++ (e ∷ []); channel = length w.store ∷ [] }

abbrev pub taken_event : Event → Loop → Loop
taken_event e l = record l {
  queue = length l.world.store ∷ [];
  world = record (sent_event e l.world) { channel = [] };
}

pub send-idle : (e : Event) (w : World) → w.channel ≡ [] → send e w ≡ some (sent_event e w)
unfolding send
send-idle e w empty = rw (empty, send) refl

pub select-idle :
    (s : Sorter) (env : Env) (e : Event) (l : Loop)
    → l.queue ≡ []
    → select s env incoming (record l { world = sent_event e l.world })
      ≡ some (running (taken_event e l))
unfolding select receive
select-idle s env e l idle =
    ap (λ q. some (running (record (taken_event e l) { queue = q ++ (length l.world.store ∷ []) })))
      idle

-- The event stands in the store at its address.
pub taken_event_at :
    (e : Event) (l : Loop) → get_elem? (taken_event e l).world.store (length l.world.store) ≡ some e
taken_event_at e l = get_elem?-append_length l.world.store e

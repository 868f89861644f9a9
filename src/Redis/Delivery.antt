-- ===== src/Redis/Delivery.antt =====
-- The events that a message of the server leads to.
use runtimelua.Common.{
  ℕ, suc, ◌+◌, ◌≤◌, ◌<◌, ◌≡◌, refl, some, List, [], ◌∷◌, ◌++◌, map, arith, length, length-append,
  ◌∙◌,
}
use mathlib.Core.List.{append_assoc, append-nil}
use runtimelua.Lua.{LValue}
use runtimelua.Event.Object.{Event}
use runtimelua.Runtime.World.{World, channel_size, send}
use runtimelua.Redis.Subscriptions.{message_event, deliver}

-- The addresses from `first` on, one for each sent event.
abbrev pub addresses : ℕ → List ℕ → List ℕ
addresses first [] = []
addresses first (fn ∷ fns) = first ∷ addresses (suc first) fns

send_fits :
    (e : Event) (w : World)
    → length w.channel < channel_size
    → send e w
      ≡ some
          (record w { store = w.store ++ (e ∷ []); channel = w.channel ++ (length w.store ∷ []) })
unfolding send
send_fits e w h = ground arith

-- A message that finds room for an event of each callback: the events are made in the order of the
-- callbacks, each with the message as its argument, and go to the channel in that order.
pub deliver_lem :
    (v : LValue) (fns : List ℕ) (w : World)
    → length w.channel + length fns ≤ channel_size
    → deliver v fns w
      ≡ some (record w {
        store = w.store ++ map (message_event v) fns;
        channel = w.channel ++ addresses (length w.store) fns;
      })
unfolding deliver
deliver_lem v [] w h = rw (append-nil w.store, append-nil w.channel) refl
deliver_lem v (fn ∷ fns) w h =
    let e = message_event v fn in
    let w' = record w {
      store = w.store ++ (e ∷ []);
      channel = w.channel ++ (length w.store ∷ []);
    } in
    let next_address : length w'.store ≡ suc (length w.store) =
      omega (arith, length-append w.store (e ∷ [])) in
    rw (send_fits e w (omega arith), deliver)
      (deliver_lem v fns w' (omega (arith, length-append w.channel (length w.store ∷ [])))
        ∙ rw
            (
              next_address,
              append_assoc w.store (e ∷ []) (map (message_event v) fns),
              append_assoc w.channel (length w.store ∷ []) (addresses (suc (length w.store)) fns),
            )
            refl)

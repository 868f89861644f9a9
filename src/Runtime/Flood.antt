-- ===== src/Runtime/Flood.antt =====
-- A callback that sends more events than the channel has room for. The goroutine that runs it is the
-- only one that receives.
use runtimelua.Common.{
  ℕ, zero, suc, ◌+◌, ◌≤◌, ◌<◌, ◌≡◌, refl, List, [], ◌∷◌, ◌++◌, none, some, arith, length,
  length-append, replicate,
}
use native.Mathlib.Decide.{dec_lt}
use runtimelua.Common.Word.{IsNat64, mul64}
use runtimelua.Event.Object.{Event, LocalTimerEvent}
use runtimelua.Runtime.World.{World, channel_size, send, put, log_call}
use runtimelua.Runtime.Api.{Env, Outcome, delays, delay, new_timer, second, perform, perform_all}
use runtimelua.Runtime.Exec.{pcall, finish_call}
use runtimelua.Runtime.Update.{finish_timer}
use runtimelua.Runtime.Process.{hangs, turn, after_update}
use runtimelua.Runtime.Timers.{IsArmed, due, before, turn-due}

-- A send goes through as long as there is room, and takes one place.
send_room :
    (e : Event) (w : World)
    → length w.channel < channel_size
    → (w' : World) × (send e w ≡ some w') × (length w'.channel ≡ suc (length w.channel))
unfolding send
send_room e w h = (
  record w { store = w.store ++ (e ∷ []); channel = w.channel ++ (length w.store ∷ []) },
  ground arith,
  omega (arith, length-append w.channel (length w.store ∷ [])),
)

send_full : (e : Event) (w : World) → channel_size ≤ length w.channel → send e w ≡ none
unfolding send
send_full e w h = ground arith

-- So many calls of `delay` in one callback block once the channel is full.
pub floods :
    (n sec fn : ℕ) (w : World)
    → channel_size < length w.channel + n
    → length w.channel ≤ channel_size
    → perform_all (replicate n (delays sec fn)) w ≡ none
unfolding perform_all perform delay
floods zero sec fn w h k = absurd (omega arith)
floods (suc n) sec fn w h k = elim (dec_lt (length w.channel) channel_size) [
  | yes room ↦
      let (w', sent, grown) = send_room (new_timer (mul64 second sec) 0 fn w) w room in
      rw (sent, perform_all) (floods n sec fn w' (omega (arith, grown)) (omega (arith, grown)))
  | no full ↦ rw (send_full (new_timer (mul64 second sec) 0 fn w) w (omega arith), perform_all) refl
]

-- A timer that is due and whose callback makes so many calls of `delay` that the channel cannot
-- hold them hangs the loop, whatever the callback would return.
pub turn_floods :
    (env : Env) (a elapse : ℕ) (swap : List ℕ) (w : World) (t : LocalTimerEvent)
    (armed : IsArmed w a t) (short : IsNat64 elapse) (n sec fn : ℕ) (out : Outcome)
    → t.delay ≤ elapse
    → length w.channel ≤ channel_size
    → channel_size < length w.channel + n
    → env.script (due t) (log_call (due t) (before a elapse t w))
      ≡ (replicate n (delays sec fn), out)
    → turn env elapse a swap w ≡ hangs
unfolding pcall finish_call finish_timer after_update put log_call
turn_floods env a elapse swap w t armed short n sec fn out d k h e = ground (
  arith,
  turn-due env a elapse swap w t armed short d,
  floods n sec fn (log_call (due t) (before a elapse t w)) h k,
)

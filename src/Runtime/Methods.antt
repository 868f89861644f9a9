-- ===== src/Runtime/Methods.antt =====
-- module_event.go and module_zmq.go: the tables that scripts get for their timers and sockets, with
-- the methods `stop` and `valid`.
use runtimelua.Common.{
  ℕ, ◌≡◌, refl, ◌⊎◌, inl, inr, bytes_eq, Bool, true, false, Option, none, some, List, [], ◌∷◌,
  Bytes, codes, get_elem?, arith,
}
use runtimelua.Lua.{LValue, bool}
use runtimelua.Scripts.Registry.{lookup}
use runtimelua.Event.Timer
use runtimelua.Event.State
use runtimelua.Event.Object.{Event, LocalTimerEvent, ZmqEvent, timer, zmq, valid}
use runtimelua.Runtime.World.{World}
use runtimelua.Runtime.Api.{Env}
use runtimelua.Runtime.Process.{turn, next}

-- The functions of the table of a timer, and of that of a zmq event.
pub data Method : Type 0 where
  timer_stop timer_valid zmq_stop zmq_send : Method

unfoldable pub timer_functions : List (Bytes × Method)
timer_functions = (codes "stop", timer_stop) ∷ (codes "valid", timer_valid) ∷ []

unfoldable pub zmq_functions : List (Bytes × Method)
zmq_functions = (codes "stop", zmq_stop) ∷ (codes "send", zmq_send) ∷ []

-- `LuaValue`: the table is made once, and then given again.
unfoldable pub event_table : Option LValue → LValue → LValue
event_table none fresh = fresh
event_table (some bind) fresh = bind

-- How a method ends: with an error about its first argument, which is no table, or with the values
-- that it pushes and the event as it leaves it.
pub data Answer (E : Type 0) : Type 0 where
  type_error : ℕ → Answer E
  answered : List LValue → E → Answer E

-- `localTimerEvent.stop` and `localTimerEvent.valid`; the first argument is whether the check of the
-- table passes.
unfoldable pub stop_timer : Bool → LocalTimerEvent → Answer LocalTimerEvent
unfolding Timer.stop
stop_timer false t = type_error 1
stop_timer true t = answered [] (record t { timer = Timer.stop t.timer })

unfoldable pub valid_timer : Bool → LocalTimerEvent → Answer LocalTimerEvent
unfolding Timer.valid
valid_timer false t = type_error 1
valid_timer true t = answered (bool (Timer.valid t.timer) ∷ []) t

-- `Destory`, `Stop` and `stop` of a zmq event, with its sockets, that are destroyed or not.
pub record Channeled : Type 0 where
  pub event : ZmqEvent
  pub destroyed : Bool

unfoldable pub destory : Channeled → Channeled
unfolding State.store
destory c = record {
  event = record c.event { base = State.store c.event.base State.event_state_complete };
  destroyed = true;
}

unfoldable pub stop_zmq : Bool → Channeled → Answer Channeled
unfolding destory
stop_zmq false c = type_error 1
stop_zmq true c = answered [] (destory c)

-- A call of a method by its name, on a timer; `none` if its table has no such field.
unfoldable pub dispatch : Bool → LocalTimerEvent → Option Method → Option (Answer LocalTimerEvent)
unfolding stop_timer valid_timer
dispatch ok t (some timer_stop) = some (stop_timer ok t)
dispatch ok t (some timer_valid) = some (valid_timer ok t)
dispatch ok t _ = none

unfoldable pub call_timer : Bytes → Bool → LocalTimerEvent → Option (Answer LocalTimerEvent)
unfolding dispatch timer_functions
call_timer name ok t = dispatch ok t (lookup name timer_functions)

-- An event that is not valid runs nothing in its turn and leaves the queue.
turn_skips :
    (env : Env) (elapse a : ℕ) (swap : List ℕ) (w : World) (e : Event)
    → get_elem? w.store a ≡ some e
    → valid e ≡ false
    → turn env elapse a swap w ≡ next swap w
unfolding turn
turn_skips env elapse a swap w e at off = ground (arith, at, off)

-- After stop() by its table, a timer says that it is not valid; and in any world that has it as stop
-- left it, its turn runs nothing, changes nothing and drops it from the queue. So does the turn of a
-- zmq event whose table's stop() was called, which also destroys its sockets.
pub stop_silences :
    (env : Env) (t : LocalTimerEvent) (c : Channeled)
    → (t' : LocalTimerEvent) × (call_timer (codes "stop") true t ≡ some (answered [] t'))
      × (call_timer (codes "valid") true t' ≡ some (answered (bool false ∷ []) t'))
      × (c' : Channeled) × (stop_zmq true c ≡ answered [] c')
      × (c'.destroyed ≡ true)
      × ((w : World) (elapse a : ℕ) (swap : List ℕ) (e : Event)
          → get_elem? w.store a ≡ some e
          → (e ≡ timer t') ⊎ (e ≡ zmq c'.event)
          → turn env elapse a swap w ≡ next swap w)
unfolding call_timer dispatch timer_functions stop_timer valid_timer stop_zmq destory lookup
    bytes_eq Timer.stop Timer.store Timer.valid Timer.load State.store valid State.valid State.load
stop_silences env t c = (
  record t { timer = Timer.stop t.timer },
  refl,
  refl,
  destory c,
  refl,
  refl,
  λ w elapse a swap e at which.
      turn_skips env elapse a swap w e at
        (elim which [ inl is ↦ rw is refl | inr is ↦ rw is refl ]),
)

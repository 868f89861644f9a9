-- ===== src/Zmq/Module.antt =====
-- module_zmq.go: the functions of the module, and the methods of its tables.
use runtimelua.Common.{
  ℕ, ◌⊎◌, inl, inr, Bool, Option, none, some, List, [], ◌∷◌, Bytes, codes, if◌then◌else◌,
}
use runtimelua.Lua.{LValue}
use runtimelua.Luaconv.Convert.{Api, lua_value}
use runtimelua.Runtime.World.{World}
use runtimelua.Runtime.Api.{open_zmq}
use runtimelua.Zmq.Packet.{Gob, serialize}

-- What the functions call: the checks of gopher-lua, whose `none` is an error that the check raises;
-- `OptString` with the default ""; `url.Parse` behind "tcp://"; and `<=` between a float64 and an
-- integer.
pub record Outer : Type 0 where
  pub api : Api
  pub gob : Gob
  pub check_string : ℕ → List LValue → Option Bytes
  pub check_number : ℕ → List LValue → Option ℕ
  pub check_function : ℕ → List LValue → Option ℕ
  pub check_table : ℕ → List LValue → Bool
  pub check_any : ℕ → List LValue → Option LValue
  pub opt_string : ℕ → List LValue → Option Bytes
  pub parse_url : Bytes → Bool
  pub at_most : ℕ → ℕ → Bool

-- How a function ends: an error about an argument, an error that a check or the function raises, a
-- new event, whose send blocks at `none`, or frames on the channel of the socket.
pub data Handled : Type 0 where
  arg_error : ℕ → Handled
  type_error : ℕ → Handled
  raised : Bytes → Handled
  opened : Option World → Handled
  sent : List Bytes → Handled

unfoldable pub open_with : ℕ → World → Option ℕ → Handled
open_with n w none = type_error n
open_with n w (some fn) = opened (open_zmq fn w)

unfoldable pub dealer : Outer → List LValue → World → Handled
unfolding open_with
dealer o args w = elim (o.check_string 1 args) [
  | none ↦ type_error 1
  | some address ↦
      if o.parse_url address then open_with 2 w (o.check_function 2 args) else arg_error 1
]

-- `port <= 1000`, and `port > math.MaxUint16`.
unfoldable pub router : Outer → List LValue → World → Handled
unfolding open_with
router o args w = elim (o.check_number 1 args) [
  | none ↦ type_error 1
  | some port ↦
      if o.at_most port 1000
      then arg_error 1
      else if o.at_most port 65535
      then open_with 2 w (o.check_function 2 args)
      else arg_error 1
]

-- `b, err := packet.Serialize()` and the send.
unfoldable pub finish_send : Bytes ⊎ List Bytes → Handled
finish_send (inl e) = raised e
finish_send (inr frames) = sent frames

unfoldable pub send_to : Outer → List LValue → Option Bytes → Option LValue → Handled
unfolding finish_send
send_to o args none v = type_error 3
send_to o args (some frame) none = type_error 2
send_to o args (some frame) (some v) =
    finish_send (serialize o.gob (record { sender = frame; payload = lua_value o.api v }))

-- `localZmqEvent.send`, whose third argument is the sender frame, and `zmqSender.send`.
unfoldable pub event_send : Outer → List LValue → Handled
unfolding send_to
event_send o args =
    if o.check_table 1 args
    then send_to o args (o.opt_string 3 args) (o.check_any 2 args)
    else type_error 1

unfoldable pub sender_send : Outer → Bytes → List LValue → Handled
unfolding send_to
sender_send o frame args =
    if o.check_table 1 args then send_to o args (some frame) (o.check_any 2 args) else type_error 1

-- The functions of the module, by their names.
unfoldable pub zmq_module_functions : List (Bytes × (Outer → List LValue → World → Handled))
zmq_module_functions = (codes "dealer", dealer) ∷ (codes "router", router) ∷ []

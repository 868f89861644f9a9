-- ===== src/Tests/World.antt =====
-- The scripts and the worlds of the tests.
use runtimelua.Common.{ℕ, true, false, inr, none, List, [], ◌∷◌, codes, replicate, length}
use runtimelua.Tests.Values.{api}
use runtimelua.Lua.{nil, bool, handle}
use runtimelua.Event.Object.{Event, LocalTimerEvent}
use runtimelua.Runtime.World.{World, preloads}
use runtimelua.Runtime.Api.{Env, Outcome, returns, raises, Action, delays}

-- Scripts that do some actions and end in one way, whatever is called.
abbrev pub env_of : List Action → Outcome → Env
env_of actions out = record {
  script = λ c w. (actions, out);
  read_file = λ path. inr (codes "return 1");
  compile = λ name content. none;
  api = api;
  sender_send = λ frame. length frame;
}

abbrev pub yes_env : Env
yes_env = env_of [] (returns (bool true))

abbrev pub nil_env : Env
nil_env = env_of [] (returns nil)

abbrev pub raising_env : Env
raising_env = env_of [] (raises (codes "boom"))

abbrev pub flood_env : Env
flood_env = env_of (replicate 129 (delays 1 7)) (returns nil)

abbrev pub timer_of : ℕ → ℕ → LocalTimerEvent
timer_of delay period = record {
  timer = record { value = 1; delay = delay; period = period };
  bind = handle 0;
  fn = 7;
}

abbrev pub world_of : Event → World
world_of e = record {
  store = e ∷ [];
  channel = [];
  done = false;
  lua_package = preloads [];
  loaded = [];
  calls = [];
}

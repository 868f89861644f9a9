-- ===== src/Tests/Schedule.antt =====
-- Timers over several ticks, and their methods.
use runtimelua.Common.{
  ℕ, ◌≡◌, ◌≢◌, refl, ◌⊎◌, List, [], ◌∷◌, ◌++◌, some, true, false, arith, codes, get_elem?,
  replicate,
}
use runtimelua.Lua.{bool, handle, is_true}
use runtimelua.Event.Object.{Event, LocalTimerEvent, timer, zmq, Error, FileCache, hotfix}
use runtimelua.Runtime.World.{World, preloads, Call, callback, chunk, send, log_call}
use runtimelua.Runtime.Api.{delay, perform_all}
use runtimelua.Runtime.Exec.{pcall, finish_call, returned, never}
use runtimelua.Runtime.Process.{Loop, running, select, incoming, tick, turn, next}
use runtimelua.Runtime.Timers.{due}
use runtimelua.Runtime.Schedule.{IsAlone, ticks}
use runtimelua.Runtime.Arrivals.{sent_event, taken_event}
use runtimelua.Runtime.Reloads
use runtimelua.Runtime.Reloads.{asked, Tried, hotfix_answers}
use runtimelua.Runtime.Delays.{sent_delay, taken_delay, due_world, delay_on_time}
use runtimelua.Runtime.Rate.{Repeats, loop_rate}
use runtimelua.Runtime.Methods.{Channeled, answered, call_timer, stop_zmq, stop_silences}
use runtimelua.Tests.World.{yes_env, timer_of, world_of}
use runtimelua.Tests.Sort.{sorter}
use runtimelua.Tests.Timers.{timer_of-IsArmed, once}
use runtimelua.Tests.Zmq.{receiver}

abbrev idle : Loop
idle = record {
  queue = [];
  world = record {
    store = [];
    channel = [];
    done = false;
    lua_package = preloads [];
    loaded = [];
    calls = [];
  };
  errors = [];
}

says_yes : (c : Call) (w : World) → pcall yes_env c w ≡ returned (bool true) (log_call c w)
unfolding pcall finish_call perform_all
says_yes c w = refl

-- A delay of a second, after ticks of 0.4, 0.4 and 0.3 seconds.
delay_on_time_example :
    (delay 1 7 idle.world ≡ some (sent_delay 1 7 idle.world))
    × (select sorter yes_env incoming (record idle { world = sent_delay 1 7 idle.world })
        ≡ some (running (taken_delay 1 7 idle)))
    × (m : Loop) × (ticks sorter yes_env
          (400000000 ∷ 400000000 ∷ [])
          (running (taken_delay 1 7 idle))
        ≡ running m)
    × (m.world.calls ≡ [])
    × (l : Loop) × ((later : List ℕ)
        → ticks sorter yes_env
            ((400000000 ∷ 400000000 ∷ []) ++ (300000000 ∷ later))
            (running (taken_delay 1 7 idle))
          ≡ running l)
    × (l.queue ≡ [])
    × (l.world.calls ≡ callback 7 (handle 0 ∷ []) ∷ [])
delay_on_time_example =
    delay_on_time sorter yes_env 1 7 idle (400000000 ∷ 400000000 ∷ []) 300000000 (bool true)
      (log_call (callback 7 (handle 0 ∷ [])) (due_world 1 7 800000000 300000000 idle)) refl refl
      (omega arith) (omega arith) (omega arith) (omega arith) (says_yes _ _)

-- A script file with a new text.
abbrev changed : FileCache
changed = record { hotfix_disabled = false; name = codes "a"; path = codes "a.lua"; content = [] }

ends_yes : (c : Call) (w : World) → pcall yes_env c w ≢ never
ends_yes c w p = absurd (let q = says_yes c w in cc)

hotfix_answers_example :
    (send (hotfix (asked changed)) idle.world
      ≡ some (sent_event (hotfix (asked changed)) idle.world))
    × (select sorter yes_env incoming
          (record idle { world = sent_event (hotfix (asked changed)) idle.world })
        ≡ some (running (taken_event (hotfix (asked changed)) idle)))
    × (err : Error) × Tried yes_env changed (taken_event (hotfix (asked changed)) idle).world err
    × (m : FileCache) × (l : Loop) × (tick sorter yes_env 66
          (taken_event (hotfix (asked changed)) idle)
        ≡ running l)
    × (l.queue ≡ [])
    × (get_elem? l.world.store 0 ≡ some (hotfix (Reloads.answered m err)))
hotfix_answers_example =
    hotfix_answers sorter yes_env changed idle 66 (record { no_queue = refl; no_channel = refl })
      (λ content. ends_yes (chunk changed.name content) _)

-- A timer of period 100 in ticks of 30.
abbrev beat : LocalTimerEvent
beat = timer_of 0 100

abbrev beating : Loop
beating = record { queue = 0 ∷ []; world = world_of (timer beat); errors = [] }

beating-IsAlone : IsAlone 0 beat beating
beating-IsAlone = record {
  alone = refl;
  armed = timer_of-IsArmed 0 100 (omega arith) (omega arith);
}

beat-Repeats : Repeats yes_env 0 beat
unfolding is_true log_call
beat-Repeats w u at = (bool true, log_call (due beat) w, says_yes (due beat) w, refl, at)

loop_rate_example :
    (l : Loop) × (ticks sorter yes_env (replicate 7 30) (running beating) ≡ running l)
    × (l.world.calls ≡ due beat ∷ due beat ∷ [])
loop_rate_example =
    loop_rate sorter yes_env 0 30 (omega arith) 3 1 2 beat beating beating-IsAlone beat-Repeats
      (omega arith) (omega arith) (omega arith) (omega arith)

abbrev sockets : Channeled
sockets = record { event = receiver; destroyed = false }

stop_silences_example :
    (t : LocalTimerEvent) × (call_timer (codes "stop") true once ≡ some (answered [] t))
    × (call_timer (codes "valid") true t ≡ some (answered (bool false ∷ []) t))
    × (c : Channeled) × (stop_zmq true sockets ≡ answered [] c)
    × (c.destroyed ≡ true)
    × ((w : World) (elapse a : ℕ) (swap : List ℕ) (e : Event)
        → get_elem? w.store a ≡ some e
        → (e ≡ timer t) ⊎ (e ≡ zmq c.event)
        → turn yes_env elapse a swap w ≡ next swap w)
stop_silences_example = stop_silences yes_env once sockets

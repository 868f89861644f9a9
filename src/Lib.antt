-- ===== src/Lib.antt =====
-- A Lua runtime in Go: a virtual machine with an event loop, whose scripts use modules for timers,
-- HTTP, redis and more, and are reloaded when their files change.
--
-- The parts and how they interact. `Runtime` (runtime.go) owns a channel of 128 events and the
-- goroutine `process`, which takes events from the channel into a queue and, every 66 ms, gives each
-- event of the queue its turn. A turn may run a script's callback. The callback may send events
-- (module_event.go), so may the redis subscribers (module_redis.go), the file watcher (scripts.go)
-- and other goroutines. An event keeps its place in the queue as long as it says that it continues.
--
-- Files:
--   * Lua: the values of the virtual machine.
--   * Event/State, Event/Timer: runtime_event_state.go and runtime_event_timer.go, a method each.
--   * Event/Object: the event types of all files, as one data type, and the interface `Event`.
--   * Runtime/World: the heap of events, the channel, and the tables of the machine. An event is
--     named by its address, since the queue, the channel and Lua's tables all point to it.
--   * Runtime/Api: what a script can do in a callback: `delay`, `loop`, `stop`, `exit`, and the sends
--     of `request_async`, `dealer` and `router`. A call of a script is a list of such actions and an
--     outcome, which may depend on the world; Runtime/Exec is the protected call.
--   * Runtime/Update: the methods `Update` of all event types; Runtime/Packets is that of zmq events.
--   * Runtime/Process: `process` of runtime.go, one function for each case of its `select`.
--   * Runtime/System: the loop among the goroutines, as a relation between processes.
--   * Runtime/Methods: the tables of timers and sockets with their methods.
--   * Runtime/Effect, Globals, Calls, Invariant, Queued, Sound, Rounds, Timers, Firing, Ticks, Schedule,
--     Arrivals, Reloads, Delays, Rate, OneShot, Asked, Flood: proofs.
--   * Http/Body: how a response becomes arguments; Http/Request: `request` and `request_async`
--     (module_http.go). Http/Prepare and Http/Checks hold proofs.
--   * Zmq/Packet, Zmq/Module: the packets as frames, and the functions of module_zmq.go. Zmq/Frames
--     and Zmq/Messages hold proofs.
--   * Logger: module_logger.go; Logger/Keys holds proofs.
--   * Options: option.go, option_zmq.go and the constructors of runtime.go; Options/Startup: `Startup`.
--     Options/Preloads holds proofs.
--   * Scripts/Names, Scripts/Registry, Scripts/Watch: the order of the scripts, their cache, and the
--     watcher (scripts.go); Scripts/Listing, Scripts/Pool, Scripts/Catalog and Scripts/Refinement hold
--     proofs about them. Scripts/Package: the search path and the loader of preloaded modules;
--     Scripts/Open: the scan of the folder and `OpenPackage`; Scripts/Opened holds proofs.
--   * Scripts/Loader: the loop over the folder, and the loader of cached scripts; Scripts/Requires
--     holds proofs.
--   * Auxlib/Aes: auxlib/aes.go; Auxlib/Cipher holds proofs.
--   * Luaconv/Convert: luaconv/luaconv.go; Luaconv/Plain, Roundtrip and Back hold
--     proofs.
--   * Auxlib/Strftime: auxlib/utils.go; Auxlib/Scanner and Auxlib/Expand hold proofs.
--   * Auxlib/Bit32, Auxlib/Bit64: auxlib/bit32.go and auxlib/bit64.go, with their words in Auxlib/Bits;
--     Auxlib/Bits/Digits, Fields and Shifts, Auxlib/Bitwise, Bitfields, Rotations and SignShift hold
--     proofs.
--   * Auxlib/Oslib: auxlib/oslib.go; Auxlib/Dates and Auxlib/Times hold proofs. Auxlib/Codecs: the
--     functions of auxlib/json.go, base64.go, md5.go and uuid.go.
--   * Redis/Session, Redis/Commands: the state and the commands of module_redis.go. A handler is
--     a function of the session that ends in values, an argument error or a panic. Redis/Table
--     names them, and Redis/Pools is `connect_redis`. Redis/Safety, Redis/Invariant, Redis/Calls and
--     Redis/Sharing hold proofs.
--   * Redis/Subscriptions: the subscribers of a module; Redis/Subscribers and
--     Redis/Delivery hold proofs.
--   * Common: byte strings, lists, 64-bit words, tests. Tests: runs on concrete inputs.
--
-- Bounds and fuel. `int64` is its pattern below 2 ^ 64, with the wrap-around written out. Times are
-- nanoseconds. The loop over the header map has fuel 1 and ends at once. The loop over the pool of
-- runtimes has fuel; one unit for each runtime is enough. `strftime` has fuel for one call of `Next`
-- for each byte and one more.
--
-- Parameters, because their code lies outside the repository: the scripts, the Lua compiler, the
-- files, `sort.Sort`, gopher-lua's argument checks and `MaxN`, the client of go-redis, encoding/json
-- and encoding/gob, net/http, goczmq, the package time, the AES cipher, and the conversions between
-- integers and float64.
--
-- A runtime of the pool answers a reload by its own hotfix or patch, or never: it may be closed or
-- hang. A patch panics where a script has left `package.preload` no table.
--
-- Not modelled: the output of the loggers, sockets, what only calls gopher-lua, as the standard
-- libraries and the registration of the tables of functions, and the program under example. Two
-- goroutines that touch the virtual machine at the same moment (`Startup` runs the entry script
-- while `process` runs) are modelled as steps one after the other, and so are two that connect to
-- redis.
-- Upper and lower case are those of ASCII.
pub mod Common
pub mod Lua
pub mod Luaconv
pub mod Event
pub mod Auxlib
pub mod Redis
pub mod Http
pub mod Scripts
pub mod Runtime
pub mod Zmq
pub mod Options
pub mod Logger
pub mod Tests

-- ===== src/Runtime.antt =====
-- A runtime (runtime.go): the world that its events act on, one update, and the event loop.
pub mod World
pub mod Api
pub mod Exec
pub mod Packets
pub mod Update
pub mod Process
pub mod Effect
pub mod Globals
pub mod Calls
pub mod Timers
pub mod Firing
pub mod Invariant
pub mod Queued
pub mod Sound
pub mod Rounds
pub mod System
pub mod Flood
pub mod Ticks
pub mod OneShot
pub mod Asked
pub mod Schedule
pub mod Arrivals
pub mod Reloads
pub mod Delays
pub mod Rate
pub mod Methods

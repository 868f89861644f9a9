-- ===== src/Tests.antt =====
-- Runs of the definitions and instances of the theorems on concrete inputs.
mod Sort
mod World
mod Timers
mod Loop
mod Values
mod Logs
mod Bits
mod Reload
mod Zmq
mod Http
mod Redis
mod Aes
mod Loader
mod Scripts
mod Schedule

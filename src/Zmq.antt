-- ===== src/Zmq.antt =====
-- The zmq module (module_zmq.go).
pub mod Packet
pub mod Module
pub mod Frames
pub mod Messages

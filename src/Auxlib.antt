-- ===== src/Auxlib.antt =====
-- The Lua libraries of auxlib/.
pub mod Strftime
pub mod Scanner
pub mod Expand
pub mod Aes
pub mod Cipher
pub mod Bits
pub mod Bit32
pub mod Bit64
pub mod Bitwise
pub mod Bitfields
pub mod Rotations
pub mod SignShift
pub mod Oslib
pub mod Codecs
pub mod Dates
pub mod Times

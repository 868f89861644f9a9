-- ===== src/Luaconv.antt =====
-- luaconv/luaconv.go: the conversions between Go values and Lua values.
pub mod Convert
pub mod Plain
pub mod Roundtrip
pub mod Back

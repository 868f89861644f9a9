-- ===== src/Http.antt =====
-- The HTTP module (module_http.go).
pub mod Body
pub mod Request
pub mod Prepare
pub mod Checks

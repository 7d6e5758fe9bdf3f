-- ===== src/Amf.antt =====
-- The Access and Mobility Function (amf/main.go): UE contexts, authentication, the NGAP connection
-- loop and the management API.
pub mod Store
pub mod Auth
pub mod Ngap
pub mod Api
mod Tests

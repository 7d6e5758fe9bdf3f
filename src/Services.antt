-- ===== src/Services.antt =====
-- The processes of the services: what each `main` opens, requires, subscribes to and serves, and how it
-- ends. Whether a step outside the process succeeds is a field of `Env`.
pub mod Process
pub mod Mains
pub mod Exits
mod Tests

-- ===== src/SmfServer.antt =====
-- The SMF server (cmd/smf/main.go): the pool of UE addresses, the session manager with its mutex, and
-- the GTP-C handlers. The source spells the bounds of the pool in two ways, `IPPoolStart` where they
-- are declared and `IPoolStart` where they are used; the model takes the declared ones.
pub mod Ip
pub mod Pool
pub mod Allocation
pub mod Manager
pub mod Deadlock
pub mod Handlers
pub mod Serving
mod Tests

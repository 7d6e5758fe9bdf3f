-- ===== src/Common/Map.antt =====
-- A Go map as an association list: reading, `m[k] = v`, `delete(m, k)` and `len(m)`.
mod Defs
mod Laws
mod Size
mod Every
mod Values
unfoldable pub use Defs.{Map, lookup, insert, delete, size, has, values}
pub use Laws.*
pub use Size.*
pub use Every.*
pub use Values.*

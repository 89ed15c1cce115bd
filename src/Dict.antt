-- ===== src/Dict.antt =====
-- Go's maps, which the state of every component is made of: an association list with at most one
-- entry for a key. The program ranges over a map in an order that Go leaves open; such a loop reads
-- the entries in the order of this list, and the theorems about it do not depend on the order.
mod Defs
mod Laws
mod Distinct
unfoldable pub use Defs.*
pub use Laws.*
pub use Distinct.*

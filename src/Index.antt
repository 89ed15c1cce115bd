-- ===== src/Index.antt =====
-- The in-memory index of internal/flowc/index: the reverse maps (Reverse), the decoders (Decode),
-- the indexer's state (State), its event handler (Apply) with the proofs about it, its lookups
-- (Queries) and the ownership map (Ownership).
pub mod Reverse
pub mod Decode
pub mod State
pub mod Apply
pub mod Queries
pub mod Ownership
pub mod View
pub mod Bootstrap
pub mod Reflection

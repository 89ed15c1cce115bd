-- ===== src/Store.antt =====
-- The desired-state store, internal/flowc/store: the resource envelope and its filters (Resource),
-- the channels that watchers read from and the fan-out of events (Watch), the in-memory store
-- (Memory), and below Memory the proofs about its writes, its watchers and its runs.
pub mod Resource
pub mod Watch
pub mod Memory

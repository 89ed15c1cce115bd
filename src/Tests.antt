-- ===== src/Tests.antt =====
-- The theorems at concrete inputs.
mod Store
mod Index
mod Cache
mod Dispatch
mod Deployment
mod Removal
mod Gateway
mod Translator
mod Reconciler
mod Config
mod Paths
mod Composite
mod Rest
mod Bundle

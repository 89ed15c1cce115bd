-- ===== src/Composite.antt =====
-- The translation of one deployment into xDS resources: the messages (Messages), the model of a
-- deployment (Model), what the strategies do (Strategies), the composite translator (Translate) and
-- its use by the dispatcher (Compose).
pub mod Messages
pub mod Model
pub mod Strategies
pub mod Translate
pub mod Compose

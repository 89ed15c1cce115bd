-- ===== src/Translator.antt =====
-- Strategy settings, and the strategies made of them: pkg/types and internal/flowc/xds/translator.
pub mod Types
pub mod Resolver
pub mod Factory
pub mod Convert
pub mod Precedence
pub mod Support
pub mod Paths

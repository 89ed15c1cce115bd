-- ===== src/Config.antt =====
-- internal/flowc/config: the settings of the control plane. The data (Settings), the defaults and
-- their merge (Defaults), the checks (Validation), the environment (Env) and loading (Load).
pub mod Settings
pub mod Defaults
pub mod Validation
pub mod Env
pub mod Load

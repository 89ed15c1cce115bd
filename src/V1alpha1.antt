-- ===== src/V1alpha1.antt =====
-- The typed resources of api/v1alpha1 that the control plane reads: the strategy settings
-- (Strategy) and the specs (Spec).
pub mod Strategy
pub mod Spec

-- ===== src/Qualification.antt =====
-- The qualification of a machine (src/amd_ai/qualification).
pub mod KernelLog

-- ===== src/Doctor.antt =====
-- The diagnosis of an installation and its repair (src/amd_ai/doctor).
pub mod Models
pub mod Plan
pub mod Execute

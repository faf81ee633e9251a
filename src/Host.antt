-- ===== src/Host.antt =====
-- The audit and the verification of a host (src/amd_ai/host).
pub mod Ttm
pub mod Models
pub mod Policy
pub mod Verify

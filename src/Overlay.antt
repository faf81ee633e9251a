-- ===== src/Overlay.antt =====
-- The overlay of Python packages of a project (src/amd_ai/overlay).
pub mod Transaction

-- ===== src/Installer.antt =====
-- The guided installer (src/amd_ai/installer).
pub mod Stages
pub mod Models
pub mod Validation
pub mod Payload
pub mod Registry
pub mod Release
pub mod Manifest
pub mod Workflow

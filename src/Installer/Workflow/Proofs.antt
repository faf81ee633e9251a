-- ===== src/Installer/Workflow/Proofs.antt =====
-- Proofs about the workflow: what touches no state file, the checkpoints along the order of the
-- stages, and the theorems on a run.
pub mod Files
pub mod Locked
pub mod Adoption
pub mod Authorised
pub mod Changes
pub mod Choices
pub mod Position
pub mod Prefix
pub mod Pulls
pub mod Rounds
pub mod Runs
pub mod Whole

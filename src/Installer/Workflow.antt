-- ===== src/Installer/Workflow.antt =====
-- The installer's workflow: the stages of an installation, their checkpoints and their resumption
-- (src/amd_ai/installer/workflow.py).
pub mod Session
pub mod Construction
pub mod Transition
pub mod Inputs
pub mod Plans
pub mod Outcome
pub mod Dispatch
pub mod Update
pub mod Stage
pub mod Options
pub mod Run
pub mod Proofs
mod Tests

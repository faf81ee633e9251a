-- ===== src/Lib.antt =====
-- A model of the toolkit's installer, host audit, kernel log, doctor and overlay, and what is proved of it.
--
-- The installer takes a machine through a fixed order of stages: it prepares the kernel and the host,
-- acquires the container images of a release and sets up a project. A run holds two locks, selects and
-- loads a state file, checks that the state is one that its mode can have reached, and goes through
-- the stages in order. A completed stage is passed by if its inputs still have the digest that was
-- recorded; any other stage is performed, judged, applied to the state and checkpointed.
--
-- - Prelude, Results, Exec: texts, association lists, fallible code, and code that changes a session
--   and may raise. What was changed before a raise stays changed. Exec.Ensures has one rule for each
--   way to build such code, for an invariant of the session and for what a returned value satisfies.
--   Exec.Known has the rules for the checks that a method makes on its way, Results.Known those for
--   fallible code without state. Exec.Runs says what a method that returned has done.
-- - Regex, Lines, Paths, Json: what the program uses of Python's `re`, `str`, `pathlib` and `json`.
-- - Report: src/amd_ai/report.py.
-- - Installer.Stages, Installer.Models: src/amd_ai/installer/models.py, and the records of actions.py,
--   release.py and src/amd_ai/host/models.py that the workflow reads.
-- - Installer.Validation: the checks of a state (InstallState.__post_init__). Installer.Payload: the JSON
--   form of a state, its decoding and the migration of older schemas (src/amd_ai/installer/state.py).
-- - Installer.Registry: src/amd_ai/installer/registry.py. Installer.Release: the verification of pulled
--   images, and Installer.Manifest the loader of a manifest (src/amd_ai/installer/release.py).
-- - Installer.Workflow: src/amd_ai/installer/workflow.py, and what it uses of state.py. Session has the
--   attributes of InstallerWorkflow, the state files and the environment; Construction the checks that a
--   state passes whenever one is built; Transition the order of the stages (_stage_order,
--   _validate_transition, _checkpoint, _record_reports); Inputs _stage_inputs; Plans the plans, the
--   release, their confirmation, the reboot and the disk space; Outcome _stage_result and _apply_output;
--   Dispatch _dispatch and the pull of the images; Update the adoption of a newer installer; Stage the
--   body of the loop of _run_stages and _rerun_completed_guard; Options the options and the choice of
--   the state file; Run a whole run.
-- - Host.Ttm: src/amd_ai/host/ttm.py. Host.Models, Host.Policy: the snapshot of a host and the preflight
--   (models.py and policy.py there). Host.Verify: the verification of the kernel and of the host, with
--   the probe in a container (verify.py there); the workflow gets its report from there.
-- - Qualification.KernelLog: src/amd_ai/qualification/kernel_log.py.
-- - Doctor: the diagnostics, the plan of a repair and its execution (src/amd_ai/doctor/models.py and
--   repair.py). A plan refers to the release and to the references that Installer.Registry trusts.
-- - Overlay.Transaction: the build and the activation of a generation of Python packages
--   (src/amd_ai/overlay/transaction.py). The file system, pip and the verifier are its environment.
--
-- The Docker client of a release, the runner of a verification and the executor of a repair are records
-- of calls that act on a world of their own: a call may return or raise anything. The list of
-- the tested kernels, the file system's view of a normalized path and the check of a time are parameters;
-- for a repair plan the reading of the manifest is one too.
--
-- The environment (Env) has the calls of code outside the workflow as fields: actions, prompts, the
-- progress reporter, clock, locks, the writing of a file, the digest of canonical JSON, the parser of
-- UUIDs and the formatting of numbers. Each call may return anything, raise anything and change its
-- world. A write replaces one state file as a whole, or leaves it, or replaces it and then raises, as
-- the replacement of a file by a rename does. A corrupt state file is moved aside when it is loaded.
-- Every loop is recursion on a list or a text. Only the decimal text of a number has fuel, one more than
-- the number, which is more than it has digits.
--
-- Paths are their normalized texts. The dict of completed stages is keyed by the stage, which its
-- validation guarantees. The keys of stage inputs are listed in a fixed order, since their digest sorts
-- them. Characters of a version number are ASCII.
--
-- Patterns are matched by derivatives; the classes of digits and of word characters are the ASCII ones.
-- A JSON file is the value that it parses to, and the messages of errors leave out some of the values
-- that they print.
--
-- Not modelled: the checks of the stage results and the estimates, the loader of the policy, the
-- production actions, the rendering of the progress, the preparation of a host, the checks of the doctor
-- and its redaction of secrets, the rest of the overlay, and the packages project, qualification (but the
-- kernel log), image and container. An exception that `run` does not catch (SystemExit) is not an outcome
-- of a call. Division of floats in the TTM plan is exact division of natural numbers, which differs for
-- implausibly large sizes only.
pub mod Prelude
pub mod Results
pub mod Exec
pub mod Regex
pub mod Lines
pub mod Paths
pub mod Json
pub mod Report
pub mod Installer
pub mod Host
pub mod Qualification
pub mod Doctor
pub mod Overlay

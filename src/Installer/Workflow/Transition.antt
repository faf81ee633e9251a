-- ===== src/Installer/Workflow/Transition.antt =====
-- Where an installation stands: the order of its stages, the checks on a loaded state, and the
-- checkpoint after a stage.
use Prim.Native.String.{◌++◌}
use mathlib.Core.List.{◌++◌ as append}
use strix_halo_rocm_toolkit.Prelude.{
  String, Bool, true, false, not, ◌&&◌, ◌||◌, Option, none, some, List, [], ◌∷◌, text_in,
  if◌then◌else◌,
}
use strix_halo_rocm_toolkit.Results.{Result, ok, err, on_result}
use strix_halo_rocm_toolkit.Exec.{◌>>=◌}
use strix_halo_rocm_toolkit.Installer.Stages.{
  InstallMode, InstallStage, complete, stage_eq, mode_eq, full_stage_order, container_stage_order,
}
use strix_halo_rocm_toolkit.Installer.Models.{
  InstallOptions, InstallState, StageResult, Completed, is_completed, set_digest,
}
use strix_halo_rocm_toolkit.Installer.Workflow.Session.{
  Failure, known, Env, Method, StageInputs, now,
}
use strix_halo_rocm_toolkit.Installer.Workflow.Construction.{constructed}

-- `_stage_order`
unfoldable pub stage_order : InstallMode → Result Failure (List InstallStage)
stage_order InstallMode.full = ok full_stage_order
stage_order InstallMode.container = ok container_stage_order
stage_order InstallMode.doctor = err (known "doctor mode has no install stage order")

-- `stage in stages`
abbrev pub stage_in : InstallStage → List InstallStage → Bool
stage_in s [] = false
stage_in s (t ∷ ts) = stage_eq s t || stage_in s ts

-- Every completed stage belongs to the order.
abbrev pub belongs : List InstallStage → Completed → Bool
belongs order [] = true
belongs order ((t, _) ∷ c) = stage_in t order && belongs order c

-- The loop over the order with its variable `seen_incomplete`: no stage is completed after one that
-- is not.
abbrev pub is_prefix : Bool → List InstallStage → Completed → Bool
is_prefix seen_incomplete [] c = true
is_prefix seen_incomplete (s ∷ order) c =
    not (seen_incomplete && is_completed s c)
    && is_prefix (seen_incomplete || not (is_completed s c)) order c

-- `next((stage for stage in order if it is not completed), None)`
abbrev pub next_incomplete : List InstallStage → Completed → Option InstallStage
next_incomplete [] c = none
next_incomplete (s ∷ order) c = if is_completed s c then next_incomplete order c else some s

abbrev pub or_complete : Option InstallStage → InstallStage
or_complete none = complete
or_complete (some s) = s

abbrev pub illegal : String → Failure
illegal reason = known ("illegal installer transition: " ++ reason)

-- The checks on the completed stages and the current one.
abbrev pub check_progress : List InstallStage → InstallState → Result Failure (Unit {0})
check_progress order state =
    if not (belongs order state.completed)
    then err (illegal "completed stages belong to another mode")
    else if not (is_prefix false order state.completed)
    then err (illegal "completed stages are not a prefix")
    else if not (stage_eq state.current_stage (or_complete (next_incomplete order state.completed)))
    then err (illegal "current stage does not match checkpoint")
    else ok tt

-- `_validate_transition`
unfoldable pub validate_transition : InstallOptions → InstallState → Result Failure (Unit {0})
unfolding stage_order
validate_transition o state =
    if not (mode_eq state.mode o.mode)
    then err (illegal ("mode changed; state: " ++ o.state_path))
    else on_result (stage_order o.mode) (λ order. check_progress order state) (λ e. err e)

-- `tuple(dict.fromkeys((*old, *new)))`: the first occurrence of each text, in order.
abbrev pub from_keys : List String → List String → List String
from_keys seen [] = []
from_keys seen (x ∷ xs) = if text_in x seen then from_keys seen xs else x ∷ from_keys (x ∷ seen) xs

module _ {W : Type 0} (env : Env W) where
  -- `_checkpoint`
  unfoldable pub checkpoint :
      InstallState → InstallStage → StageInputs → InstallStage → Method W InstallState
  checkpoint state stage inputs next_stage = now env >>= λ time. constructed env (record state {
    current_stage = next_stage;
    completed = set_digest stage (env.input_digest inputs) state.completed;
    updated_at = time;
  })

  -- `_record_reports`
  unfoldable pub record_reports : InstallState → StageResult → Method W InstallState
  record_reports state outcome = now env >>= λ time. constructed env (record state {
    last_report_paths = from_keys [] (append state.last_report_paths outcome.report_paths);
    updated_at = time;
  })

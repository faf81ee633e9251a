-- ===== src/Installer/Stages.antt =====
-- The stages of an installation and their order in each mode (src/amd_ai/installer/models.py).
use strix_halo_rocm_toolkit.Prelude.{
  ℕ, String, Bool, true, ◌==◌, ◌≡◌, refl, ap, sym, ◌∙◌, ==_iff, if◌then◌else◌, List, [], ◌∷◌,
}

pub data InstallMode : Type 0 where
  full container doctor : InstallMode

abbrev pub mode_value : InstallMode → String
mode_value full = "full"
mode_value container = "container"
mode_value doctor = "doctor"

abbrev mode_rank : InstallMode → ℕ
mode_rank full = 0
mode_rank container = 1
mode_rank doctor = 2

-- `left is right`, for members of the enumeration.
abbrev pub mode_eq : InstallMode → InstallMode → Bool
mode_eq a b = mode_rank a == mode_rank b

pub data InstallStage : Type 0 where
  bootstrap : InstallStage
  host_preflight : InstallStage
  kernel_plan : InstallStage
  kernel_confirm : InstallStage
  kernel_apply : InstallStage
  kernel_reboot_pending : InstallStage
  kernel_verify : InstallStage
  host_plan : InstallStage
  host_confirm : InstallStage
  host_apply : InstallStage
  host_verify : InstallStage
  container_host_check : InstallStage
  release_resolve : InstallStage
  image_pull_or_build : InstallStage
  image_verify : InstallStage
  project_init : InstallStage
  project_verify : InstallStage
  complete : InstallStage

abbrev pub stage_value : InstallStage → String
stage_value bootstrap = "BOOTSTRAP"
stage_value host_preflight = "HOST_PREFLIGHT"
stage_value kernel_plan = "KERNEL_PLAN"
stage_value kernel_confirm = "KERNEL_CONFIRM"
stage_value kernel_apply = "KERNEL_APPLY"
stage_value kernel_reboot_pending = "KERNEL_REBOOT_PENDING"
stage_value kernel_verify = "KERNEL_VERIFY"
stage_value host_plan = "HOST_PLAN"
stage_value host_confirm = "HOST_CONFIRM"
stage_value host_apply = "HOST_APPLY"
stage_value host_verify = "HOST_VERIFY"
stage_value container_host_check = "CONTAINER_HOST_CHECK"
stage_value release_resolve = "RELEASE_RESOLVE"
stage_value image_pull_or_build = "IMAGE_PULL_OR_BUILD"
stage_value image_verify = "IMAGE_VERIFY"
stage_value project_init = "PROJECT_INIT"
stage_value project_verify = "PROJECT_VERIFY"
stage_value complete = "COMPLETE"

abbrev pub stage_rank : InstallStage → ℕ
stage_rank bootstrap = 0
stage_rank host_preflight = 1
stage_rank kernel_plan = 2
stage_rank kernel_confirm = 3
stage_rank kernel_apply = 4
stage_rank kernel_reboot_pending = 5
stage_rank kernel_verify = 6
stage_rank host_plan = 7
stage_rank host_confirm = 8
stage_rank host_apply = 9
stage_rank host_verify = 10
stage_rank container_host_check = 11
stage_rank release_resolve = 12
stage_rank image_pull_or_build = 13
stage_rank image_verify = 14
stage_rank project_init = 15
stage_rank project_verify = 16
stage_rank complete = 17

-- `left is right`, for members of the enumeration.
abbrev pub stage_eq : InstallStage → InstallStage → Bool
stage_eq a b = stage_rank a == stage_rank b

abbrev stage_at : ℕ → InstallStage
stage_at n =
    if n == 0
    then bootstrap
    else if n == 1
    then host_preflight
    else if n == 2
    then kernel_plan
    else if n == 3
    then kernel_confirm
    else if n == 4
    then kernel_apply
    else if n == 5
    then kernel_reboot_pending
    else if n == 6
    then kernel_verify
    else if n == 7
    then host_plan
    else if n == 8
    then host_confirm
    else if n == 9
    then host_apply
    else if n == 10
    then host_verify
    else if n == 11
    then container_host_check
    else if n == 12
    then release_resolve
    else if n == 13
    then image_pull_or_build
    else if n == 14
    then image_verify
    else if n == 15
    then project_init
    else if n == 16
    then project_verify
    else complete

stage_at-rank : (s : InstallStage) → stage_at (stage_rank s) ≡ s
stage_at-rank bootstrap = refl
stage_at-rank host_preflight = refl
stage_at-rank kernel_plan = refl
stage_at-rank kernel_confirm = refl
stage_at-rank kernel_apply = refl
stage_at-rank kernel_reboot_pending = refl
stage_at-rank kernel_verify = refl
stage_at-rank host_plan = refl
stage_at-rank host_confirm = refl
stage_at-rank host_apply = refl
stage_at-rank host_verify = refl
stage_at-rank container_host_check = refl
stage_at-rank release_resolve = refl
stage_at-rank image_pull_or_build = refl
stage_at-rank image_verify = refl
stage_at-rank project_init = refl
stage_at-rank project_verify = refl
stage_at-rank complete = refl

-- Stages that the test finds equal are equal.
pub stage_eq_sound : (a b : InstallStage) → stage_eq a b ≡ true → a ≡ b
stage_eq_sound a b h =
    sym (stage_at-rank a)
    ∙ ap stage_at ((==_iff (stage_rank a) (stage_rank b)).0 h)
    ∙ stage_at-rank b

pub stage_eq_refl : (a : InstallStage) → stage_eq a a ≡ true
stage_eq_refl a = (==_iff (stage_rank a) (stage_rank a)).1 refl

abbrev pub full_stage_order : List InstallStage
full_stage_order =
    bootstrap ∷ host_preflight ∷ kernel_plan ∷ kernel_confirm ∷ kernel_apply ∷ kernel_reboot_pending
    ∷ kernel_verify ∷ host_plan ∷ host_confirm ∷ host_apply ∷ host_verify ∷ release_resolve
    ∷ image_pull_or_build ∷ image_verify ∷ project_init ∷ project_verify ∷ complete ∷ []

abbrev pub container_stage_order : List InstallStage
container_stage_order =
    bootstrap ∷ container_host_check ∷ release_resolve ∷ image_pull_or_build ∷ image_verify
    ∷ project_init ∷ project_verify ∷ complete ∷ []

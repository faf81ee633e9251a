-- ===== src/Doctor/Execute/Repaired.antt =====
-- What a repair that returned has done.
use mathlib.Core.Path.{sym, subst}
use strix_halo_rocm_toolkit.Prelude.{
  ◌≡◌, ◌≢◌, refl, String, Bool, true, false, not, Option, none, some, List, [], ◌∷◌, All, any, ◌⊎◌,
  inl, inr, str_eq, eq_iff, if◌then◌else◌, arith, lookup, text_in,
}
use strix_halo_rocm_toolkit.Results.{Result, ok, err}
use strix_halo_rocm_toolkit.Exec.{Exec, pure}
use strix_halo_rocm_toolkit.Exec.Runs.{
  Runs, Runs-bind, Runs-check, Runs-need, Runs-pure, Runs-lift, Runs-raise,
}
use strix_halo_rocm_toolkit.Paths.{PurePath, parse_path, child, path_eq_sound}
use strix_halo_rocm_toolkit.Regex.{fullmatch}
use strix_halo_rocm_toolkit.Installer.Models.{StableRelease}
use strix_halo_rocm_toolkit.Installer.Registry.{
  RegistryPolicy, RegistryError, policy_error, key_error, trusted_image_references,
}
use strix_halo_rocm_toolkit.Doctor.Models.{
  Diagnostic, DiagnosticDisposition, disposition_eq, DoctorReport, RepairAction,
}
use strix_halo_rocm_toolkit.Doctor.Plan.{RepairPlan, image_id_pattern, config_of}
use strix_halo_rocm_toolkit.Doctor.Execute.{
  Raised, RepairExecutor, by_kind, guarded, failed, from_registry, pull_parent, build_image,
  remove_image, replay_overlay, repair_body, execute_repair,
}

from_registry-ok :
    {A : Type 0} (r : Result RegistryError A) {a : A} → from_registry r ≡ ok a → r ≡ ok a
from_registry-ok (ok a) h = cc
from_registry-ok (err (policy_error m)) h = cc
from_registry-ok (err (key_error m)) h = cc

module _ {W : Type 0} (executor : RepairExecutor W) (policy : RegistryPolicy)
    (release : StableRelease) (project : PurePath) where
  -- The parent image was pulled, a trusted replica of the release.
  abbrev pub Pulled : Option RepairAction → W → W → Type 0
  Pulled none w w' = w ≡ w'
  Pulled (some parent) w w' =
      ((references : List String) × (trusted_image_references release "torch" policy
          ≡ ok references)
        × (text_in parent.exact_target references ≡ true))
      × Runs (executor.pull_and_verify release parent.exact_target) w tt w'

  -- The project was built on the release's image, to an image with the ID.
  abbrev pub Built : Option RepairAction → W → Option String → W → Type 0
  Built none w rebuilt w' = (rebuilt ≡ none) × (w ≡ w')
  Built (some build) w rebuilt w' =
      (id : String) × (rebuilt ≡ some id)
      × (fullmatch image_id_pattern id ≡ true)
      × (parse_path build.exact_target ≡ child project "amd-ai-project.toml")
      × Runs (executor.build_project project release.torch.config_digest) w id w'

  -- The old image was removed, unless the build gave the same one.
  abbrev pub Removed : Option RepairAction → Option String → W → W → Type 0
  Removed none rebuilt w w' = w ≡ w'
  Removed (some removal) rebuilt w w' =
      (id : String) × (rebuilt ≡ some id)
      × (((removal.exact_target ≡ id) × (w ≡ w'))
          ⊎ ((removal.exact_target ≢ id)
              × Runs (executor.remove_image_id removal.exact_target) w tt w'))

  -- The overlay was replayed from the lock of the generation that is set aside.
  abbrev pub Replayed : Option RepairAction → Option RepairAction → W → W → Type 0
  Replayed none none w w' = w ≡ w'
  Replayed none (some _) w w' = ⊥
  Replayed (some _) none w w' = ⊥
  Replayed (some quarantine) (some replay) w w' =
      (parse_path replay.exact_target
        ≡ child (parse_path quarantine.exact_target) "overlay.requirements.lock")
      × Runs (executor.repair_overlay project quarantine.reason_code) w tt w'

  pull_parent-Pulled :
      (parent : Option RepairAction) (w w' : W)
      → Runs (pull_parent executor policy release parent) w tt w'
      → Pulled parent w w'
  pull_parent-Pulled none w w' h = (Runs-pure h).1
  pull_parent-Pulled (some parent) w w' h =
      let (references, t, e, k) = Runs-bind _ _ h in
      let (known, here) = Runs-lift _ e in
      let (listed, pulled) = Runs-check _ _ _ k in
      ((references, from_registry-ok _ known, ground arith), cc)

  build_image-Built :
      (build : Option RepairAction) (rebuilt : Option String) (w w' : W)
      → Runs (build_image executor policy project release build) w rebuilt w'
      → Built build w rebuilt w'
  build_image-Built none rebuilt w w' h = (sym (Runs-pure h).0, (Runs-pure h).1)
  build_image-Built (some build) rebuilt w w' h =
      let (inside, k) = Runs-check _ _ _ h in
      let (id, t, ran, l) = Runs-bind _ _ k in
      let (exact, end_) = Runs-check _ _ _ l in
      let (is, here) = Runs-pure end_ in
      (
        id,
        sym is,
        ground arith,
        path_eq_sound (parse_path build.exact_target) (config_of project) (ground arith),
        cc,
      )

  remove_image-Removed :
      (removal : Option RepairAction) (rebuilt : Option String) (w w' : W)
      → Runs (remove_image executor policy removal rebuilt) w tt w'
      → Removed removal rebuilt w w'
  remove_image-Removed none rebuilt w w' h = (Runs-pure h).1
  remove_image-Removed (some removal) rebuilt w w' h =
      let (exact, k) = Runs-check _ _ _ h in
      let (id, is, l) = Runs-need _ _ _ k in
      (id, is, removed id (str_eq removal.exact_target id) refl l)
    where
      removed :
          (id : String) (b : Bool)
          → str_eq removal.exact_target id ≡ b
          → Runs (if b then pure tt else executor.remove_image_id removal.exact_target) w tt w'
          → ((removal.exact_target ≡ id) × (w ≡ w'))
            ⊎ ((removal.exact_target ≢ id)
                × Runs (executor.remove_image_id removal.exact_target) w tt w')
      removed id true e ran =
          inl (ground (arith, eq_iff removal.exact_target id), (Runs-pure ran).1)
      removed id false e ran = inr (λ same. ground (arith, eq_iff removal.exact_target id), ran)

  replay_overlay-Replayed :
      (quarantine replay : Option RepairAction) (w w' : W)
      → Runs (replay_overlay executor policy project quarantine replay) w tt w'
      → Replayed quarantine replay w w'
  replay_overlay-Replayed none none w w' h = (Runs-pure h).1
  replay_overlay-Replayed none (some _) w w' h = Runs-raise _ w h
  replay_overlay-Replayed (some _) none w w' h = Runs-raise _ w h
  replay_overlay-Replayed (some quarantine) (some replay) w w' h =
      let (same, ran) = Runs-check _ _ _ h in
      (
        path_eq_sound (parse_path replay.exact_target)
            (child (parse_path quarantine.exact_target) "overlay.requirements.lock") (ground arith),
        ran,
      )

  -- The four parts of a repair ran one after the other, and then the doctor, which gave the report.
  abbrev pub IsCarriedOut : List RepairAction → W → DoctorReport → W → Type 0
  IsCarriedOut actions w report w' =
      (w1 : W) × (rebuilt : Option String) × (w2 w3 w4 : W) × Pulled
        (lookup "pull-parent" (by_kind actions)) w w1
      × Built (lookup "build-project-image" (by_kind actions)) w1 rebuilt w2
      × Removed (lookup "remove-project-image" (by_kind actions)) rebuilt w2 w3
      × Replayed (lookup "quarantine-overlay" (by_kind actions))
          (lookup "rebuild-overlay" (by_kind actions)) w3 w4
      × Runs (executor.doctor project) w4 report w'

  repair_body-IsCarriedOut :
      (actions : List RepairAction) (w : W) (report : DoctorReport) (w' : W)
      → Runs (repair_body executor policy (by_kind actions) release project) w report w'
      → IsCarriedOut actions w report w'
  unfolding repair_body
  repair_body-IsCarriedOut actions w report w' h =
      let (_, w1, a, h1) = Runs-bind _ _ h in
      let (rebuilt, w2, b, h2) = Runs-bind _ _ h1 in
      let (_, w3, c, h3) = Runs-bind _ _ h2 in
      let (_, w4, d, e) = Runs-bind _ _ h3 in
      (
        w1,
        rebuilt,
        w2,
        w3,
        w4,
        pull_parent-Pulled _ w w1 a,
        build_image-Built _ rebuilt w1 w2 b,
        remove_image-Removed _ rebuilt w2 w3 c,
        replay_overlay-Replayed _ _ w3 w4 d,
        e,
      )

Runs-guarded :
    {W A : Type 0} (m : Exec Raised W A) {w w' : W} {a : A}
    → Runs (guarded m) w a w'
    → Runs m w a w'
unfolding guarded
Runs-guarded {W} {A} m {w} {w'} {a} h = back (m w).0 (m w).1 refl h
  where
    back :
        (r : Result Raised A) (t : W)
        → m w ≡ (r, t)
        → Runs {E = Raised} (λ (_ : W). (failed r, t)) w a w'
        → Runs m w a w'
    back (ok b) t e k = cc
    back (err f) t e k = cc

-- A diagnostic that the doctor passes.
abbrev pub IsPass : Diagnostic → Type 0
IsPass d = d.disposition ≡ DiagnosticDisposition.pass

disposition-IsPass :
    (d : DiagnosticDisposition)
    → disposition_eq d DiagnosticDisposition.pass ≡ true
    → d ≡ DiagnosticDisposition.pass
disposition-IsPass d h = ground arith

All-IsPass :
    (ds : List Diagnostic)
    → any (λ (d : Diagnostic). not (disposition_eq d.disposition DiagnosticDisposition.pass)) ds
      ≡ false
    → All IsPass ds
All-IsPass [] h = tt
All-IsPass (d ∷ ds) h =
    (disposition-IsPass d.disposition (ground arith), All-IsPass ds (ground arith))

-- The plan was open, it was carried out, and nothing that the doctor then found is amiss.
abbrev pub IsRepaired :
    {W : Type 0} → RepairExecutor W → RegistryPolicy → RepairPlan → W → DoctorReport → W → Type 0
IsRepaired executor policy plan w report w' =
    (plan.blocked ≡ false)
    × (release : StableRelease) × (project : PurePath) × (plan.release ≡ some release)
    × (plan.project_path ≡ some project)
    × IsCarriedOut executor policy release project plan.actions w report w'
    × (report.status ≡ "pass")
    × All IsPass report.diagnostics

-- When a repair returns a report, its plan was not blocked, and the last action of each kind was carried
-- out in this order, each from the world that the one before it left: a trusted parent image is pulled, the
-- project is built, the old image is removed unless the build gave the same one, and the overlay is
-- replayed from the lock of the generation that is set aside; nothing is done for a kind without an
-- action. The report is what the doctor gave after all of them, its status is `pass`, and so is the
-- disposition of every diagnostic in it.
pub execute_repair-IsRepaired :
    {W : Type 0} (executor : RepairExecutor W) (policy : RegistryPolicy) (plan : RepairPlan) (w : W)
    {report : DoctorReport} {w' : W}
    → Runs (execute_repair executor policy plan) w report w'
    → IsRepaired executor policy plan w report w'
unfolding execute_repair
execute_repair-IsRepaired executor policy plan w {report} {w'} h =
    let (open_, h1) = Runs-check _ _ _ h in
    let (_, _, h2) = Runs-need _ _ _ h1 in
    let (release, known, h3) = Runs-need _ _ _ h2 in
    let (project, selected, h4) = Runs-need _ _ _ h3 in
    let (found, t, ran, h5) = Runs-bind _ _ h4 in
    let (pass, h6) = Runs-check _ _ _ h5 in
    let (is, here) = Runs-pure h6 in
    let same : found ≡ report = is in
    let carried : IsCarriedOut executor policy release project plan.actions w found t =
      repair_body-IsCarriedOut executor policy release project plan.actions w found t
        (Runs-guarded _ ran) in
    (
      open_,
      release,
      project,
      known,
      selected,
      subst (λ r. IsCarriedOut executor policy release project plan.actions w r w') same
          (subst (IsCarriedOut executor policy release project plan.actions w found) here carried),
      ground (arith, eq_iff report.status "pass"),
      All-IsPass report.diagnostics (ground arith),
    )

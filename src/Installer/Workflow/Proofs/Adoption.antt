-- ===== src/Installer/Workflow/Proofs/Adoption.antt =====
-- The adoption of an update of the installer (`_adopt_compatible_installer_update` in workflow.py)
-- leaves the progress of the installation alone.
use strix_halo_rocm_toolkit.Prelude.{
  ◌≡◌, refl, ap, sym, ◌∙◌, String, Bool, true, false, not, ◌&&◌, ◌||◌, some, List, [], ◌∷◌,
  if◌then◌else◌, str_eq,
}
use strix_halo_rocm_toolkit.Results.{ok}
use strix_halo_rocm_toolkit.Exec.Ensures.{
  Ensures-bind, Ensures, Returns, Ensures-after, Ensures-pure, Ensures-choice, Ensures-option-known,
}
use strix_halo_rocm_toolkit.Installer.Stages.{InstallStage, stage_eq, stage_eq_sound}
use strix_halo_rocm_toolkit.Installer.Models.{
  InstallOptions, InstallState, Completed, digest_of, is_completed, set_digest,
}
use strix_halo_rocm_toolkit.Installer.Workflow.Session.{Env, Session, StageInputs}
use strix_halo_rocm_toolkit.Installer.Workflow.Transition.{
  stage_order, stage_in, belongs, is_prefix, next_incomplete, or_complete,
}
use strix_halo_rocm_toolkit.Installer.Workflow.Construction.{Ensures-constructed}
use strix_halo_rocm_toolkit.Installer.Workflow.Update.{
  with_identity, is_same_installer, can_adopt_installer_update, adopted,
  adopt_compatible_installer_update,
}
use strix_halo_rocm_toolkit.Installer.Workflow.Proofs.Files.{
  OnFiles, now-Keeps, tell-Keeps, stage_inputs-Keeps,
}
use strix_halo_rocm_toolkit.Installer.Workflow.Proofs.Position.{At-start, At-IsValid, IsValid}
use strix_halo_rocm_toolkit.Installer.Workflow.Proofs.Prefix.{
  is_completed-set_digest, belongs-set_digest, and_parts,
}

-- The same stages are completed.
abbrev pub Agree : Completed → Completed → Type 0
Agree c1 c = (s : InstallStage) → is_completed s c1 ≡ is_completed s c

is_completed-digest_of :
    (t : InstallStage) (e : String) (c : Completed)
    → digest_of t c ≡ some e
    → is_completed t c ≡ true
is_completed-digest_of t e [] h = cc
is_completed-digest_of t e ((u, d) ∷ c) h = at (stage_eq t u) h (is_completed-digest_of t e c)
  where
    at :
        (b : Bool)
        → (if b then some d else digest_of t c) ≡ some e
        → (digest_of t c ≡ some e → is_completed t c ≡ true)
        → (if b then true else is_completed t c) ≡ true
    at true _ _ = refl
    at false k ih = ih k

set_digest-Agree :
    (t : InstallStage) (digest : String) (c : Completed)
    → is_completed t c ≡ true
    → Agree (set_digest t digest c) c
set_digest-Agree t digest c h s = is_completed-set_digest s t digest c ∙ at (stage_eq s t) refl
  where
    at : (b : Bool) → stage_eq s t ≡ b → (b || is_completed s c) ≡ is_completed s c
    at true e = sym h ∙ ap (λ u. is_completed u c) (sym (stage_eq_sound s t e))
    at false e = refl

is_prefix-Agree :
    (seen : Bool) (order : List InstallStage) (c1 c : Completed)
    → Agree c1 c
    → is_prefix seen order c1 ≡ is_prefix seen order c
is_prefix-Agree seen [] c1 c a = refl
is_prefix-Agree seen (s ∷ order) c1 c a =
    ap (λ b. not (seen && b) && is_prefix (seen || not b) order c1) (a s)
    ∙ ap (λ b. not (seen && is_completed s c) && b)
        (is_prefix-Agree (seen || not (is_completed s c)) order c1 c a)

next_incomplete-Agree :
    (order : List InstallStage) (c1 c : Completed)
    → Agree c1 c
    → next_incomplete order c1 ≡ next_incomplete order c
next_incomplete-Agree [] c1 c a = refl
next_incomplete-Agree (s ∷ order) c1 c a =
    ap (λ b. if b then next_incomplete order c1 else some s) (a s)
    ∙ ap (λ x. if is_completed s c then x else some s) (next_incomplete-Agree order c1 c a)

-- A completed stage is one of the order.
completed-stage_in :
    (t : InstallStage) (order : List InstallStage) (c : Completed)
    → belongs order c ≡ true
    → is_completed t c ≡ true
    → stage_in t order ≡ true
completed-stage_in t order [] h k = cc
completed-stage_in t order ((u, d) ∷ c) h k =
    let parts = and_parts (stage_in u order) (belongs order c) h in
    at (stage_eq t u) refl k parts.0 (completed-stage_in t order c parts.1)
  where
    at :
        (b : Bool)
        → stage_eq t u ≡ b
        → (if b then true else is_completed t c) ≡ true
        → stage_in u order ≡ true
        → (is_completed t c ≡ true → stage_in t order ≡ true)
        → stage_in t order ≡ true
    at true e _ i _ = ap (λ v. stage_in v order) (stage_eq_sound t u e) ∙ i
    at false e k1 _ ih = ih k1

-- The progress of an installation: its mode, its stage and its completed stages.
abbrev pub SameStages : InstallState → InstallState → Type 0
SameStages st st1 = (st1.current_stage ≡ st.current_stage) × (Agree st1.completed st.completed)

module _ {W : Type 0} (env : Env W) (o : InstallOptions) (st : InstallState) where
  adopted-IsValid :
      (order : List InstallStage) (inputs : StageInputs) (time e : String)
      → stage_order o.mode ≡ ok order
      → digest_of InstallStage.bootstrap st.completed ≡ some e
      → IsValid o st
      → IsValid o (adopted env o st inputs time)
  adopted-IsValid order inputs time e known_order found v =
      let a = At-start o order st known_order v in
      let done = is_completed-digest_of InstallStage.bootstrap e st.completed found in
      let digest : String = env.input_digest inputs in
      let agree = set_digest-Agree InstallStage.bootstrap digest st.completed done in
      At-IsValid o [] order _ known_order (record {
        mode = a.mode;
        owned =
            belongs-set_digest order InstallStage.bootstrap digest st.completed
              (completed-stage_in InstallStage.bootstrap order st.completed a.owned done) a.owned;
        finished = refl;
        prefix =
            is_prefix-Agree false order (set_digest InstallStage.bootstrap digest st.completed)
              st.completed agree
            ∙ a.prefix;
        current =
            a.current
            ∙ ap or_complete (
                sym (
                  next_incomplete-Agree order
                    (set_digest InstallStage.bootstrap digest st.completed) st.completed agree));
      })

  abbrev Kept : InstallState × Bool → Type 0
  Kept x = (IsValid o x.0) × (SameStages st x.0)

  adoption-Kept :
      (order : List InstallStage)
      → stage_order o.mode ≡ ok order
      → IsValid o st
      → Kept (st, false)
      → Ensures (OnFiles (λ _ _. Unit)) Kept (adopt_compatible_installer_update env o st)
  unfolding adopt_compatible_installer_update
  adoption-Kept order known_order v kept =
      Ensures-choice (is_same_installer env o st) _ _ (Ensures-pure _ kept) (
        Ensures-choice (not (can_adopt_installer_update env.installer_version st)) _ _
          (Ensures-pure _ kept)
          (Ensures-option-known (digest_of InstallStage.bootstrap st.completed) _ _
            (λ _. Ensures-pure _ kept)
            λ expected found.
              Ensures-after _ _ (stage_inputs-Keeps env o (λ _ _. Unit) InstallStage.bootstrap st)
                λ inputs.
                  Ensures-choice
                    (not (str_eq (env.input_digest (with_identity st inputs)) expected)) _ _
                    (Ensures-pure _ kept)
                    (Ensures-after _ _ (now-Keeps env o (λ _ _. Unit)) λ time.
                      Ensures-bind _ _
                        (Ensures-constructed env {Q = λ updated. Kept (updated, true)} _ (
                          adopted-IsValid order inputs time expected known_order found v,
                          (
                            refl,
                            set_digest-Agree InstallStage.bootstrap (env.input_digest inputs)
                                st.completed
                                (is_completed-digest_of InstallStage.bootstrap expected st.completed
                                  found),
                          ),
                        ))
                        λ updated kept_too.
                          Ensures-after _ _ (tell-Keeps env o (λ _ _. Unit) _)
                            λ _. Ensures-pure _ kept_too)))

  -- From a state that the checks accept, what the adoption of an update returns is a state that they
  -- accept too, at the same stage and with the same completed stages, whether it adopts or not.
  pub adopt-IsValid :
      (order : List InstallStage) (s : Session W)
      → stage_order o.mode ≡ ok order
      → IsValid o st
      → Returns Kept (adopt_compatible_installer_update env o st s).0
  adopt-IsValid order s known_order v =
      (adoption-Kept order known_order v (v, (refl, λ t. refl))).gives s tt

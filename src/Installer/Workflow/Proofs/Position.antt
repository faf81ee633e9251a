-- ===== src/Installer/Workflow/Proofs/Position.antt =====
-- Where a run stands in the order of its stages, and how a checkpoint moves it on.
use mathlib.Core.List.{◌++◌ as append, append_assoc}
use strix_halo_rocm_toolkit.Prelude.{
  ◌≡◌, refl, ap, sym, ◌∙◌, String, Bool, true, false, not, ◌||◌, some, List, [], ◌∷◌, if◌then◌else◌,
}
use strix_halo_rocm_toolkit.Results.{Result, ok, err, on_result}
use strix_halo_rocm_toolkit.Installer.Stages.{
  InstallStage, stage_eq, mode_eq, stage_eq_refl, stage_eq_sound,
}
use strix_halo_rocm_toolkit.Installer.Models.{
  InstallOptions, InstallState, is_completed, set_digest,
}
use strix_halo_rocm_toolkit.Installer.Workflow.Session.{Failure}
use strix_halo_rocm_toolkit.Installer.Workflow.Transition.{
  stage_order, belongs, is_prefix, next_incomplete, or_complete, validate_transition,
  check_progress, stage_in,
}
use strix_halo_rocm_toolkit.Installer.Workflow.Stage.{following}
use strix_halo_rocm_toolkit.Installer.Workflow.Proofs.Prefix.{
  all_done, none_done, distinct, ends_complete, is_prefix-append, is_prefix-none_done,
  next_incomplete-append, all_done-snoc, is_prefix-none, next_incomplete-none,
  is_completed-set_digest, all_done-set_digest, none_done-set_digest, belongs-set_digest,
  stage_in-append, and_parts, not_parts,
}

-- `_validate_transition` accepts the state.
abbrev pub IsValid : InstallOptions → InstallState → Type 0
IsValid o st = validate_transition o st ≡ ok tt

-- Every stage before `todo` is completed, and the checks on a loaded state hold.
pub record At (o : InstallOptions) (d todo : List InstallStage) (st : InstallState) : Type 0 where
  pub mode : mode_eq st.mode o.mode ≡ true
  pub owned : belongs (append d todo) st.completed ≡ true
  pub finished : all_done d st.completed ≡ true
  pub prefix : is_prefix false todo st.completed ≡ true
  pub current : st.current_stage ≡ or_complete (next_incomplete todo st.completed)

-- The stage, the completed stages and the mode are those of another state.
pub record SameProgress (st st1 : InstallState) : Type 0 where
  pub mode : st1.mode ≡ st.mode
  pub current : st1.current_stage ≡ st.current_stage
  pub completed : st1.completed ≡ st.completed

unguarded :
    {A : Type 0} (m : Bool) (e : Failure) (r : Result Failure A) (a : A)
    (f : A → Result Failure (Unit {0}))
    → r ≡ ok a
    → (if not m then err e else on_result r f (λ x. err x)) ≡ ok tt
    → (m ≡ true) × (f a ≡ ok tt)
unguarded true e (ok b) a f h v = (refl, cc)
unguarded true e (err _) a f h v = cc
unguarded false e r a f h v = cc

abbrev accepted : Result Failure (Unit {0})
accepted = ok tt

all_pass :
    (b p c : Bool) (e1 e2 e3 : Failure)
    → (if not b then err e1 else if not p then err e2 else if not c then err e3 else ok tt)
      ≡ accepted
    → (b ≡ true) × (p ≡ true) × (c ≡ true)
all_pass true true true _ _ _ h = (refl, refl, refl)
all_pass false _ _ _ _ _ h = cc
all_pass true false _ _ _ _ h = cc
all_pass true true false _ _ _ h = cc

module _ (o : InstallOptions) where
  pub At-same :
      (d todo : List InstallStage) (st st1 : InstallState)
      → SameProgress st st1
      → At o d todo st
      → At o d todo st1
  At-same d todo st st1 same a = record {
    mode = ap (λ m. mode_eq m o.mode) same.mode ∙ a.mode;
    owned = ap (belongs (append d todo)) same.completed ∙ a.owned;
    finished = ap (all_done d) same.completed ∙ a.finished;
    prefix = ap (is_prefix false todo) same.completed ∙ a.prefix;
    current =
        same.current
        ∙ a.current
        ∙ sym (ap (λ c. or_complete (next_incomplete todo c)) same.completed);
  }

  pub At-IsValid :
      (d todo : List InstallStage) (st : InstallState)
      → stage_order o.mode ≡ ok (append d todo)
      → At o d todo st
      → IsValid o st
  unfolding validate_transition
  At-IsValid d todo st known_order a =
      rw (a.mode, known_order, a.owned, prefix_holds, current_holds)
    where
      prefix_holds : is_prefix false (append d todo) st.completed ≡ true
      prefix_holds = is_prefix-append d todo st.completed a.finished ∙ a.prefix

      current_holds :
          stage_eq st.current_stage (or_complete (next_incomplete (append d todo) st.completed))
          ≡ true
      current_holds =
          ap (λ c. stage_eq st.current_stage (or_complete c))
            (next_incomplete-append d todo st.completed a.finished)
          ∙ ap (λ c. stage_eq c (or_complete (next_incomplete todo st.completed))) a.current
          ∙ stage_eq_refl (or_complete (next_incomplete todo st.completed))

  -- A state that the checks accept stands at the start of the order.
  pub At-start :
      (order : List InstallStage) (st : InstallState)
      → stage_order o.mode ≡ ok order
      → IsValid o st
      → At o [] order st
  unfolding validate_transition
  At-start order st known_order v =
      let next : InstallStage = or_complete (next_incomplete order st.completed) in
      let opened =
        unguarded (mode_eq st.mode o.mode) _ (stage_order o.mode) order (λ l. check_progress l st)
          known_order v in
      let parts =
        all_pass (belongs order st.completed) (is_prefix false order st.completed)
          (stage_eq st.current_stage next) _ _ _ opened.1 in
      record {
        mode = opened.0;
        owned = parts.0;
        finished = refl;
        prefix = parts.1;
        current = stage_eq_sound st.current_stage next parts.2;
      }

  -- A completed stage is passed by.
  pub At-skip :
      (d rest : List InstallStage) (stage : InstallStage) (st : InstallState)
      → At o d (stage ∷ rest) st
      → is_completed stage st.completed ≡ true
      → At o (append d (stage ∷ [])) rest st
  At-skip d rest stage st a done = record {
    mode = a.mode;
    owned = ap (λ l. belongs l st.completed) (append_assoc d (stage ∷ []) rest) ∙ a.owned;
    finished = all_done-snoc d stage st.completed a.finished done;
    prefix = ap (λ b. is_prefix (not b) rest st.completed) (sym done) ∙ a.prefix;
    current =
        a.current
        ∙ ap (λ b. or_complete (if b then next_incomplete rest st.completed else some stage)) done;
  }

  -- The checkpoint of the first stage that is not completed.
  pub At-complete :
      (d rest : List InstallStage) (stage : InstallStage) (digest : String) (st st1 : InstallState)
      → distinct (stage ∷ rest) ≡ true
      → ends_complete (stage ∷ rest) ≡ true
      → At o d (stage ∷ rest) st
      → is_completed stage st.completed ≡ false
      → st1.mode ≡ st.mode
      → st1.completed ≡ set_digest stage digest st.completed
      → st1.current_stage ≡ following stage rest
      → At o (append d (stage ∷ [])) rest st1
  At-complete d rest stage digest st st1 apart last a fresh mode completed current = record {
    mode = ap (λ m. mode_eq m o.mode) mode ∙ a.mode;
    owned =
        ap (λ l. belongs l st1.completed) (append_assoc d (stage ∷ []) rest)
        ∙ ap (belongs (append d (stage ∷ rest))) completed
        ∙ belongs-set_digest (append d (stage ∷ rest)) stage digest st.completed
            (stage_in-append d rest stage) a.owned;
    finished =
        ap (all_done (append d (stage ∷ []))) completed
        ∙ all_done-snoc d stage (set_digest stage digest st.completed)
            (all_done-set_digest d stage digest st.completed a.finished)
            (is_completed-set_digest stage stage digest st.completed
              ∙ ap (λ b. b || is_completed stage st.completed) (stage_eq_refl stage));
    prefix =
        ap (is_prefix false rest) completed
        ∙ is_prefix-none rest (set_digest stage digest st.completed) none_left;
    current =
        current
        ∙ sym
            (next_incomplete-none stage rest (set_digest stage digest st.completed) none_left last)
        ∙ ap (λ c. or_complete (next_incomplete rest c)) (sym completed);
  }
    where
      none_left : none_done rest (set_digest stage digest st.completed) ≡ true
      none_left =
          none_done-set_digest rest stage digest st.completed
            (not_parts (stage_in stage rest)
              (and_parts (not (stage_in stage rest)) (distinct rest) apart).0)
            (sym (is_prefix-none_done rest st.completed)
              ∙ ap (λ b. is_prefix (not b) rest st.completed) (sym fresh)
              ∙ a.prefix)

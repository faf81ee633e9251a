-- ===== src/Installer/Workflow/Proofs/Authorised.antt =====
-- What the operator authorised (workflow.py): the host is changed with no other plan, and no other
-- image is pulled than those of the resolved release.
use strix_halo_rocm_toolkit.Installer.Workflow.Proofs.Prefix.{and_parts}
use strix_halo_rocm_toolkit.Prelude.{
  ◌≡◌, refl, ap, sym, ◌∙◌, String, Bool, true, false, not, ◌&&◌, ◌||◌, Option, some, opt_text_eq,
  str_eq, if◌then◌else◌, arith, opt_text_eq_sound,
}
use strix_halo_rocm_toolkit.Results.{Result, ok, err}
use strix_halo_rocm_toolkit.Exec.{◌>>=◌, continue}
use strix_halo_rocm_toolkit.Exec.Ensures.{
  Ensures, Returns, Ensures-bind, Ensures-after, Ensures-pure, Ensures-raise, Ensures-option,
  Ensures-if, Ensures-option-known,
}
use strix_halo_rocm_toolkit.Installer.Stages.{InstallStage}
use strix_halo_rocm_toolkit.Installer.Models.{
  InstallOptions, InstallState, HostPlanResult, HostConfirmation, Output, is_kernel_phase,
}
use strix_halo_rocm_toolkit.Installer.Workflow.Session.{Env, Session, Method, Call, Failure, call}
use strix_halo_rocm_toolkit.Installer.Workflow.Plans.{
  resolved_kernel_plan, resolved_host_plan, confirm_kernel_plan, confirm_host_plan,
}
use strix_halo_rocm_toolkit.Installer.Workflow.Dispatch.{dispatch_in}
use strix_halo_rocm_toolkit.Installer.Workflow.Proofs.Files.{
  OnFiles, base, cached_kernel_plan-Keeps, cached_host_plan-Keeps,
}

-- The plan is the one whose digest and adapter the state holds.
abbrev pub is_authorised : Option String → InstallState → HostPlanResult → Bool
is_authorised digest st plan =
    opt_text_eq (some plan.plan_digest) digest
    && opt_text_eq (some plan.adapter_id) st.host_adapter_id

abbrev pub is_authorised_kernel : InstallState → HostPlanResult → Bool
is_authorised_kernel st plan =
    is_authorised st.kernel_plan_digest st plan && is_kernel_phase plan.plan.phase

-- The same environment, but that it applies a plan that is not allowed in another way.
abbrev pub other_apply :
    {W : Type 0} → (HostPlanResult → Bool) → (HostPlanResult → Bool → Call W Output) → Env W → Env W
other_apply allow deny env = record env {
  host_apply = λ plan docker. if allow plan then env.host_apply plan docker else deny plan docker;
}

module _ {W A B : Type 0} {Q : A → Type 0} where
  -- Two continuations that agree on what may be returned are the same.
  pub bind-agree :
      (m : Method W A) (f g : A → Method W B) (s : Session W)
      → Returns Q (m s).0
      → ((a : A) → Q a → f a ≡ g a)
      → (m >>= f) s ≡ (m >>= g) s
  unfolding ◌>>=◌
  bind-agree m f g s q same = agree (m s).0 (m s).1 q
    where
      agree :
          (x : Result Failure A) (s1 : Session W) → Returns Q x → continue x f s1 ≡ continue x g s1
      agree (ok a) s1 h = ap (λ n. n s1) (same a h)
      agree (err e) s1 h = refl

-- The plan that a confirmation of a run without prompts accepts.
abbrev pub Confirmed : Option String → Option String → Bool → HostConfirmation → Type 0
Confirmed given digest docker c =
    c.accepted ≡ true → (given ≡ digest) × (c.docker_group_accepted ≡ docker)

not_parts : (a : Bool) → not a ≡ false → a ≡ true
not_parts true h = refl
not_parts false h = ground arith

same_digest :
    (plan : HostPlanResult) (given digest : Option String)
    → opt_text_eq given (some plan.plan_digest) ≡ true
    → opt_text_eq (some plan.plan_digest) digest ≡ true
    → given ≡ digest
same_digest plan given digest h k =
    opt_text_eq_sound given (some plan.plan_digest) h
    ∙ opt_text_eq_sound (some plan.plan_digest) digest k

module _ {W : Type 0} (env : Env W) (o : InstallOptions) (st : InstallState) where
  abbrev P : Session W → Type 0
  P = OnFiles (λ _ _. Unit)

  not_any : (a b : Bool) → (not a || not b) ≡ false → (a && b) ≡ true
  not_any true true h = refl
  not_any true false h = ground arith
  not_any false b h = ground arith

  not_any3 : (a b c : Bool) → (not a || not b || not c) ≡ false → ((a && b) && c) ≡ true
  not_any3 true true true h = refl
  not_any3 true true false h = ground arith
  not_any3 true false c h = ground arith
  not_any3 false b c h = ground arith

  abbrev Authorised : HostPlanResult → Type 0
  Authorised plan = is_authorised st.host_plan_digest st plan ≡ true

  abbrev AuthorisedKernel : HostPlanResult → Type 0
  AuthorisedKernel plan = is_authorised_kernel st plan ≡ true

  resolved_kernel_plan-Authorised : Ensures P AuthorisedKernel (resolved_kernel_plan env o st)
  unfolding resolved_kernel_plan
  resolved_kernel_plan-Authorised = Ensures-option (st.target_user) _ _ (Ensures-raise _) λ user.
      Ensures-option-known (st.kernel_plan_digest) _ _ (λ _. Ensures-raise _)
        λ digest e. Ensures-after _ _ (cached_kernel_plan-Keeps env o (λ _ _. Unit) user) λ plan.
          Ensures-if _ _ _ (λ _. Ensures-raise _)
            λ same. Ensures-pure plan (
              rw e (
                not_any3 (str_eq plan.plan_digest digest)
                  (opt_text_eq (some plan.adapter_id) st.host_adapter_id)
                  (is_kernel_phase plan.plan.phase) same))

  resolved_host_plan-Authorised : Ensures P Authorised (resolved_host_plan env o st)
  unfolding resolved_host_plan
  resolved_host_plan-Authorised = Ensures-option (st.target_user) _ _ (Ensures-raise _) λ user.
      Ensures-option-known (st.host_plan_digest) _ _ (λ _. Ensures-raise _)
        λ digest e. Ensures-after _ _ (cached_host_plan-Keeps env o (λ _ _. Unit) user) λ plan.
          Ensures-if _ _ _ (λ _. Ensures-raise _)
            λ same. Ensures-pure plan (
              rw e (
                not_any (str_eq plan.plan_digest digest)
                  (opt_text_eq (some plan.adapter_id) st.host_adapter_id) same))

  applied :
      (allow : HostPlanResult → Bool) (deny : HostPlanResult → Bool → Call W Output) (docker : Bool)
      (plan : HostPlanResult)
      → allow plan ≡ true
      → call (env.host_apply plan docker)
        ≡ call ((other_apply allow deny env).host_apply plan docker)
  applied allow deny docker plan e =
      ap (λ b. call (if b then env.host_apply plan docker else deny plan docker)) (sym e)

  -- The stage KERNEL_APPLY applies a kernel plan only with the digest and the adapter that the state
  -- holds: it is the same stage if the action did anything else with every other plan.
  pub kernel_apply-authorised :
      (dir : String) (deny : HostPlanResult → Bool → Call W Output) (s : Session W)
      → dispatch_in env o dir InstallStage.kernel_apply st s
        ≡ dispatch_in
            (other_apply (is_authorised_kernel st) deny env)
            o
            dir
            InstallStage.kernel_apply
            st
            s
  unfolding dispatch_in resolved_kernel_plan
  kernel_apply-authorised dir deny s =
      bind-agree {Q = AuthorisedKernel} (resolved_kernel_plan env o st) _ _ s
        (resolved_kernel_plan-Authorised.gives s tt)
        (λ plan e. applied (is_authorised_kernel st) deny false plan e)

  -- The stage HOST_APPLY applies a host plan only with the digest and the adapter that the state
  -- holds: it is the same stage if the action did anything else with every other plan.
  pub host_apply-authorised :
      (dir : String) (deny : HostPlanResult → Bool → Call W Output) (s : Session W)
      → dispatch_in env o dir InstallStage.host_apply st s
        ≡ dispatch_in
            (other_apply (is_authorised st.host_plan_digest st) deny env)
            o
            dir
            InstallStage.host_apply
            st
            s
  unfolding dispatch_in resolved_host_plan
  host_apply-authorised dir deny s =
      bind-agree {Q = Authorised} (resolved_host_plan env o st) _ _ s
        (resolved_host_plan-Authorised.gives s tt)
        (λ plan e.
          applied (is_authorised st.host_plan_digest st) deny st.docker_group_accepted plan e)

  -- A run without prompts accepts a kernel plan only if the digest given with it is the digest of the
  -- plan that the state holds, and never accepts the docker group with it.
  pub confirm_kernel_plan-Confirmed :
      o.non_interactive ≡ true
      → (s : Session W)
      → Returns
          (Confirmed o.accepted_kernel_plan_digest st.kernel_plan_digest false)
          (confirm_kernel_plan env o st s).0
  unfolding confirm_kernel_plan
  confirm_kernel_plan-Confirmed silent s = confirmed.gives s tt
    where
      confirmed :
          Ensures P
            (Confirmed o.accepted_kernel_plan_digest st.kernel_plan_digest false)
            (confirm_kernel_plan env o st)
      confirmed =
          Ensures-bind {Q = AuthorisedKernel} _ _ (resolved_kernel_plan-Authorised) λ plan a.
            Ensures-after _ _ (search base) λ _.
              Ensures-if o.non_interactive _ _
                (λ _.
                  Ensures-if _ _ _ (λ _. Ensures-pure _ (λ e. cc))
                    (λ same. Ensures-pure _ (λ _. (
                      same_digest plan _ _ (not_parts _ same) (and_parts _ _ (and_parts _ _ a).0).0,
                      refl,
                    ))))
                (λ e. cc)

  -- A run without prompts accepts a host plan only if the digest given with it is the digest of the
  -- plan that the state holds, and accepts the docker group as the options say.
  pub confirm_host_plan-Confirmed :
      o.non_interactive ≡ true
      → (s : Session W)
      → Returns
          (Confirmed o.accepted_host_plan_digest st.host_plan_digest o.accept_docker_group)
          (confirm_host_plan env o st s).0
  unfolding confirm_host_plan
  confirm_host_plan-Confirmed silent s = confirmed.gives s tt
    where
      confirmed :
          Ensures P
            (Confirmed o.accepted_host_plan_digest st.host_plan_digest o.accept_docker_group)
            (confirm_host_plan env o st)
      confirmed = Ensures-bind {Q = Authorised} _ _ (resolved_host_plan-Authorised) λ plan a.
          Ensures-after _ _ (search base) λ _.
            Ensures-if o.non_interactive _ _
              (λ _.
                Ensures-if _ _ _ (λ _. Ensures-pure _ (λ e. cc))
                  (λ same.
                    Ensures-pure _
                      (λ _. (same_digest plan _ _ (not_parts _ same) (and_parts _ _ a).0, refl))))
              (λ e. cc)

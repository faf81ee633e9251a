-- ===== src/Host/Policy/Blocked.antt =====
-- When the preflight blocks a host.
use mathlib.Core.List.{◌++◌ as append}
use strix_halo_rocm_toolkit.Prelude.{
  ◌≡◌, refl, ◌↔◌, ◌≢◌, String, Bool, true, false, not, ◌&&◌, ◌||◌, List, [], ◌∷◌, map, any,
  any-append, arith, test_rules,
}
use strix_halo_rocm_toolkit.Report.{Status, status_eq}
use strix_halo_rocm_toolkit.Host.Models.{HostSnapshot}
use strix_halo_rocm_toolkit.Host.Policy.{
  ClassifiedFinding, found, platform_findings, gpu_findings, memory_findings, preflight_findings,
  overall_status, first_status, evaluate_preflight, meets_branch, is_supported_os,
  is_supported_arch, has_candidate, has_gpu, has_driver,
}

pub any-found :
    (p : ClassifiedFinding → Bool) (b : Bool) (c : ClassifiedFinding)
    → any p (found b c) ≡ (b && p c)
unfolding found
any-found p true c = ground arith
any-found p false c = refl

pub any-map {ℓ κ} :
    {A : Type ℓ} {B : Type κ} (p : B → Bool) (f : A → B) (xs : List A)
    → any p (map f xs) ≡ any (λ x. p (f x)) xs
any-map p f [] = refl
any-map p f (x ∷ xs) = ground (arith, any-map p f xs)

-- What the policy demands of a host that may be changed.
abbrev pub IsSupported : HostSnapshot → Type 0
IsSupported s =
    (is_supported_os s ≡ true)
    × (is_supported_arch s ≡ true)
    × ((meets_branch s.kernel || has_candidate s) ≡ true)
    × (has_gpu s ≡ true)
    × (has_driver s ≡ true)

abbrev is_blocking : ClassifiedFinding → Bool
is_blocking c = status_eq Status.blocked c.status

any-platform :
    (s : HostSnapshot)
    → any is_blocking (platform_findings s) ≡ (
        not (is_supported_os s)
        || (not (is_supported_arch s) || (not (meets_branch s.kernel) && not (has_candidate s))))
any-platform s = simp (any-append, any-found, test_rules)

any-gpu :
    (s : HostSnapshot)
    → any is_blocking (gpu_findings s) ≡ (not (has_gpu s) || (has_gpu s && not (has_driver s)))
any-gpu s = simp (any-append, any-found, test_rules)

any-memory :
    (tested : List String) (s : HostSnapshot) → any is_blocking (memory_findings tested s) ≡ false
any-memory tested s = simp (any-append, any-found, test_rules)

-- A test on three lists of findings.
pub any-three :
    (p : ClassifiedFinding → Bool) (xs ys zs : List ClassifiedFinding) {a b c : Bool}
    → any p xs ≡ a
    → any p ys ≡ b
    → any p zs ≡ c
    → any p (append xs (append ys zs)) ≡ (a || (b || c))
any-three p xs ys zs h k l = ground (arith, any-append p xs (append ys zs), any-append p ys zs)

any-blocking :
    (tested : List String) (s : HostSnapshot)
    → any is_blocking (preflight_findings tested s) ≡ (
        (not (is_supported_os s)
          || (not (is_supported_arch s) || (not (meets_branch s.kernel) && not (has_candidate s))))
        || ((not (has_gpu s) || (has_gpu s && not (has_driver s))) || false))
unfolding preflight_findings
any-blocking tested s =
    any-three is_blocking (platform_findings s) (gpu_findings s) (memory_findings tested s)
      (any-platform s) (any-gpu s) (any-memory tested s)

pub first_status-blocked :
    (ss : List Status)
    → (first_status ss ≡ Status.blocked) ↔ (any (status_eq Status.blocked) ss ≡ true)
first_status-blocked ss = ground arith

-- The preflight blocks a host exactly when the policy does not support it: the system, the architecture,
-- the kernel or a candidate for it, the GPU and its driver.
pub evaluate_preflight-blocked :
    (tested : List String) (now : String) (s : HostSnapshot)
    → ((evaluate_preflight tested now s).status ≢ Status.blocked) ↔ IsSupported s
unfolding evaluate_preflight overall_status
evaluate_preflight-blocked tested now s = ground (
  arith,
  first_status-blocked (map (λ (c : ClassifiedFinding). c.status) (preflight_findings tested s)),
  any-map (status_eq Status.blocked) (λ (c : ClassifiedFinding). c.status)
      (preflight_findings tested s),
  any-blocking tested s,
)

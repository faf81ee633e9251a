-- ===== src/Installer/Workflow/Proofs/Prefix.antt =====
-- The completed stages as a prefix of the order: what is left of the checks on a loaded state when
-- the stages that are done are taken off the order.
use mathlib.Core.List.{◌++◌ as append}
use strix_halo_rocm_toolkit.Prelude.{
  ◌≡◌, refl, ap, sym, ◌∙◌, String, Bool, true, false, not, ◌&&◌, ◌||◌, some, List, [], ◌∷◌,
  if◌then◌else◌, Bool-cases, inl, inr, arith, ◌⊎◌,
}
use strix_halo_rocm_toolkit.Installer.Stages.{
  InstallStage, complete, stage_eq, stage_eq_refl, stage_eq_sound,
}
use strix_halo_rocm_toolkit.Installer.Models.{Completed, is_completed, set_digest}
use strix_halo_rocm_toolkit.Installer.Workflow.Transition.{
  stage_in, belongs, is_prefix, next_incomplete, or_complete,
}
use strix_halo_rocm_toolkit.Installer.Workflow.Stage.{following}

abbrev pub all_done : List InstallStage → Completed → Bool
all_done [] c = true
all_done (s ∷ ss) c = is_completed s c && all_done ss c

abbrev pub none_done : List InstallStage → Completed → Bool
none_done [] c = true
none_done (s ∷ ss) c = not (is_completed s c) && none_done ss c

-- No stage stands twice in the list.
abbrev pub distinct : List InstallStage → Bool
distinct [] = true
distinct (s ∷ ss) = not (stage_in s ss) && distinct ss

-- The list is empty or its last stage is `complete`.
abbrev pub ends_complete : List InstallStage → Bool
ends_complete [] = true
ends_complete (s ∷ []) = stage_eq s complete
ends_complete (s ∷ t ∷ ss) = ends_complete (t ∷ ss)

pub is_prefix-append :
    (d r : List InstallStage) (c : Completed)
    → all_done d c ≡ true
    → is_prefix false (append d r) c ≡ is_prefix false r c
is_prefix-append [] r c h = refl
is_prefix-append (s ∷ d) r c h =
    let ih = is_prefix-append d r c in
    elim (Bool-cases (is_completed s c)) [ inl e ↦ grind arith | inr e ↦ grind arith ]

pub is_prefix-none_done :
    (r : List InstallStage) (c : Completed) → is_prefix true r c ≡ none_done r c
is_prefix-none_done [] c = refl
is_prefix-none_done (s ∷ r) c = ap (λ b. not (is_completed s c) && b) (is_prefix-none_done r c)

pub next_incomplete-append :
    (d r : List InstallStage) (c : Completed)
    → all_done d c ≡ true
    → next_incomplete (append d r) c ≡ next_incomplete r c
next_incomplete-append [] r c h = refl
next_incomplete-append (s ∷ d) r c h =
    let ih = next_incomplete-append d r c in
    elim (Bool-cases (is_completed s c)) [ inl e ↦ grind arith | inr e ↦ grind arith ]

or_absorb : (b x : Bool) → (if b then true else x) ≡ (b || (if b then true else x))
or_absorb true x = refl
or_absorb false x = refl

or_swap : (a b x y : Bool) → y ≡ (a || x) → (if b then true else y) ≡ (a || (if b then true else x))
or_swap true true x y h = refl
or_swap true false x y h = h
or_swap false b x y h = ap (λ z. if b then true else z) h

module _ (s t : InstallStage) (digest : String) where
  completed_in :
      (u : InstallStage) (e : String) (c : Completed) (b : Bool)
      → stage_eq t u ≡ b
      → is_completed s (set_digest t digest c) ≡ (stage_eq s t || is_completed s c)
      → is_completed s (if b then (u, digest) ∷ c else (u, e) ∷ set_digest t digest c)
        ≡ (stage_eq s t || is_completed s ((u, e) ∷ c))
  completed_in u e c true same ih =
      or_absorb (stage_eq s u) (is_completed s c)
      ∙ ap (λ v. stage_eq s v || is_completed s ((u, e) ∷ c)) (sym (stage_eq_sound t u same))
  completed_in u e c false _ ih =
      or_swap (stage_eq s t) (stage_eq s u) (is_completed s c)
        (is_completed s (set_digest t digest c)) ih

  pub is_completed-set_digest :
      (c : Completed) → is_completed s (set_digest t digest c) ≡ (stage_eq s t || is_completed s c)
  is_completed-set_digest [] = if_or (stage_eq s t)
    where
      if_or : (b : Bool) → (if b then true else false) ≡ (b || false)
      if_or true = refl
      if_or false = refl
  is_completed-set_digest ((u, e) ∷ c) =
      completed_in u e c (stage_eq t u) refl (is_completed-set_digest c)

stage_eq_sym : (s t : InstallStage) → stage_eq s t ≡ true → stage_eq t s ≡ true
stage_eq_sym s t h = ap (λ u. stage_eq u s) (sym (stage_eq_sound s t h)) ∙ stage_eq_refl s

or_intro : (a b : Bool) → b ≡ true → (a || b) ≡ true
or_intro true b h = refl
or_intro false b h = h

pub and_parts : (a b : Bool) → (a && b) ≡ true → (a ≡ true) × (b ≡ true)
and_parts true b h = (refl, h)
and_parts false b h = ground arith

pub and_both : (a b : Bool) → a ≡ true → b ≡ true → (a && b) ≡ true
and_both a b h k = rw h k

pub not_parts : (a : Bool) → not a ≡ true → a ≡ false
not_parts true h = ground arith
not_parts false h = refl

or_parts : (a b : Bool) → (a || b) ≡ false → (a ≡ false) × (b ≡ false)
or_parts true b h = ground arith
or_parts false b h = (refl, h)

-- Completing one more stage undoes none.
pub all_done-set_digest :
    (d : List InstallStage) (t : InstallStage) (digest : String) (c : Completed)
    → all_done d c ≡ true
    → all_done d (set_digest t digest c) ≡ true
all_done-set_digest [] t digest c h = refl
all_done-set_digest (s ∷ d) t digest c h =
    let parts = and_parts (is_completed s c) (all_done d c) h in
    and_both (is_completed s (set_digest t digest c)) (all_done d (set_digest t digest c))
      (is_completed-set_digest s t digest c ∙ or_intro (stage_eq s t) (is_completed s c) parts.0)
      (all_done-set_digest d t digest c parts.1)

not_completed :
    (s t : InstallStage) (digest : String) (c : Completed) (ss : List InstallStage)
    → stage_in t (s ∷ ss) ≡ false
    → is_completed s c ≡ false
    → not (is_completed s (set_digest t digest c)) ≡ true
not_completed s t digest c ss out h =
    ap not (is_completed-set_digest s t digest c)
    ∙ ap (λ b. not (stage_eq s t || b)) h
    ∙ ap (λ b. not (b || false)) (differ (Bool-cases (stage_eq s t)))
  where
    differ : ((stage_eq s t ≡ true) ⊎ (stage_eq s t ≡ false)) → stage_eq s t ≡ false
    differ (inl e) =
        let f = (or_parts (stage_eq t s) (stage_in t ss) out).0 in let g = stage_eq_sym s t e in cc
    differ (inr e) = e

pub none_done-set_digest :
    (r : List InstallStage) (t : InstallStage) (digest : String) (c : Completed)
    → stage_in t r ≡ false
    → none_done r c ≡ true
    → none_done r (set_digest t digest c) ≡ true
none_done-set_digest [] t digest c out h = refl
none_done-set_digest (s ∷ r) t digest c out h =
    let parts = and_parts (not (is_completed s c)) (none_done r c) h in
    and_both (not (is_completed s (set_digest t digest c))) (none_done r (set_digest t digest c))
      (not_completed s t digest c r out (not_parts (is_completed s c) parts.0))
      (none_done-set_digest r t digest c (or_parts (stage_eq t s) (stage_in t r) out).1 parts.1)

pub belongs-set_digest :
    (order : List InstallStage) (t : InstallStage) (digest : String) (c : Completed)
    → stage_in t order ≡ true
    → belongs order c ≡ true
    → belongs order (set_digest t digest c) ≡ true
belongs-set_digest order t digest [] i h = and_both (stage_in t order) true i refl
belongs-set_digest order t digest ((u, e) ∷ c) i h =
    let parts = and_parts (stage_in u order) (belongs order c) h in
    step (stage_eq t u) (
      and_both (stage_in u order) (belongs order (set_digest t digest c)) parts.0
        (belongs-set_digest order t digest c i parts.1))
  where
    step :
        (b : Bool)
        → belongs order ((u, e) ∷ set_digest t digest c) ≡ true
        → belongs order (if b then (u, digest) ∷ c else (u, e) ∷ set_digest t digest c) ≡ true
    step true rest = h
    step false rest = rest

-- With nothing done of what is left, it is a prefix, and its first stage is the next.
pub is_prefix-none :
    (r : List InstallStage) (c : Completed) → none_done r c ≡ true → is_prefix false r c ≡ true
is_prefix-none [] c h = refl
is_prefix-none (s ∷ r) c h =
    let parts = and_parts (not (is_completed s c)) (none_done r c) h in
    ap (λ b. is_prefix b r c) parts.0 ∙ is_prefix-none_done r c ∙ parts.1

pub next_incomplete-none :
    (s : InstallStage) (r : List InstallStage) (c : Completed)
    → none_done r c ≡ true
    → ends_complete (s ∷ r) ≡ true
    → or_complete (next_incomplete r c) ≡ following s r
next_incomplete-none s [] c h e = sym (stage_eq_sound s complete e)
next_incomplete-none s (t ∷ r) c h e =
    let parts = and_parts (not (is_completed t c)) (none_done r c) h in
    ap (λ b. or_complete (if b then next_incomplete r c else some t))
      (not_parts (is_completed t c) parts.0)

pub stage_in-append :
    (d r : List InstallStage) (s : InstallStage) → stage_in s (append d (s ∷ r)) ≡ true
stage_in-append [] r s = ap (λ b. b || stage_in s r) (stage_eq_refl s)
stage_in-append (t ∷ d) r s =
    or_intro (stage_eq s t) (stage_in s (append d (s ∷ r))) (stage_in-append d r s)

pub all_done-snoc :
    (d : List InstallStage) (s : InstallStage) (c : Completed)
    → all_done d c ≡ true
    → is_completed s c ≡ true
    → all_done (append d (s ∷ [])) c ≡ true
all_done-snoc [] s c h k = and_both (is_completed s c) true k refl
all_done-snoc (t ∷ d) s c h k =
    let parts = and_parts (is_completed t c) (all_done d c) h in
    and_both (is_completed t c) (all_done (append d (s ∷ [])) c) parts.0
      (all_done-snoc d s c parts.1 k)

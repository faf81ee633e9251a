-- ===== src/Installer/Registry/Identity.antt =====
-- Which identity a registry candidate can have, and from which source it is.
use text.Mathlib.Text.{starts_with}
use mathlib.Core.Path.{subst}
use strix_halo_rocm_toolkit.Prelude.{
  String, Bool, true, false, ◌≡◌, ◌≢◌, refl, ap, ◌⊎◌, inl, inr, Option, none, some, List, [], ◌∷◌,
  All, arith, lookup, str_eq, eq_iff, ◌&&◌, ◌||◌, not,
}
use strix_halo_rocm_toolkit.Results.{ok, or_raise, Gives}
use strix_halo_rocm_toolkit.Results.Known.{Gives-known, Gives-bind, Gives-ok, Gives-err, Gives-if}
use strix_halo_rocm_toolkit.Installer.Models.{ReleaseImage, StableRelease}
use strix_halo_rocm_toolkit.Installer.Registry.{
  RegistryPolicy, RegistryCandidate, RegistryChoice, candidate_of, candidates_from,
  registry_candidates, prepend, registry_choice, is_auto, choice_value, RegistrySource,
}

-- Two images that differ in the repository only: the digests that pin the content are the same.
abbrev pub SameContent : ReleaseImage → ReleaseImage → Type 0
SameContent a b =
    (a.manifest_digest ≡ b.manifest_digest)
    × (a.config_digest ≡ b.config_digest)
    × (a.artifact_digests ≡ b.artifact_digests)

-- A release that may be pulled in place of another.
abbrev pub SameRelease : StableRelease → StableRelease → Type 0
SameRelease a b =
    (a.release_id ≡ b.release_id)
    × (a.source_revision ≡ b.source_revision)
    × SameContent a.base b.base
    × SameContent a.torch b.torch

-- The first release with the repositories of the second.
abbrev pub restored : StableRelease → StableRelease → StableRelease
restored a b = record a {
  base = record (a.base) { image = b.base.image };
  torch = record (a.torch) { image = b.torch.image };
}

-- The release names the repositories that the policy lists for `ghcr`.
abbrev pub IsCanonical : RegistryPolicy → StableRelease → Type 0
IsCanonical policy release =
    (canonical : RegistrySource) × (lookup "ghcr" policy.sources ≡ some canonical)
    × (release.base.image ≡ canonical.base_repository)
    × (release.torch.image ≡ canonical.torch_repository)

-- The repositories of a candidate: those of the release itself, below ghcr.io, or those of the source,
-- for a canonical release.
abbrev pub UsesSource :
    RegistryPolicy → StableRelease → String → RegistrySource → RegistryCandidate → Type 0
UsesSource policy release name source c =
    ((name ≡ "ghcr")
      × (c.release ≡ release)
      × (starts_with release.base.image "ghcr.io/" ≡ true)
      × (starts_with release.torch.image "ghcr.io/" ≡ true))
    ⊎ ((name ≢ "ghcr")
        × (c.release.base.image ≡ source.base_repository)
        × (c.release.torch.image ≡ source.torch_repository)
        × IsCanonical policy release)

-- A candidate from the source that the policy lists under the name: but for its repositories it is the
-- release.
abbrev pub IsFrom : RegistryPolicy → StableRelease → String → RegistryCandidate → Type 0
IsFrom policy release name c =
    (source : RegistrySource) × (lookup name policy.sources ≡ some source)
    × (c.name ≡ source.name)
    × (c.label ≡ source.label)
    × (restored c.release release ≡ release)
    × UsesSource policy release name source c

abbrev pub IsReplica : RegistryPolicy → StableRelease → RegistryCandidate → Type 0
IsReplica policy release c = (name : String) × IsFrom policy release name c

pub IsReplica-SameRelease :
    (policy : RegistryPolicy) (release : StableRelease) (c : RegistryCandidate)
    → IsReplica policy release c
    → SameRelease c.release release
IsReplica-SameRelease policy release c (_, (_, _, _, _, same, _)) = (
  ap (λ (r : StableRelease). r.release_id) same,
  ap (λ (r : StableRelease). r.source_revision) same,
  (
    ap (λ (r : StableRelease). r.base.manifest_digest) same,
    ap (λ (r : StableRelease). r.base.config_digest) same,
    ap (λ (r : StableRelease). r.base.artifact_digests) same,
  ),
  (
    ap (λ (r : StableRelease). r.torch.manifest_digest) same,
    ap (λ (r : StableRelease). r.torch.config_digest) same,
    ap (λ (r : StableRelease). r.torch.artifact_digests) same,
  ),
)

or_raise-ok : {E A : Type 0} (o : Option A) (e : E) {a : A} → or_raise o e ≡ ok a → o ≡ some a
or_raise-ok none e h = cc
or_raise-ok (some a) e h = cc

module _ (policy : RegistryPolicy) (release : StableRelease) (selected : RegistryChoice) where
  -- Nothing, with the choice of `auto`, or a candidate.
  abbrev IsFound : String → Option RegistryCandidate → Type 0
  IsFound name found =
      ((found ≡ none) × (is_auto selected ≡ true))
      ⊎ ((c : RegistryCandidate) × (found ≡ some c) × IsFrom policy release name c)

  candidate_of-IsFound :
      (m : Bool) (name : String)
      → (m ≡ true → IsCanonical policy release)
      → Gives (IsFound name) (candidate_of policy release selected m name)
  unfolding candidate_of
  candidate_of-IsFound m name canonical = Gives-known (λ source e.
      let listed : lookup name policy.sources ≡ some source = or_raise-ok _ _ e in
      Gives-if (str_eq name "ghcr") _ _
        (λ here.
          Gives-if
            (not (starts_with release.base.image "ghcr.io/")
              || not (starts_with release.torch.image "ghcr.io/"))
            _ _ (λ _. Gives-err)
            (λ below. Gives-ok (
              inr (
                _,
                refl,
                (
                  source,
                  listed,
                  refl,
                  refl,
                  refl,
                  inl (ground (arith, eq_iff name "ghcr"), refl, ground arith, ground arith),
                ),
              ))))
        (λ other.
          Gives-if (not m) _ _
            (λ _.
              Gives-if (is_auto selected) _ _ (λ auto_. Gives-ok (inl (refl, auto_)))
                (λ _. Gives-err))
            (λ matches. Gives-ok (
              inr (
                _,
                refl,
                (
                  source,
                  listed,
                  refl,
                  refl,
                  refl,
                  inr (
                    (λ same. ground (arith, eq_iff name "ghcr")),
                    refl,
                    refl,
                    canonical (ground arith),
                  ),
                ),
              )))))

  candidates_from-IsReplica :
      (m : Bool) (names : List String)
      → (m ≡ true → IsCanonical policy release)
      → Gives (All (IsReplica policy release)) (candidates_from policy release selected m names)
  unfolding candidates_from
  candidates_from-IsReplica m [] canonical = Gives-ok tt
  candidates_from-IsReplica m (name ∷ names) canonical =
      Gives-bind (candidate_of-IsFound m name canonical) (λ found is.
        Gives-bind (candidates_from-IsReplica m names canonical)
          (λ rest all. Gives-ok (joined found rest is all)))
    where
      joined :
          (found : Option RegistryCandidate) (rest : List RegistryCandidate)
          → IsFound name found
          → All (IsReplica policy release) rest
          → All (IsReplica policy release) (prepend found rest)
      joined none rest is all = all
      joined (some c) rest (inl (e, _)) all = absurd (ground arith)
      joined (some c) rest (inr (d, e, from)) all =
          let same : d ≡ c = cc in ((name, subst (IsFrom policy release name) same from), all)

  candidates_from-IsFrom :
      (m : Bool) (name : String)
      → (m ≡ true → IsCanonical policy release)
      → is_auto selected ≡ false
      → Gives
          (λ cs. (c : RegistryCandidate) × (cs ≡ c ∷ []) × IsFrom policy release name c)
          (candidates_from policy release selected m (name ∷ []))
  unfolding candidates_from
  candidates_from-IsFrom m name canonical explicit =
      Gives-bind (candidate_of-IsFound m name canonical) (λ found is.
        Gives-bind {P = λ rest. rest ≡ []} (Gives-ok refl)
          (λ rest nothing. Gives-ok (single found rest nothing is)))
    where
      single :
          (found : Option RegistryCandidate) (rest : List RegistryCandidate)
          → rest ≡ []
          → IsFound name found
          → (c : RegistryCandidate) × (prepend found rest ≡ c ∷ []) × IsFrom policy release name c
      single found rest nothing (inl (e, auto_)) = absurd (ground arith)
      single found rest nothing (inr (c, e, from)) = (c, rw (e, nothing), from)

choice-is :
    (choice : String) {selected : RegistryChoice}
    → registry_choice choice ≡ ok selected
    → choice_value selected ≡ choice
unfolding registry_choice
choice-is choice h = ground (arith, eq_iff choice "auto", eq_iff choice "swr", eq_iff choice "ghcr")

auto-is :
    (choice : String) {selected : RegistryChoice}
    → registry_choice choice ≡ ok selected
    → choice ≢ "auto"
    → is_auto selected ≡ false
unfolding registry_choice
auto-is choice h other =
    ground (arith, eq_iff choice "auto", eq_iff choice "swr", eq_iff choice "ghcr")

IsCanonical-matches :
    (policy : RegistryPolicy) (release : StableRelease) (canonical : RegistrySource)
    → lookup "ghcr" policy.sources ≡ some canonical
    → (str_eq release.base.image canonical.base_repository
        && str_eq release.torch.image canonical.torch_repository)
      ≡ true
    → IsCanonical policy release
IsCanonical-matches policy release canonical e h = (
  canonical,
  e,
  ground (arith, eq_iff release.base.image canonical.base_repository),
  ground (arith, eq_iff release.torch.image canonical.torch_repository),
)

registry_candidates-Gives :
    (release : StableRelease) (choice : String) (policy : RegistryPolicy)
    → Gives (All (IsReplica policy release)) (registry_candidates release choice policy)
unfolding registry_candidates
registry_candidates-Gives release choice policy = Gives-known (λ selected _.
    Gives-known (λ canonical e.
      candidates_from-IsReplica policy release selected _ _
        (IsCanonical-matches policy release canonical (or_raise-ok _ _ e))))

registry_candidates_explicit-Gives :
    (release : StableRelease) (choice : String) (policy : RegistryPolicy)
    → choice ≢ "auto"
    → Gives
        (λ cs. (c : RegistryCandidate) × (cs ≡ c ∷ []) × IsFrom policy release choice c)
        (registry_candidates release choice policy)
unfolding registry_candidates
registry_candidates_explicit-Gives release choice policy other = Gives-known (λ selected chosen.
    Gives-known (λ canonical e.
      let explicit : is_auto selected ≡ false = auto-is choice chosen other in
      rw (explicit, choice-is choice chosen)
        (candidates_from-IsFrom policy release selected _ choice
          (IsCanonical-matches policy release canonical (or_raise-ok _ _ e)) explicit)))

-- Every candidate comes from a source that the policy lists and bears its name and label. With its two
-- repositories set back it is the stable release, in every field. Its repositories are the release's own,
-- below ghcr.io, when the source is `ghcr`; otherwise they are those of the source, and the release
-- names the repositories that the policy lists for `ghcr`.
pub registry_candidates-IsReplica :
    (release : StableRelease) (choice : String) (policy : RegistryPolicy)
    {cs : List RegistryCandidate}
    → registry_candidates release choice policy ≡ ok cs
    → All (IsReplica policy release) cs
registry_candidates-IsReplica release choice policy =
    (registry_candidates-Gives release choice policy).on_ok

-- An explicit choice of a registry never falls back to another one: when it yields candidates there is
-- exactly one, from the source that the policy lists under the chosen name, with the release's own
-- repositories for `ghcr` and with the repositories of that source for any other.
pub registry_candidates_explicit :
    (release : StableRelease) (choice : String) (policy : RegistryPolicy)
    {cs : List RegistryCandidate}
    → choice ≢ "auto"
    → registry_candidates release choice policy ≡ ok cs
    → (c : RegistryCandidate) × (cs ≡ c ∷ []) × IsFrom policy release choice c
registry_candidates_explicit release choice policy other =
    (registry_candidates_explicit-Gives release choice policy other).on_ok

-- ===== src/Installer/Manifest/Pinned.antt =====
-- What a manifest that loads pins.
use strix_halo_rocm_toolkit.Prelude.{
  ◌≡◌, refl, ap, ◌≢◌, String, Bool, true, Option, some, List, [], ◌∷◌, map, All, Dict, lookup,
  eq_iff, arith,
}
use strix_halo_rocm_toolkit.Results.{ok, Gives}
use strix_halo_rocm_toolkit.Results.Known.{
  Gives-ok, Gives-known, Gives-bind, Gives-check, Gives-need,
}
use strix_halo_rocm_toolkit.Json.{Json}
use strix_halo_rocm_toolkit.Installer.Models.{ReleaseImage, StableRelease}
use strix_halo_rocm_toolkit.Installer.Manifest.{
  is_digest, require_digest, require_exact, parse_artifacts, parse_image, base_artifact_keys,
  torch_artifact_keys, load_stable_release,
}

abbrev pub IsDigest : String → Type 0
IsDigest s = is_digest s ≡ true

-- The image has exactly the artifacts of its kind, all its digests are well formed, and its manifest is
-- told apart from its config.
abbrev pub IsPinnedImage : List String → ReleaseImage → Type 0
IsPinnedImage keys image =
    IsDigest image.manifest_digest
    × IsDigest image.config_digest
    × (image.manifest_digest ≢ image.config_digest)
    × (map (λ (e : String × String). e.0) image.artifact_digests ≡ keys)
    × All (λ (e : String × String). IsDigest e.1) image.artifact_digests

abbrev pub IsPinned : StableRelease → Type 0
IsPinned r =
    IsPinnedImage base_artifact_keys r.base
    × IsPinnedImage torch_artifact_keys r.torch
    × (lookup "profile" r.torch.artifact_digests ≡ some r.torch_profile_digest)
    × (r.gpu_arch ≡ "gfx1151")
    × (r.rocm_version ≡ "7.2.1")
    × (r.python_version ≡ "3.12")
    × (r.torch_version ≡ "2.9.1")

require_digest-IsDigest :
    (values : Dict Json) (name : String) → Gives IsDigest (require_digest values name)
unfolding require_digest
require_digest-IsDigest values name =
    Gives-known (λ s _. Gives-check _ (λ h. Gives-ok (ground arith)))

require_exact-same :
    (values : Dict Json) (name expected : String)
    → Gives (λ s. s ≡ expected) (require_exact values name expected)
unfolding require_exact
require_exact-same values name expected =
    Gives-known (λ s _. Gives-check _ (λ h. Gives-ok (ground (arith, eq_iff s expected))))

parse_artifacts-Gives :
    (artifacts : Dict Json) (ks : List String)
    → Gives
        (λ d.
          (map (λ (e : String × String). e.0) d ≡ ks)
          × All (λ (e : String × String). IsDigest e.1) d)
        (parse_artifacts artifacts ks)
unfolding parse_artifacts
parse_artifacts-Gives artifacts [] = Gives-ok (refl, tt)
parse_artifacts-Gives artifacts (k ∷ ks) =
    Gives-bind (require_digest-IsDigest artifacts k) (λ digest is.
      Gives-bind (parse_artifacts-Gives artifacts ks)
        (λ rest h. Gives-ok (ap (λ l. k ∷ l) h.0, (is, h.1))))

parse_image-IsPinnedImage :
    (raw : Option Json) (keys : List String) → Gives (IsPinnedImage keys) (parse_image raw keys)
unfolding parse_image
parse_image-IsPinnedImage raw keys = Gives-need _ (λ values _. Gives-check _ (λ _.
    Gives-check _ (λ _. Gives-known (λ image _. Gives-check _ (λ _.
      Gives-bind (require_digest-IsDigest values "manifest_digest") (λ manifest m.
        Gives-bind (require_digest-IsDigest values "config_digest") (λ config c.
          Gives-check _ (λ apart. Gives-need _ (λ artifacts _. Gives-check _ (λ _.
            Gives-check _ (λ _. Gives-bind (parse_artifacts-Gives artifacts keys) (λ parsed p.
              Gives-ok (m, c, λ e. ground (arith, eq_iff manifest config), p.0, p.1)))))))))))))

load_stable_release-Gives :
    (is_canonical_utc : String → Bool) (file : Json)
    → Gives IsPinned (load_stable_release is_canonical_utc file)
unfolding load_stable_release
load_stable_release-Gives is_canonical_utc file = Gives-need _ (λ payload _. Gives-check _ (λ _.
    Gives-check _ (λ _. Gives-check _ (λ _. Gives-known (λ release_id _. Gives-check _ (λ _.
      Gives-known (λ repository _. Gives-check _ (λ _. Gives-known (λ revision _.
        Gives-check _ (λ _. Gives-known (λ profile _. Gives-known (λ report _.
          Gives-known (λ sbom _.
            Gives-bind (require_exact-same payload "gpu_arch" "gfx1151") (λ gpu g.
              Gives-bind (require_exact-same payload "rocm_version" "7.2.1") (λ rocm v.
                Gives-bind (require_exact-same payload "python_version" "3.12") (λ python y.
                  Gives-bind (require_exact-same payload "torch_version" "2.9.1") (λ torch_v t.
                    Gives-known (λ profile_id _. Gives-known (λ torch_profile _.
                      Gives-known (λ adapters _. Gives-known (λ published _. Gives-check _ (λ _.
                        Gives-bind
                          (parse_image-IsPinnedImage (lookup "base" payload) base_artifact_keys)
                          (λ base b.
                            Gives-bind
                              (parse_image-IsPinnedImage (lookup "torch" payload)
                                torch_artifact_keys)
                              (λ torch o. Gives-need _ (λ embedded known. Gives-check _ (λ same.
                                Gives-ok (
                                  b,
                                  o,
                                  ground (arith, eq_iff torch_profile embedded),
                                  g,
                                  v,
                                  y,
                                  t,
                                )))))))))))))))))))))))))))

-- A manifest that loads pins its images: all their digests are well formed, manifest and config digests
-- differ, each image has exactly the artifacts of its kind, the profile of the Torch image is the one
-- that the release names, and the GPU architecture and the versions are the supported ones.
pub load_stable_release-IsPinned :
    (is_canonical_utc : String → Bool) (file : Json) {r : StableRelease}
    → load_stable_release is_canonical_utc file ≡ ok r
    → IsPinned r
load_stable_release-IsPinned is_canonical_utc file =
    (load_stable_release-Gives is_canonical_utc file).on_ok

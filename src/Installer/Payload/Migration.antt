-- ===== src/Installer/Payload/Migration.antt =====
-- What the migration keeps of an older payload, and what it restarts.
use mathlib.Core.Path.{subst}
use mathlib.Core.Bool.{true≢false}
use strix_halo_rocm_toolkit.Prelude.{
  ◌≡◌, refl, ap, sym, ◌∙◌, ◌⊎◌, inl, inr, ◌≢◌, ℕ, ◌==◌, String, Bool, true, false, Option, none,
  some, List, [], ◌∷◌, All, Dict, lookup, has_key, insert, lookup-insert, str_eq, text_in, eq_iff,
  on_option, if◌then◌else◌, arith,
}
use strix_halo_rocm_toolkit.Results.{ok, Gives}
use strix_halo_rocm_toolkit.Results.Known.{
  Gives-branch, Gives-check, Gives-need, Gives-ok, Gives-err, Gives-weaken,
}
use strix_halo_rocm_toolkit.Json.{
  Json, number, boolean, text, object, array, null, no_fields, no_items, text_is,
}
use strix_halo_rocm_toolkit.Installer.Payload.{
  as_number, update, audit_reset, restart_full_host_audit, is_full, kernel_defaults,
  migrate_schema_two, host_defaults, migrate_early, migrate_two, migrate_payload,
}

-- The last value that an update gives a key.
abbrev last_of : String → Dict Json → Option Json
last_of j [] = none
last_of j ((k, v) ∷ e) = on_option (last_of j e) (if str_eq j k then some v else none) some

lookup-update :
    (j : String) (p e : Dict Json)
    → lookup j (update p e) ≡ on_option (last_of j e) (lookup j p) some
lookup-update j p [] = refl
lookup-update j p ((k, v) ∷ e) =
    ground (arith, lookup-update j (insert k v p) e, lookup-insert j k v p)

has_key-lookup : (k : String) (v : Json) (d : Dict Json) → lookup k d ≡ some v → has_key k d ≡ true
has_key-lookup k v [] h = ground arith
has_key-lookup k v ((j, w) ∷ d) h = ground (arith, has_key-lookup k v d)

-- The values of the host's plans and reboots, and of both verifications.
abbrev pub forgotten_keys : List String
forgotten_keys =
    "reboot_boot_id" ∷ "kernel_plan_digest" ∷ "kernel_reboot_boot_id" ∷ "recovery_kernel"
    ∷ "kernel_verification_status" ∷ "kernel_kernel" ∷ "host_plan_digest" ∷ "host_adapter_id"
    ∷ "host_verification_status" ∷ "host_kernel" ∷ []

-- What was seen of the display manager, and what the operator agreed to.
abbrev pub revoked_keys : List String
revoked_keys =
    "display_manager_was_loaded" ∷ "display_manager_was_active" ∷ "docker_group_accepted" ∷ []

abbrev pub HasValue : Dict Json → Json → String → Type 0
HasValue q v k = lookup k q ≡ some v

-- The host audit starts again: the first stage is the current one, no stage is completed, the host's
-- plans, reboots and verifications are forgotten, no consent is left, and there are no findings.
abbrev pub Restarted : Dict Json → Type 0
Restarted q =
    HasValue q (number 3) "schema_version"
    × HasValue q (text "BOOTSTRAP") "current_stage"
    × HasValue q (object no_fields) "completed_stage_input_digests"
    × All (HasValue q null) forgotten_keys
    × All (HasValue q (boolean false)) revoked_keys
    × All (HasValue q (array no_items))
        ("kernel_verification_findings" ∷ "host_verification_findings" ∷ [])

HasValue-update :
    (p e : Dict Json) {v : Json} (k : String) → last_of k e ≡ some v → HasValue (update p e) v k
HasValue-update p e k h = lookup-update k p e ∙ ap (λ o. on_option o (lookup k p) some) h

All-HasValue-update :
    (p e : Dict Json) (v : Json) (ks : List String)
    → All (λ k. last_of k e ≡ some v) ks
    → All (HasValue (update p e) v) ks
All-HasValue-update p e v [] a = tt
All-HasValue-update p e v (k ∷ ks) a = (HasValue-update p e k a.0, All-HasValue-update p e v ks a.1)

Restarted-update :
    (p : Dict Json) → lookup "schema_version" p ≡ some (number 3) → Restarted (update p audit_reset)
Restarted-update p h = (
  lookup-update "schema_version" p audit_reset ∙ h,
  HasValue-update p audit_reset "current_stage" refl,
  HasValue-update p audit_reset "completed_stage_input_digests" refl,
  All-HasValue-update p audit_reset null forgotten_keys
      (refl, (refl, (refl, (refl, (refl, (refl, (refl, (refl, (refl, (refl, tt)))))))))),
  All-HasValue-update p audit_reset (boolean false) revoked_keys (refl, (refl, (refl, tt))),
  All-HasValue-update p audit_reset (array no_items)
      ("kernel_verification_findings" ∷ "host_verification_findings" ∷ []) (refl, (refl, tt)),
)

-- What a migration adds to a payload that is not restarted.
abbrev pub added_keys : List String
added_keys =
    "schema_version" ∷ "host_verification_status" ∷ "host_kernel" ∷ "host_verification_findings"
    ∷ "kernel_plan_digest" ∷ "kernel_reboot_boot_id" ∷ "recovery_kernel"
    ∷ "display_manager_was_loaded" ∷ "display_manager_was_active" ∷ "kernel_verification_status"
    ∷ "kernel_kernel" ∷ "kernel_verification_findings" ∷ []

abbrev pub SameElsewhere : Dict Json → Dict Json → Type 0
SameElsewhere p q = (k : String) → text_in k added_keys ≡ false → lookup k q ≡ lookup k p

insert-same :
    (k : String) (v : Json) (p : Dict Json)
    → text_in k added_keys ≡ true
    → SameElsewhere p (insert k v p)
insert-same k v p a j h = ground (arith, lookup-insert j k v p, eq_iff j k)

update-same :
    (p e : Dict Json)
    → All (λ (x : String × Json). text_in x.0 added_keys ≡ true) e
    → SameElsewhere p (update p e)
update-same p [] a k h = refl
update-same p ((j, v) ∷ e) a k h = update-same (insert j v p) e a.1 k h ∙ insert-same j v p a.0 k h

kernel_defaults-same : (p : Dict Json) → SameElsewhere p (update p kernel_defaults)
kernel_defaults-same p =
    update-same p kernel_defaults
      (refl, (refl, (refl, (refl, (refl, (refl, (refl, (refl, (refl, tt)))))))))

host_defaults-same : (p : Dict Json) → SameElsewhere p (update p host_defaults)
host_defaults-same p = update-same p host_defaults (refl, (refl, (refl, (refl, tt))))

is_full-same : (p q : Dict Json) → SameElsewhere p q → is_full q ≡ is_full p
is_full-same p q same = ap (λ o. text_is o "full") (same "mode" refl)

migrate_early-Restarts :
    (p : Dict Json)
    → lookup "schema_version" p ≡ some (number 3)
    → has_key "display_manager_was_loaded" p ≡ false
    → is_full p ≡ true
    → Gives Restarted (migrate_early p)
unfolding migrate_early restart_full_host_audit
migrate_early-Restarts p v early full =
    Gives-branch (λ h. absurd (true≢false (sym h ∙ early)))
      (λ _. Gives-check _ (λ _. Gives-check _ (λ _.
        Gives-branch
          (λ _. Gives-ok (
            Restarted-update (insert "display_manager_was_loaded" (boolean false) p)
              (lookup-insert "schema_version" "display_manager_was_loaded" (boolean false) p ∙ v)))
          (λ h. absurd (true≢false (sym full ∙ h))))))

-- A payload that has the key is left alone.
migrate_early-same :
    (p : Dict Json)
    → has_key "display_manager_was_loaded" p ≡ true
    → Gives (λ q. q ≡ p) (migrate_early p)
unfolding migrate_early
migrate_early-same p h = Gives-branch (λ _. Gives-ok refl) (λ k. absurd (true≢false (sym h ∙ k)))

migrate_schema_two-Restarted : (p : Dict Json) → is_full p ≡ true → Restarted (migrate_schema_two p)
unfolding migrate_schema_two restart_full_host_audit
migrate_schema_two-Restarted p full =
    rw full (
      Restarted-update (update p kernel_defaults)
        (lookup-update "schema_version" p kernel_defaults))

migrate_schema_two-same :
    (p : Dict Json) → is_full p ≡ false → SameElsewhere p (migrate_schema_two p)
unfolding migrate_schema_two
migrate_schema_two-same p other = rw other (kernel_defaults-same p)

migrate_schema_two-has_key :
    (p : Dict Json) → has_key "display_manager_was_loaded" (migrate_schema_two p) ≡ true
unfolding migrate_schema_two restart_full_host_audit
migrate_schema_two-has_key p = by_mode (is_full p)
  where
    has :
        (e : Dict Json)
        → last_of "display_manager_was_loaded" e ≡ some (boolean false)
        → (q : Dict Json) → has_key "display_manager_was_loaded" (update q e) ≡ true
    has e l q = has_key-lookup "display_manager_was_loaded" (boolean false) (update q e) (
        lookup-update "display_manager_was_loaded" q e
        ∙ ap (λ o. on_option o (lookup "display_manager_was_loaded" q) some) l)

    by_mode :
        (b : Bool)
        → has_key "display_manager_was_loaded"
            (if b then update (update p kernel_defaults) audit_reset else update p kernel_defaults)
          ≡ true
    by_mode true = has audit_reset refl (update p kernel_defaults)
    by_mode false = has kernel_defaults refl p

migrate_two-Gives :
    (p : Dict Json) {Q : Dict Json → Type 0} → Q (migrate_schema_two p) → Gives Q (migrate_two p)
unfolding migrate_two
migrate_two-Gives p {Q} q = Gives-check _ (λ _. Gives-check _ (λ _.
    Gives-weaken (λ r e. subst Q (sym e) q)
      (migrate_early-same (migrate_schema_two p) (migrate_schema_two-has_key p))))

-- What a payload that an older toolkit wrote becomes: schema 1, schema 2, or an early schema 3.
migrate_payload-Gives :
    (p : Dict Json) {Q : Dict Json → Type 0}
    → Q (migrate_schema_two (update p host_defaults))
    → Q (migrate_schema_two p)
    → (lookup "schema_version" p ≡ some (number 3) → Gives Q (migrate_early p))
    → Gives Q (migrate_payload p)
unfolding migrate_payload
migrate_payload-Gives p one two three = Gives-need _ (λ n known.
    Gives-branch
      (λ _.
        Gives-check _ (λ _. Gives-check _ (λ _. migrate_two-Gives (update p host_defaults) one)))
      (λ _.
        Gives-branch (λ _. migrate_two-Gives p two)
          (λ _. Gives-branch (λ h. three (version n known h)) (λ _. Gives-err))))
  where
    version :
        (n : ℕ)
        → on_option (lookup "schema_version" p) none as_number ≡ some n
        → (n == 3) ≡ true
        → lookup "schema_version" p ≡ some (number 3)
    version n k h = ground arith

-- A payload of an older schema, or of an early form of schema 3, of a full installation: the migrated
-- payload has schema 3, the first stage is its current one and no stage is completed, everything of the
-- host's plans, reboots and verifications is null, the consent to the Docker group and what was seen of
-- the display manager are false, and both lists of findings are empty.
pub migrate_payload-Restarts :
    (p : Dict Json) {q : Dict Json}
    → is_full p ≡ true
    → (lookup "schema_version" p ≢ some (number 3))
      ⊎ (has_key "display_manager_was_loaded" p ≡ false)
    → migrate_payload p ≡ ok q
    → Restarted q
migrate_payload-Restarts p full old =
    (migrate_payload-Gives p {Q = Restarted}
      (migrate_schema_two-Restarted (update p host_defaults)
        (is_full-same p (update p host_defaults) (host_defaults-same p) ∙ full))
      (migrate_schema_two-Restarted p full)
      (λ three. migrate_early-Restarts p three (early three old) full)).on_ok
  where
    early :
        lookup "schema_version" p ≡ some (number 3)
        → (lookup "schema_version" p ≢ some (number 3))
          ⊎ (has_key "display_manager_was_loaded" p ≡ false)
        → has_key "display_manager_was_loaded" p ≡ false
    early three (inl n) = absurd (n three)
    early three (inr h) = h

migrate_early-SameElsewhere :
    (p : Dict Json) → is_full p ≡ false → Gives (SameElsewhere p) (migrate_early p)
unfolding migrate_early
migrate_early-SameElsewhere p other =
    Gives-branch (λ _. Gives-ok (λ k h. refl))
      (λ _. Gives-check _ (λ _. Gives-check _ (λ _.
        Gives-branch (λ h. absurd (true≢false (sym h ∙ other)))
          (λ _. Gives-ok (insert-same "display_manager_was_loaded" (boolean false) p refl)))))

-- A payload of a container installation keeps every value that the migration does not add: its stage,
-- its completed stages, the release, the images and the project.
pub migrate_payload-SameElsewhere :
    (p : Dict Json) {q : Dict Json}
    → is_full p ≡ false
    → migrate_payload p ≡ ok q
    → SameElsewhere p q
migrate_payload-SameElsewhere p other =
    (migrate_payload-Gives p
      (λ k h.
        migrate_schema_two-same (update p host_defaults)
          (is_full-same p (update p host_defaults) (host_defaults-same p) ∙ other) k h
        ∙ host_defaults-same p k h)
      (migrate_schema_two-same p other) (λ _. migrate_early-SameElsewhere p other)).on_ok

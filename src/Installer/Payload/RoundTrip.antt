-- ===== src/Installer/Payload/RoundTrip.antt =====
-- A valid state survives its payload.
use strix_halo_rocm_toolkit.Results.Known.{Gives-check}
use strix_halo_rocm_toolkit.Prelude.{
  ◌≡◌, refl, ap, ◌∙◌, String, Bool, Option, none, some, List, [], ◌∷◌, map, Dict, arith,
}
use strix_halo_rocm_toolkit.Results.{Result, ok, check, need, branch, ◌>>=◌, Gives}
use strix_halo_rocm_toolkit.Json.{
  Json, text, object, all_texts, items_of, list_of, fields_of, dict_of, cons_if,
}
use strix_halo_rocm_toolkit.Installer.Stages.{InstallMode, InstallStage, mode_value, stage_value}
use strix_halo_rocm_toolkit.Installer.Models.{InstallState, Completed}
use strix_halo_rocm_toolkit.Installer.Validation.{validate_state}
use strix_halo_rocm_toolkit.Installer.Payload.{
  migrate_payload, migrate_early, state_payload, optional_text, text_array, completed_fields,
  require_schema_keys, state_keys,
}
use strix_halo_rocm_toolkit.Installer.Payload.Decode.{
  both, as_mode, as_stage, as_optional_text, as_texts, completed_of, as_completed, get,
  decode_fields, decode_state,
}

as_optional_text-back : (o : Option String) → as_optional_text (optional_text o) ≡ some o
as_optional_text-back none = refl
as_optional_text-back (some s) = refl

list_of-items_of : (vs : List Json) → list_of (items_of vs) ≡ vs
list_of-items_of [] = refl
list_of-items_of (v ∷ vs) = ap (λ ws. v ∷ ws) (list_of-items_of vs)

dict_of-fields_of : (d : Dict Json) → dict_of (fields_of d) ≡ d
dict_of-fields_of [] = refl
dict_of-fields_of ((k, v) ∷ d) = ap (λ e. (k, v) ∷ e) (dict_of-fields_of d)

all_texts-map : (ss : List String) → all_texts (map text ss) ≡ some ss
all_texts-map [] = refl
all_texts-map (s ∷ ss) = ap (cons_if (some s)) (all_texts-map ss)

as_texts-back : (ss : List String) → as_texts (text_array ss) ≡ some ss
as_texts-back ss = ap all_texts (list_of-items_of (map text ss)) ∙ all_texts-map ss

as_mode-back : (m : InstallMode) → as_mode (text (mode_value m)) ≡ some m
as_mode-back InstallMode.full = refl
as_mode-back InstallMode.container = refl
as_mode-back InstallMode.doctor = refl

as_stage-back : (s : InstallStage) → as_stage (text (stage_value s)) ≡ some s
as_stage-back InstallStage.bootstrap = refl
as_stage-back InstallStage.host_preflight = refl
as_stage-back InstallStage.kernel_plan = refl
as_stage-back InstallStage.kernel_confirm = refl
as_stage-back InstallStage.kernel_apply = refl
as_stage-back InstallStage.kernel_reboot_pending = refl
as_stage-back InstallStage.kernel_verify = refl
as_stage-back InstallStage.host_plan = refl
as_stage-back InstallStage.host_confirm = refl
as_stage-back InstallStage.host_apply = refl
as_stage-back InstallStage.host_verify = refl
as_stage-back InstallStage.container_host_check = refl
as_stage-back InstallStage.release_resolve = refl
as_stage-back InstallStage.image_pull_or_build = refl
as_stage-back InstallStage.image_verify = refl
as_stage-back InstallStage.project_init = refl
as_stage-back InstallStage.project_verify = refl
as_stage-back InstallStage.complete = refl

completed_of-map : (c : Completed) → completed_of (completed_fields c) ≡ some c
completed_of-map [] = refl
completed_of-map ((s, d) ∷ c) =
    ap (λ o. cons_if (both o (some d)) (completed_of (completed_fields c))) (as_stage-back s)
    ∙ ap (cons_if (some (s, d))) (completed_of-map c)

as_completed-back :
    (c : Completed) → as_completed (object (fields_of (completed_fields c))) ≡ some c
as_completed-back c = ap completed_of (dict_of-fields_of (completed_fields c)) ∙ completed_of-map c

decode_fields-state_payload : (st : InstallState) → decode_fields (state_payload st) ≡ ok st
unfolding decode_fields state_payload get need ◌>>=◌
decode_fields-state_payload st =
    simp (as_optional_text-back, as_texts-back, as_mode-back, as_stage-back, as_completed-back)

validate_state-schema :
    (is_normalized : String → Bool) (st : InstallState)
    → Gives (λ _. st.schema_version ≡ 3) (validate_state is_normalized st)
unfolding validate_state
validate_state-schema is_normalized st = Gives-check _ (λ h. record { on_ok = λ _. ground arith })

migrate_payload-current :
    (st : InstallState)
    → st.schema_version ≡ 3
    → migrate_payload (state_payload st) ≡ ok (state_payload st)
unfolding migrate_payload migrate_early state_payload need branch
migrate_payload-current st h = rw h

has_keys :
    {B : Type 0} (st : InstallState) (r : Result String B)
    → require_schema_keys (state_payload st) state_keys r ≡ r
unfolding state_payload check
has_keys st r = refl

decode_state-current :
    (is_normalized : String → Bool) (st : InstallState)
    → st.schema_version ≡ 3
    → decode_state is_normalized (state_payload st) ≡ validate_state is_normalized st
unfolding decode_state ◌>>=◌
decode_state-current is_normalized st h =
    simp (migrate_payload-current st h, has_keys, decode_fields-state_payload)

-- The payload of a state that passes the checks is decoded to that state.
pub decode_state-state_payload :
    (is_normalized : String → Bool) (st : InstallState)
    → validate_state is_normalized st ≡ ok st
    → decode_state is_normalized (state_payload st) ≡ ok st
decode_state-state_payload is_normalized st valid =
    decode_state-current is_normalized st ((validate_state-schema is_normalized st).on_ok valid)
    ∙ valid

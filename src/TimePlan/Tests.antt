-- ===== src/TimePlan/Tests.antt =====
-- A definition with two cues, a command that starts a run, and a note.
use custd_sdk_go.Base.{
  reverse, ◌↔◌, ◌⊎◌, Option, Text, [], byte_len, codes, false, is_empty, none, refl, some, text_eq,
  trim_space, ℕ, ◌∷◌, ◌≡◌, ◌≤◌,
}
use mathlib.Core.List.{Perm}
use mathlib.Core.List.Perm
use custd_sdk_go.Base.Decimal.{format_int}
use custd_sdk_go.Base.Int.{pos, is_negative, exceeds}
use custd_sdk_go.Pattern.{time_plan_uuid_matches}
use custd_sdk_go.TimePlan.{
  Definition, validate_definition, validate_schema, cue_loop, validate_cue, out_of_range, same_bool,
  valid_severity, trigger_of, valid_basis,
}
use custd_sdk_go.TimePlan.Definitions.{IsDefinition, validate_definition_iff}
use custd_sdk_go.TimePlan.Request.{CommandRequest, validate_command, command_types, command_times}
use custd_sdk_go.TimePlan.Commands.{IsCommand, validate_command_iff}
use custd_sdk_go.TimePlan.Annotation.{AnnotationInput, validate_annotation}
use custd_sdk_go.TimePlan.Annotated.{IsShape, validate_annotation_iff}

abbrev two_cues : Definition
two_cues = record {
  horizon_ms = pos 60000;
  default_starts_at = [];
  default_ends_at = [];
  redistribution_mode = [];
  auto_advance = false;
  annotation_schema = none;
  threshold_cues =
      record { remaining_fraction_bps = none; remaining_ms = some (pos 5); severity = codes "info" }
      ∷ record {
        remaining_fraction_bps = some (pos 5);
        remaining_ms = none;
        severity = codes "critical";
      }
      ∷ [];
  blocks = [];
}

two_cues-valid : validate_definition two_cues ≡ none
unfolding validate_definition validate_schema cue_loop validate_cue out_of_range same_bool
    valid_severity trigger_of format_int valid_basis is_negative exceeds text_eq codes
two_cues-valid = refl

validate_definition_iff_example : (validate_definition two_cues ≡ none) ↔ IsDefinition two_cues
validate_definition_iff_example = validate_definition_iff two_cues

-- A parser that reads every text as time 0.
abbrev parse : Text → Option ℕ
parse s = some 0

abbrev start_run : CommandRequest
start_run = record {
  command_id = codes "0f8fad5b-d9cb-469f-a165-70867728950e";
  idempotency_key = codes "k1";
  expected_version = pos 3;
  type = codes "start_run";
  block_id = [];
  client_occurred_at = codes "2026-01-01T00:00:00Z";
  boundary_ends_at = [];
  scheduled_starts_at = [];
  scheduled_ends_at = [];
  start_policy = [];
  reason = [];
  supersedes_transition_uuid = [];
  corrected = none;
}

start_run-valid : validate_command parse (λ times. times) start_run ≡ none
unfolding validate_command time_plan_uuid_matches trim_space codes is_empty byte_len is_negative
    command_types text_eq
start_run-valid = refl

-- The two outer entries of four trade places with the inner ones.
start_run-reversed : Perm (reverse (command_times start_run)) (command_times start_run)
unfolding command_times
start_run-reversed = reversed _ _ _ _
  where
    reversed : (a b c d : Text × Text) → Perm (d ∷ c ∷ b ∷ a ∷ []) (a ∷ b ∷ c ∷ d ∷ [])
    reversed a b c d = Perm.trans (Perm.cons d (Perm.cons c (Perm.swap a b []))) (
        Perm.trans
          (Perm.cons d (Perm.trans (Perm.swap a c (b ∷ [])) (Perm.cons a (Perm.swap b c []))))
          (Perm.trans (Perm.swap a d (b ∷ c ∷ []))
            (Perm.cons a (Perm.trans (Perm.swap b d (c ∷ [])) (Perm.cons b (Perm.swap c d []))))))

validate_command_iff_example :
    (validate_command parse reverse start_run ≡ none) ↔ IsCommand parse start_run
validate_command_iff_example = validate_command_iff parse reverse start_run start_run-reversed

abbrev late_note : AnnotationInput
late_note = record {
  type = codes "note";
  run_block_uuid = [];
  text = codes "late";
  marker_label = [];
  decision_status = [];
  assignee_ref = [];
  due_date = [];
  action_status = [];
}

late_note-valid : validate_annotation parse late_note ≡ none
unfolding validate_annotation byte_len codes is_empty text_eq trim_space
late_note-valid = refl

validate_annotation_iff_example : (validate_annotation parse late_note ≡ none) ↔ (
    (byte_len (codes "late") ≤ 4000)
    × ((late_note.due_date ≡ []) ⊎ ((time : ℕ) × (parse late_note.due_date ≡ some time)))
    × IsShape late_note)
validate_annotation_iff_example = validate_annotation_iff parse late_note

-- ===== src/TimePlan.antt =====
-- timeplan_validation.go and the validation of timeplan.go: the requests of the time-plan
-- administration that are checked before they are sent. `time.Parse` with RFC 3339 and `After` are
-- parameters, as is the order in which a `range` over the map of times visits it.
pub mod Schema
pub mod Cues
pub mod Definitions
pub mod Request
pub mod Commands
pub mod Annotation
pub mod Annotated
mod Tests
use custd_sdk_go.Base.{
  ==_iff, All, Bool, Bool-cases, List, Option, Option-cases, Result, Result-cases, Text, [], all,
  any, ap, ap₂, arith, byte_len, codes, drop, drop-drop, err, fail_if, false, has_prefix,
  has_prefix-append, if◌then◌else◌, inl, inr, insert, is_empty, is_empty_sound, is_none, is_some,
  is_space, leb, leb→le, length, length-append, length-drop, length-take, le→leb, lookup,
  lookup-insert, ltb, ltb→lt, lt→ltb, map, max, min, none, not, ok, refl, reject_if, require,
  reverse, rune_len, some, subst, suc, sym, take, take-append-drop, tests, text_eq, text_eq_sound,
  text_eq_iff, text_eq_refl, trim_left, trim_space, true, zero, ℕ, ◌%◌, ◌&&◌, ◌*◌, ◌++◌, ◌+◌, ◌-◌,
  ◌/◌, ◌<◌, ◌==◌, ◌>>=◌, ◌>>◌, ◌^◌, ◌orelse◌, ◌||◌, ◌↔◌, ◌∙◌, ◌∷◌, ◌≡◌, ◌≢◌, ◌≤◌, ◌⊎◌,
}
use custd_sdk_go.Base.Int.{ℤ, pos, negsuc, is_negative, exceeds}
use custd_sdk_go.Base.Decimal.{format_int, itoa}
use custd_sdk_go.Pattern.{time_plan_uuid_matches}
use custd_sdk_go.DataScope.{one_of}

-- The messages of the validation errors.
pub data PlanError : Type 0 where
  too_many_values unsupported_type repeated_type unsupported_field repeated_field : PlanError
  one_threshold remaining_ms remaining_fraction bad_severity : PlanError
  at_cue : ℕ → PlanError → PlanError
  too_many_cues duplicate_triggers bad_basis : PlanError
  definition_required plan_required schedule command_metadata command_type not_correction
        correction :
      PlanError
  corrected_type : PlanError
  time_invalid time_required : Text → PlanError
  long_text note_fields decision_fields marker_fields action_fields annotation_type : PlanError
  action_only redaction : PlanError

pub record AnnotationSchema : Type 0 where
  pub allowed_types : List Text
  pub fields : List Text

-- A loop over values with the set of those already seen.
unfoldable pub check_values :
    (Text → Bool) → PlanError → PlanError → List Text → List Text → Option PlanError
check_values supported unsupported repeated seen [] = none
check_values supported unsupported repeated seen (v ∷ vs) =
    let rest = check_values supported unsupported repeated (v ∷ seen) vs in
    if not (supported v)
    then some unsupported
    else if any (text_eq v) seen
    then some repeated
    else rest

unfoldable pub annotation_types : List Text
annotation_types = codes "note" ∷ codes "marker" ∷ codes "decision" ∷ codes "action" ∷ []

unfoldable pub annotation_fields : List Text
annotation_fields =
    codes "text"
    ∷ codes "markerLabel"
    ∷ codes "decisionStatus"
    ∷ codes "assigneeRef"
    ∷ codes "dueDate"
    ∷ codes "actionStatus"
    ∷ []

unfoldable pub validate_schema : Option AnnotationSchema → Option PlanError
unfolding check_values
validate_schema none = none
validate_schema (some s) =
    reject_if (ltb 4 (length s.allowed_types) || ltb 6 (length s.fields)) too_many_values
    orelse check_values (one_of annotation_types) unsupported_type repeated_type [] s.allowed_types
    orelse check_values (one_of annotation_fields) unsupported_field repeated_field [] s.fields

pub record ThresholdCue : Type 0 where
  pub remaining_fraction_bps : Option ℤ
  pub remaining_ms : Option ℤ
  pub severity : Text

unfoldable pub out_of_range : ℕ → Option ℤ → Bool
out_of_range bound none = false
out_of_range bound (some x) = is_negative x || exceeds x bound

unfoldable pub valid_severity : Text → Bool
unfolding one_of
valid_severity severity = one_of (codes "info" ∷ codes "warning" ∷ codes "critical" ∷ []) severity

-- `(c.RemainingMS == nil) == (c.RemainingFractionBPS == nil)`
unfoldable pub same_bool : Bool → Bool → Bool
same_bool true b = b
same_bool false b = not b

unfoldable pub validate_cue : ThresholdCue → Option PlanError
unfolding out_of_range valid_severity same_bool
validate_cue c =
    reject_if (same_bool (is_none c.remaining_ms) (is_none c.remaining_fraction_bps)) one_threshold
    orelse reject_if (out_of_range 2419200000 c.remaining_ms) remaining_ms
    orelse reject_if (out_of_range 10000 c.remaining_fraction_bps) remaining_fraction
    orelse reject_if (not (valid_severity c.severity)) bad_severity

-- The text by which two cues are the same trigger.
unfoldable pub trigger_of : Option ℤ → Option ℤ → Option Text
unfolding format_int
trigger_of (some ms) bps = some (codes "ms:" ++ format_int ms)
trigger_of none (some bps) = some (codes "bps:" ++ format_int bps)
trigger_of none none = none

unfoldable pub cue_loop : ℕ → List Text → List ThresholdCue → Option PlanError
unfolding validate_cue trigger_of
cue_loop index seen [] = none
cue_loop index seen (cue ∷ cues) = elim (validate_cue cue) [
  | some e ↦ some (at_cue index e)
  | none ↦ elim (trigger_of cue.remaining_ms cue.remaining_fraction_bps) [
    | none ↦ some one_threshold
    | some trigger ↦ elim (any (text_eq trigger) seen) [
      | true ↦ some duplicate_triggers
      | false ↦ cue_loop (index + 1) (trigger ∷ seen) cues
    ]
  ]
]

pub record Block : Type 0 where
  pub uuid : Text
  pub semantic_key : Text
  pub title : Text
  pub description : Text
  pub category : Text
  pub tags : List Text
  pub basis : Text
  pub duration_ms : ℤ
  pub numerator : ℤ
  pub denominator : ℤ
  pub weight : ℤ

pub record Definition : Type 0 where
  pub horizon_ms : ℤ
  pub default_starts_at : Text
  pub default_ends_at : Text
  pub redistribution_mode : Text
  pub auto_advance : Bool
  pub annotation_schema : Option AnnotationSchema
  pub threshold_cues : List ThresholdCue
  pub blocks : List Block

unfoldable pub valid_basis : Block → Bool
unfolding one_of
valid_basis b =
    one_of (codes "absolute" ∷ codes "horizon_fraction" ∷ codes "remainder_weight" ∷ []) b.basis

unfoldable pub validate_definition : Definition → Option PlanError
unfolding validate_schema cue_loop valid_basis
validate_definition d =
    validate_schema d.annotation_schema
    orelse reject_if (ltb 16 (length d.threshold_cues)) too_many_cues
    orelse cue_loop 0 [] d.threshold_cues
    orelse reject_if (not (all valid_basis d.blocks)) bad_basis

-- `Validate` on a pointer, which may be nil.
unfoldable pub validate_definition_pointer : Option Definition → Option PlanError
unfolding validate_definition
validate_definition_pointer none = some definition_required
validate_definition_pointer (some d) = validate_definition d

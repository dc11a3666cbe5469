-- ===== src/TimePlan/Request.antt =====
-- timeplan_validation.go: runs, commands, annotations and redactions of a time plan.
use custd_sdk_go.Base.{
  Bool, List, Option, Text, [], byte_len, codes, false, if◌then◌else◌, is_empty, is_none, ltb, none,
  not, reject_if, some, text_eq, trim_space, ◌&&◌, ◌orelse◌, ◌||◌, ◌∷◌,
}
use custd_sdk_go.Base.Int.{ℤ, is_negative}
use custd_sdk_go.Pattern.{time_plan_uuid_matches}
use custd_sdk_go.DataScope.{one_of}
use custd_sdk_go.TimePlan.{
  PlanError, plan_required, schedule, command_metadata, command_type, not_correction, correction,
  corrected_type, time_invalid, time_required,
}

pub record RunRequest : Type 0 where
  pub plan_uuid : Text
  pub version_uuid : Text
  pub scheduled_starts_at : Text
  pub scheduled_ends_at : Text

pub record CorrectedCommand : Type 0 where
  pub type : Text
  pub block_id : Text
  pub effective_at : Text
  pub boundary_ends_at : Text
  pub start_policy : Text

pub record CommandRequest : Type 0 where
  pub command_id : Text
  pub idempotency_key : Text
  pub expected_version : ℤ
  pub type : Text
  pub block_id : Text
  pub client_occurred_at : Text
  pub boundary_ends_at : Text
  pub scheduled_starts_at : Text
  pub scheduled_ends_at : Text
  pub start_policy : Text
  pub reason : Text
  pub supersedes_transition_uuid : Text
  pub corrected : Option CorrectedCommand

unfoldable pub is_blank : Text → Bool
is_blank value = is_empty (trim_space value)

unfoldable pub valid_time_plan_uuid : Text → Bool
valid_time_plan_uuid value = time_plan_uuid_matches (trim_space value)

unfoldable pub command_types : List Text
command_types =
    codes "schedule_run"
    ∷ codes "start_run"
    ∷ codes "start_block"
    ∷ codes "complete_block"
    ∷ codes "skip_block"
    ∷ codes "change_boundary"
    ∷ codes "complete_run"
    ∷ codes "cancel_run"
    ∷ codes "append_correction"
    ∷ []

unfoldable pub valid_command_type : Text → Bool
unfolding one_of
valid_command_type value = one_of command_types value

unfoldable pub is_correction : Text → Bool
is_correction type = text_eq type (codes "append_correction")

unfoldable pub command_times : CommandRequest → List (Text × Text)
command_times r =
    (codes "clientOccurredAt", r.client_occurred_at)
    ∷ (codes "boundaryEndsAt", r.boundary_ends_at)
    ∷ (codes "scheduledStartsAt", r.scheduled_starts_at)
    ∷ (codes "scheduledEndsAt", r.scheduled_ends_at)
    ∷ []

-- `parse` is `time.Parse(time.RFC3339, ·)`, `none` its error.
module _ {Time : Type 0} (parse : Text → Option Time) where
  unfoldable pub validate_optional_time : Text → Text → Option PlanError
  validate_optional_time name value =
      reject_if (not (is_empty value) && is_none (parse value)) (time_invalid name)

  unfoldable pub validate_required_time : Text → Text → Option PlanError
  unfolding validate_optional_time
  validate_required_time name value =
      if is_empty value then some (time_required name) else validate_optional_time name value

  unfoldable pub validate_corrected : CorrectedCommand → Option PlanError
  unfolding valid_command_type is_correction validate_required_time
  validate_corrected c =
      reject_if (not (valid_command_type c.type) || is_correction c.type) corrected_type
      orelse validate_required_time (codes "effectiveAt") c.effective_at

  unfoldable pub check_times : List (Text × Text) → Option PlanError
  unfolding validate_optional_time
  check_times [] = none
  check_times ((name, value) ∷ times) = validate_optional_time name value orelse check_times times

  unfoldable pub check_replacement : Option CorrectedCommand → Option PlanError
  unfolding validate_corrected
  check_replacement none = some correction
  check_replacement (some c) = validate_corrected c

  unfoldable pub check_correction : CommandRequest → Option PlanError
  unfolding is_blank is_correction check_replacement valid_time_plan_uuid
  check_correction r =
      if is_correction r.type
      then reject_if (not (valid_time_plan_uuid r.supersedes_transition_uuid)) correction
        orelse check_replacement r.corrected
      else reject_if (not (is_none r.corrected) || not (is_blank r.supersedes_transition_uuid))
          not_correction

  -- `visit` is the order in which the range over a map visits its entries.
  unfoldable pub validate_command :
      (List (Text × Text) → List (Text × Text)) → CommandRequest → Option PlanError
  unfolding valid_time_plan_uuid is_blank valid_command_type check_times command_times
      check_correction
  validate_command visit r =
      reject_if
        (not (valid_time_plan_uuid r.command_id)
          || is_blank r.idempotency_key
          || ltb 128 (byte_len r.idempotency_key)
          || is_negative r.expected_version)
        command_metadata
      orelse reject_if (not (valid_command_type r.type) || ltb 500 (byte_len r.reason)) command_type
      orelse check_times (visit (command_times r))
      orelse check_correction r

-- `after end start` is `end.After(start)`.
module _ {Time : Type 0} (parse : Text → Option Time) (after : Time → Time → Bool) where
  unfoldable pub ordered : Option Time → Option Time → Bool
  ordered (some start) (some end) = after end start
  ordered (some start) none = false
  ordered none end = false

  unfoldable pub validate_schedule : Text → Text → Option PlanError
  unfolding ordered
  validate_schedule starts_at ends_at =
      if is_empty starts_at && is_empty ends_at
      then none
      else if is_empty starts_at || is_empty ends_at
      then some schedule
      else reject_if (not (ordered (parse starts_at) (parse ends_at))) schedule

  unfoldable pub validate_run : RunRequest → Option PlanError
  unfolding is_blank validate_schedule
  validate_run r =
      reject_if (is_blank r.plan_uuid) plan_required
      orelse validate_schedule r.scheduled_starts_at r.scheduled_ends_at

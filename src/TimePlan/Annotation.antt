-- ===== src/TimePlan/Annotation.antt =====
-- timeplan_validation.go: the annotations of a run and their redaction.
use custd_sdk_go.Base.{
  Bool, Option, Text, [], byte_len, codes, if◌then◌else◌, is_empty, ltb, not, reject_if, some,
  text_eq, trim_space, ◌&&◌, ◌==◌, ◌orelse◌, ◌||◌, ◌∷◌,
}
use custd_sdk_go.DataScope.{one_of}
use custd_sdk_go.TimePlan.{
  PlanError, long_text, note_fields, decision_fields, marker_fields, action_fields, annotation_type,
  action_only, redaction,
}
use custd_sdk_go.TimePlan.Request.{is_blank, validate_optional_time}

pub record AnnotationInput : Type 0 where
  pub type : Text
  pub run_block_uuid : Text
  pub text : Text
  pub marker_label : Text
  pub decision_status : Text
  pub assignee_ref : Text
  pub due_date : Text
  pub action_status : Text

unfoldable pub valid_decision_status : Text → Bool
unfolding one_of
valid_decision_status value =
    one_of (codes "proposed" ∷ codes "accepted" ∷ codes "rejected" ∷ codes "superseded" ∷ []) value

unfoldable pub valid_action_status : Text → Bool
unfolding one_of
valid_action_status value = one_of (codes "open" ∷ codes "completed" ∷ codes "cancelled" ∷ []) value

-- The switch on the type.
unfoldable pub check_type : AnnotationInput → Option PlanError
unfolding is_blank valid_decision_status valid_action_status
check_type i =
    if text_eq i.type (codes "note")
    then reject_if
        (is_blank i.text || not (is_empty i.marker_label) || not (is_empty i.decision_status))
        note_fields
    else if text_eq i.type (codes "decision")
    then reject_if
        (is_blank i.text
          || not (is_empty i.marker_label)
          || (not (is_empty i.decision_status) && not (valid_decision_status i.decision_status)))
        decision_fields
    else if text_eq i.type (codes "marker")
    then reject_if
        (is_blank i.marker_label
          || ltb 100 (byte_len i.marker_label)
          || not (is_empty i.text)
          || not (is_empty i.decision_status))
        marker_fields
    else if text_eq i.type (codes "action")
    then reject_if
        (is_blank i.text
          || not (valid_action_status i.action_status)
          || not (is_empty i.marker_label)
          || not (is_empty i.decision_status)
          || ltb 200 (byte_len i.assignee_ref))
        action_fields
    else some annotation_type

unfoldable pub has_action_fields : AnnotationInput → Bool
has_action_fields i =
    not (is_empty i.assignee_ref) || not (is_empty i.due_date) || not (is_empty i.action_status)

module _ {Time : Type 0} (parse : Text → Option Time) where
  unfoldable pub validate_annotation : AnnotationInput → Option PlanError
  unfolding check_type has_action_fields validate_optional_time
  validate_annotation i =
      reject_if (ltb 4000 (byte_len i.text)) long_text
      orelse validate_optional_time parse (codes "dueDate") i.due_date
      orelse check_type i
      orelse reject_if (not (text_eq i.type (codes "action")) && has_action_fields i) action_only

unfoldable pub validate_redaction : Text → Option PlanError
validate_redaction reason =
    reject_if (byte_len (trim_space reason) == 0 || ltb 200 (byte_len (trim_space reason)))
      redaction

-- ===== src/TimePlan/Annotated.antt =====
-- When the annotation of a run passes its validation.
use custd_sdk_go.Base.{
  Bool, Bool-cases, Option, Option-cases, Text, [], arith, byte_len, codes, false, inl, inr,
  is_empty, is_empty_sound, is_none, none, not, refl, some, subst, sym, text_eq, text_eq_sound,
  true, ◌&&◌, ◌≡◌, ◌≤◌, ◌⊎◌, ◌↔◌,
}
use custd_sdk_go.TimePlan.Request.{is_blank, validate_optional_time}
use custd_sdk_go.TimePlan.Annotation.{
  AnnotationInput, valid_decision_status, valid_action_status, check_type, has_action_fields,
  validate_annotation,
}

-- What a valid annotation of a type other than `action` never carries.
abbrev pub NoActionFields : AnnotationInput → Type 0
NoActionFields i = (i.assignee_ref ≡ []) × (i.due_date ≡ []) × (i.action_status ≡ [])

pub record IsNote (i : AnnotationInput) : Type 0 where
  pub typed : i.type ≡ codes "note"
  pub content : is_blank i.text ≡ false
  pub label : i.marker_label ≡ []
  pub decision : i.decision_status ≡ []
  pub action : NoActionFields i

pub record IsDecision (i : AnnotationInput) : Type 0 where
  pub typed : i.type ≡ codes "decision"
  pub content : is_blank i.text ≡ false
  pub label : i.marker_label ≡ []
  pub decision : (i.decision_status ≡ []) ⊎ (valid_decision_status i.decision_status ≡ true)
  pub action : NoActionFields i

pub record IsMarker (i : AnnotationInput) : Type 0 where
  pub typed : i.type ≡ codes "marker"
  pub content : i.text ≡ []
  pub label : is_blank i.marker_label ≡ false
  pub short : byte_len i.marker_label ≤ 100
  pub decision : i.decision_status ≡ []
  pub action : NoActionFields i

pub record IsAction (i : AnnotationInput) : Type 0 where
  pub typed : i.type ≡ codes "action"
  pub content : is_blank i.text ≡ false
  pub label : i.marker_label ≡ []
  pub decision : i.decision_status ≡ []
  pub status : valid_action_status i.action_status ≡ true
  pub assignee : byte_len i.assignee_ref ≤ 200

-- The four shapes.
abbrev pub IsShape : AnnotationInput → Type 0
IsShape i = IsNote i ⊎ (IsDecision i ⊎ (IsMarker i ⊎ IsAction i))

no_action_fields : (i : AnnotationInput) → has_action_fields i ≡ false → NoActionFields i
unfolding has_action_fields
no_action_fields i h = (
  is_empty_sound i.assignee_ref (ground arith),
  is_empty_sound i.due_date (ground arith),
  is_empty_sound i.action_status (ground arith),
)

nothing : (t : Text) → t ≡ [] → is_empty t ≡ true
unfolding is_empty
nothing t e = rw e

NoActionFields-back : (i : AnnotationInput) → NoActionFields i → has_action_fields i ≡ false
unfolding has_action_fields
NoActionFields-back i (a, d, s) =
    let a' = nothing i.assignee_ref a in
    let d' = nothing i.due_date d in let s' = nothing i.action_status s in ground arith

-- The tests of the switch at one of its types.
Tests : Text → Bool → Bool → Bool → Bool → Type 0
Tests t note decision marker action =
    (text_eq t (codes "note") ≡ note)
    × (text_eq t (codes "decision") ≡ decision)
    × (text_eq t (codes "marker") ≡ marker)
    × (text_eq t (codes "action") ≡ action)

note-Tests : (t : Text) → t ≡ codes "note" → Tests t true false false false
unfolding Tests text_eq codes
note-Tests t e = subst (λ u. Tests u true false false false) (sym e) (refl, refl, refl, refl)

decision-Tests : (t : Text) → t ≡ codes "decision" → Tests t false true false false
unfolding Tests text_eq codes
decision-Tests t e = subst (λ u. Tests u false true false false) (sym e) (refl, refl, refl, refl)

marker-Tests : (t : Text) → t ≡ codes "marker" → Tests t false false true false
unfolding Tests text_eq codes
marker-Tests t e = subst (λ u. Tests u false false true false) (sym e) (refl, refl, refl, refl)

action-Tests : (t : Text) → t ≡ codes "action" → Tests t false false false true
unfolding Tests text_eq codes
action-Tests t e = subst (λ u. Tests u false false false true) (sym e) (refl, refl, refl, refl)

-- Both checks of the type and of the fields that belong to actions.
abbrev Passes : AnnotationInput → Type 0
Passes i =
    (check_type i ≡ none) × ((not (text_eq i.type (codes "action")) && has_action_fields i) ≡ false)

sound : (i : AnnotationInput) → Passes i → IsShape i
unfolding check_type Tests
sound i h = elim (Bool-cases (text_eq i.type (codes "note"))) [
  | inl n ↦
      let e = text_eq_sound i.type (codes "note") n in
      let tests = note-Tests i.type e in
      inl (record {
        typed = e;
        content = ground arith;
        label = is_empty_sound i.marker_label (ground arith);
        decision = is_empty_sound i.decision_status (ground arith);
        action = no_action_fields i (ground arith);
      })
  | inr n ↦ inr (elim (Bool-cases (text_eq i.type (codes "decision"))) [
    | inl d ↦
        let e = text_eq_sound i.type (codes "decision") d in
        let tests = decision-Tests i.type e in
        inl (record {
          typed = e;
          content = ground arith;
          label = is_empty_sound i.marker_label (ground arith);
          decision = elim (Bool-cases (is_empty i.decision_status)) [
            | inl none_given ↦ inl (is_empty_sound i.decision_status none_given)
            | inr given ↦ inr (ground arith)
          ];
          action = no_action_fields i (ground arith);
        })
    | inr d ↦ inr (elim (Bool-cases (text_eq i.type (codes "marker"))) [
      | inl m ↦
          let e = text_eq_sound i.type (codes "marker") m in
          let tests = marker-Tests i.type e in
          inl (record {
            typed = e;
            content = is_empty_sound i.text (ground arith);
            label = ground arith;
            short = ground arith;
            decision = is_empty_sound i.decision_status (ground arith);
            action = no_action_fields i (ground arith);
          })
      | inr m ↦
          let a : text_eq i.type (codes "action") ≡ true = ground arith in
          inr (record {
            typed = text_eq_sound i.type (codes "action") a;
            content = ground arith;
            label = is_empty_sound i.marker_label (ground arith);
            decision = is_empty_sound i.decision_status (ground arith);
            status = ground arith;
            assignee = ground arith;
          })
    ])
  ])
]

complete : (i : AnnotationInput) → IsShape i → Passes i
unfolding check_type Tests
complete i (inl s) =
    let tests = note-Tests i.type s.typed in
    let fields = NoActionFields-back i s.action in
    let l = nothing i.marker_label s.label in
    let d = nothing i.decision_status s.decision in (ground (arith, s.content), ground arith)
complete i (inr (inl s)) =
    let tests = decision-Tests i.type s.typed in
    let fields = NoActionFields-back i s.action in
    let l = nothing i.marker_label s.label in
    let fine : (not (is_empty i.decision_status) && not (valid_decision_status i.decision_status))
        ≡ false =
      elim s.decision [
        | inl e ↦ let d = nothing i.decision_status e in ground arith
        | inr v ↦ ground arith
      ] in
    (ground (arith, s.content), ground arith)
complete i (inr (inr (inl s))) =
    let tests = marker-Tests i.type s.typed in
    let fields = NoActionFields-back i s.action in
    let x = nothing i.text s.content in
    let d = nothing i.decision_status s.decision in (ground (arith, s.label, s.short), ground arith)
complete i (inr (inr (inr s))) =
    let tests = action-Tests i.type s.typed in
    let l = nothing i.marker_label s.label in
    let d = nothing i.decision_status s.decision in
    (ground (arith, s.content, s.status, s.assignee), ground arith)

module _ {Time : Type 0} (parse : Text → Option Time) where
  -- An annotation is accepted exactly if its text has at most 4,000 bytes, its due date parses where
  -- it is given, and it is a note, a decision, a marker or an action with the content of its type:
  -- only a decision has a decision status, only a marker a label and no text, only an action an
  -- assignee, a due date or an action status.
  pub validate_annotation_iff :
      (i : AnnotationInput)
      → (validate_annotation parse i ≡ none) ↔ (
          (byte_len i.text ≤ 4000)
          × ((i.due_date ≡ []) ⊎ ((time : Time) × (parse i.due_date ≡ some time)))
          × IsShape i)
  unfolding validate_annotation validate_optional_time
  validate_annotation_iff i = (
    λ h. (
      ground arith,
      elim (Bool-cases (is_empty i.due_date)) [
        | inl e ↦ inl (is_empty_sound i.due_date e)
        | inr e ↦ inr (elim (Option-cases (parse i.due_date)) [
          | inl bad ↦ absurd (ground arith)
          | inr found ↦ found
        ])
      ],
      sound i (ground arith, ground arith),
    ),
    λ h.
        let passes = complete i h.2 in
        let dated : (not (is_empty i.due_date) && is_none (parse i.due_date)) ≡ false = elim h.1 [
          | inl e ↦ let none_given = nothing i.due_date e in ground arith
          | inr found ↦ ground arith
        ] in
        ground (arith, h.0),
  )

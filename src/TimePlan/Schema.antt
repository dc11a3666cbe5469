-- ===== src/TimePlan/Schema.antt =====
-- The annotation schema of a time-plan definition: which lists of types and fields pass.
use custd_sdk_go.Base.{
  All, Bool-cases, List, Text, [], any, arith, false, inl, inr, length, none, refl, some, text_eq,
  text_eq_iff, true, Bool, ◌∷◌, ◌≡◌, ◌≢◌, ◌≤◌, ◌↔◌,
}
use custd_sdk_go.TimePlan.{
  PlanError, AnnotationSchema, check_values, annotation_types, annotation_fields, validate_schema,
  unsupported_type, repeated_type, unsupported_field, repeated_field,
}
use custd_sdk_go.DataScope.{one_of}

-- No value stands twice.
abbrev pub NoRepeats : List Text → Type 0
NoRepeats [] = Unit {0}
NoRepeats (v ∷ vs) = All (λ u. u ≢ v) vs × NoRepeats vs

-- A value is none of those seen.
abbrev Unseen : List Text → Text → Type 0
Unseen seen v = any (text_eq v) seen ≡ false

Unseen-split :
    (v : Text) (seen vs : List Text)
    → All (Unseen (v ∷ seen)) vs
    → All (λ u. u ≢ v) vs × All (Unseen seen) vs
Unseen-split v seen [] h = (tt, tt)
Unseen-split v seen (u ∷ us) h =
    let (ne, un) = Unseen-split v seen us h.1 in
    (
      (λ e. let hit = (text_eq_iff u v).1 e in let both = h.0 in absurd (ground arith), ne),
      (ground (arith, h.0), un),
    )

Unseen-join :
    (v : Text) (seen vs : List Text)
    → All (λ u. u ≢ v) vs
    → All (Unseen seen) vs
    → All (Unseen (v ∷ seen)) vs
Unseen-join v seen [] ne un = tt
Unseen-join v seen (u ∷ us) ne un = (
  elim (Bool-cases (text_eq u v)) [
    | inl same ↦ absurd (ne.0 ((text_eq_iff u v).0 same))
    | inr other ↦ ground (arith, un.0)
  ],
  Unseen-join v seen us ne.1 un.1,
)

module _ (supported : Text → Bool) (unsupported repeated : PlanError) where
  check_values_iff :
      (seen vs : List Text)
      → (check_values supported unsupported repeated seen vs ≡ none)
        ↔ (All (λ v. supported v ≡ true) vs × NoRepeats vs × All (Unseen seen) vs)
  unfolding check_values
  check_values_iff seen [] = (λ h. (tt, tt, tt), λ h. refl)
  check_values_iff seen (v ∷ vs) = (
    λ h.
        let (ok, different, fresh) = (check_values_iff (v ∷ seen) vs).0 (ground arith) in
        let (ne, un) = Unseen-split v seen vs fresh in
        ((ground arith, ok), (ne, different), (ground arith, un)),
    λ h.
        let rest =
          (check_values_iff (v ∷ seen) vs).1 (h.0.1, h.1.1, Unseen-join v seen vs h.1.0 h.2.1) in
        ground (arith, rest, h.0.0, h.2.0),
  )

  Unseen-none : (vs : List Text) → All (Unseen []) vs
  Unseen-none [] = tt
  Unseen-none (v ∷ vs) = (refl, Unseen-none vs)

  pub check_values-none :
      (vs : List Text)
      → (check_values supported unsupported repeated [] vs ≡ none)
        ↔ (All (λ v. supported v ≡ true) vs × NoRepeats vs)
  check_values-none vs = (
    λ h. let (ok, different, _) = (check_values_iff [] vs).0 h in (ok, different),
    λ h. (check_values_iff [] vs).1 (h.0, h.1, Unseen-none vs),
  )

-- At most four types and six fields, each of the closed sets and none twice.
pub record IsSchema (s : AnnotationSchema) : Type 0 where
  pub few_types : length s.allowed_types ≤ 4
  pub few_fields : length s.fields ≤ 6
  pub types : All (λ v. one_of annotation_types v ≡ true) s.allowed_types
  pub types_differ : NoRepeats s.allowed_types
  pub fields : All (λ v. one_of annotation_fields v ≡ true) s.fields
  pub fields_differ : NoRepeats s.fields

pub validate_schema_iff : (s : AnnotationSchema) → (validate_schema (some s) ≡ none) ↔ IsSchema s
unfolding validate_schema
validate_schema_iff s = (
  λ h.
      let (types, types_differ) =
        (check_values-none (one_of annotation_types) unsupported_type repeated_type
            s.allowed_types).0
          (ground arith) in
      let (fields, fields_differ) =
        (check_values-none (one_of annotation_fields) unsupported_field repeated_field s.fields).0
          (ground arith) in
      record {
        few_types = ground arith;
        few_fields = ground arith;
        types = types;
        types_differ = types_differ;
        fields = fields;
        fields_differ = fields_differ;
      },
  λ v.
      let t =
        (check_values-none (one_of annotation_types) unsupported_type repeated_type
            s.allowed_types).1
          (v.types, v.types_differ) in
      let f =
        (check_values-none (one_of annotation_fields) unsupported_field repeated_field s.fields).1
          (v.fields, v.fields_differ) in
      ground (arith, t, f, v.few_types, v.few_fields),
)

-- ===== src/TimePlan/Definitions.antt =====
-- When a time-plan definition passes its validation.
use mathlib.Core.List.{append_cancel_left}
use custd_sdk_go.Base.{
  All, List, Option, Text, [], all, ap, arith, codes, inl, inr, length, none, refl, some, sym, true,
  ℕ, ◌++◌, ◌∙◌, ◌∷◌, ◌≡◌, ◌≢◌, ◌≤◌, ◌↔◌, ◌⊎◌, text_eq, text_eq_iff, Bool-cases,
}
use custd_sdk_go.Base.Decimal.{format_int, itoa, parse_digits, parse_digits-itoa}
use custd_sdk_go.Base.Int.{pos}
use custd_sdk_go.TimePlan.{
  ThresholdCue, AnnotationSchema, Block, Definition, validate_definition, trigger_of, valid_basis,
  validate_schema,
}
use custd_sdk_go.DataScope.{one_of}
use custd_sdk_go.TimePlan.Cues.{IsCue, Distinct, Unseen, trigger, cue_loop_sound, cue_loop_complete}
use custd_sdk_go.TimePlan.Schema.{IsSchema, validate_schema_iff}

some_same : {A : Type 0} {x y : A} → some x ≡ some y → x ≡ y
some_same e = cc

itoa-injective : (m n : ℕ) → itoa m ≡ itoa n → m ≡ n
itoa-injective m n e =
    some_same (sym (parse_digits-itoa m) ∙ ap parse_digits e ∙ parse_digits-itoa n)

-- The same threshold on the same scale.
abbrev pub SameThreshold : ThresholdCue → ThresholdCue → Type 0
SameThreshold c d =
    (c.remaining_ms ≡ d.remaining_ms) × (c.remaining_fraction_bps ≡ d.remaining_fraction_bps)

same_number :
    (prefix : Text) (m n : ℕ)
    → some (prefix ++ format_int (pos m)) ≡ some (prefix ++ format_int (pos n))
    → m ≡ n
unfolding format_int
same_number prefix m n e =
    itoa-injective m n (append_cancel_left prefix (itoa m) (itoa n) (some_same e))

scales_differ : (s t : Text) → some (codes "ms:" ++ s) ≢ some (codes "bps:" ++ t)
unfolding codes
scales_differ s t e =
    let heads : b'm' ≡ b'b' = ap first (some_same e) in absurd (omega (arith, heads))
  where
    first : Text → ℕ
    first [] = 0
    first (c ∷ u) = c

-- Valid cues with one trigger text have one threshold.
trigger-SameThreshold :
    (c d : ThresholdCue) → IsCue c → IsCue d → trigger c ≡ trigger d → SameThreshold c d
unfolding trigger_of
trigger-SameThreshold c d (inl (m, cm, _, cb), _) (inl (n, dm, _, db), _) e =
    let same = same_number (codes "ms:") m n (rw (cm, dm) at e) in
    (cm ∙ ap (λ k. some (pos k)) same ∙ sym dm, cb ∙ sym db)
trigger-SameThreshold c d (inr (m, cb, _, cm), _) (inr (n, db, _, dm), _) e =
    let same = same_number (codes "bps:") m n (rw (cm, cb, dm, db) at e) in
    (cm ∙ sym dm, cb ∙ ap (λ k. some (pos k)) same ∙ sym db)
trigger-SameThreshold c d (inl (m, cm, _, cb), _) (inr (n, db, _, dm), _) e =
    absurd (scales_differ _ _ (rw (cm, dm, db) at e))
trigger-SameThreshold c d (inr (m, cb, _, cm), _) (inl (n, dm, _, db), _) e =
    absurd (scales_differ _ _ (sym (rw (cm, cb, dm) at e)))

-- No two cues have the same threshold.
abbrev pub Differ : List ThresholdCue → Type 0
Differ [] = Unit {0}
Differ (c ∷ cs) = All (λ d. SameThreshold d c → ⊥) cs × Differ cs

triggers_apart :
    (c : ThresholdCue) (cs : List ThresholdCue)
    → IsCue c
    → All IsCue cs
    → All (λ d. SameThreshold d c → ⊥) cs
    → All (λ d. trigger d ≢ trigger c) cs
triggers_apart c [] k ks h = tt
triggers_apart c (d ∷ ds) k ks h =
    (λ e. h.0 (trigger-SameThreshold d c ks.0 k e), triggers_apart c ds k ks.1 h.1)

thresholds_apart :
    (c : ThresholdCue) (cs : List ThresholdCue)
    → All (λ d. trigger d ≢ trigger c) cs
    → All (λ d. SameThreshold d c → ⊥) cs
thresholds_apart c [] h = tt
thresholds_apart c (d ∷ ds) h =
    (λ s. h.0 (λ i. trigger_of (s.0 i) (s.1 i)), thresholds_apart c ds h.1)

Distinct-Differ : (cs : List ThresholdCue) → Distinct cs → Differ cs
Distinct-Differ [] h = tt
Distinct-Differ (c ∷ cs) h = (thresholds_apart c cs h.0, Distinct-Differ cs h.1)

Differ-Distinct : (cs : List ThresholdCue) → All IsCue cs → Differ cs → Distinct cs
Differ-Distinct [] k h = tt
Differ-Distinct (c ∷ cs) k h = (triggers_apart c cs k.0 k.1 h.0, Differ-Distinct cs k.1 h.1)

Unseen-none : (cs : List ThresholdCue) → All (Unseen []) cs
Unseen-none [] = tt
Unseen-none (c ∷ cs) = (λ t e. refl, Unseen-none cs)

abbrev pub IsSchemaIfAny : Option AnnotationSchema → Type 0
IsSchemaIfAny none = Unit {0}
IsSchemaIfAny (some s) = IsSchema s

schema_iff : (o : Option AnnotationSchema) → (validate_schema o ≡ none) ↔ IsSchemaIfAny o
unfolding validate_schema
schema_iff none = (λ h. tt, λ h. refl)
schema_iff (some s) = validate_schema_iff s

abbrev pub HasBasis : Block → Type 0
HasBasis b =
    (b.basis ≡ codes "absolute")
    ⊎ ((b.basis ≡ codes "horizon_fraction") ⊎ (b.basis ≡ codes "remainder_weight"))

HasBasis-valid : (b : Block) → (valid_basis b ≡ true) ↔ HasBasis b
unfolding valid_basis one_of
HasBasis-valid b = (
  λ h. elim (Bool-cases (text_eq b.basis (codes "absolute"))) [
    | inl a ↦ inl ((text_eq_iff _ _).0 a)
    | inr a ↦ inr (elim (Bool-cases (text_eq b.basis (codes "horizon_fraction"))) [
      | inl f ↦ inl ((text_eq_iff _ _).0 f)
      | inr f ↦ inr ((text_eq_iff b.basis (codes "remainder_weight")).0 (ground arith))
    ])
  ],
  holds,
)
  where
    holds : HasBasis b → valid_basis b ≡ true
    holds (inl e) = let t = (text_eq_iff b.basis (codes "absolute")).1 e in ground (arith, t)
    holds (inr (inl e)) =
        let t = (text_eq_iff b.basis (codes "horizon_fraction")).1 e in ground (arith, t)
    holds (inr (inr e)) =
        let t = (text_eq_iff b.basis (codes "remainder_weight")).1 e in ground (arith, t)

bases_iff : (bs : List Block) → (all valid_basis bs ≡ true) ↔ All HasBasis bs
bases_iff [] = (λ h. tt, λ h. refl)
bases_iff (b ∷ bs) = (
  λ h. ((HasBasis-valid b).0 (ground arith), (bases_iff bs).0 (ground arith)),
  λ h. let first = (HasBasis-valid b).1 h.0 in let rest = (bases_iff bs).1 h.1 in ground arith,
)

-- A closed annotation schema, at most 16 cues with different thresholds, and blocks on one of three
-- bases.
pub record IsDefinition (d : Definition) : Type 0 where
  pub schema : IsSchemaIfAny d.annotation_schema
  pub few : length d.threshold_cues ≤ 16
  pub cues : All IsCue d.threshold_cues
  pub differ : Differ d.threshold_cues
  pub bases : All HasBasis d.blocks

-- A definition is accepted exactly if its annotation schema, where it has one, lists at most four
-- types and six fields of the closed sets, none twice; it has at most 16 threshold cues, each with
-- exactly one threshold within its bounds and a severity of the closed set, and no two with the same
-- threshold on the same scale; and every block has one of the three bases.
pub validate_definition_iff : (d : Definition) → (validate_definition d ≡ none) ↔ IsDefinition d
unfolding validate_definition
validate_definition_iff d = (
  λ h.
      let loop = cue_loop_sound 0 [] d.threshold_cues (ground arith) in
      record {
        schema = (schema_iff d.annotation_schema).0 (ground arith);
        few = ground arith;
        cues = loop.0;
        differ = Distinct-Differ d.threshold_cues loop.1;
        bases = (bases_iff d.blocks).0 (ground arith);
      },
  λ v.
      let schema = (schema_iff d.annotation_schema).1 v.schema in
      let loop =
        cue_loop_complete 0 [] d.threshold_cues v.cues
          (Differ-Distinct d.threshold_cues v.cues v.differ) (Unseen-none d.threshold_cues) in
      let blocks = (bases_iff d.blocks).1 v.bases in ground (arith, schema, loop, blocks, v.few),
)

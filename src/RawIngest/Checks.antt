-- ===== src/RawIngest/Checks.antt =====
-- The local checks of an upload: what passes them, and that what fails them fails with a local error.
use custd_sdk_go.Base.{
  Bool, Bool-cases, Option, Text, [], arith, false, inl, inr, none, not, refl, some, true, ◌∷◌, ◌≡◌,
  ◌↔◌, ◌⊎◌, sym, is_empty, is_empty_sound, reject_if, ◌orelse◌, ◌||◌, ◌&&◌,
}
use custd_sdk_go.Pattern.{data_scope_uuid_matches, matches_each, uuid_classes, repeat}
use custd_sdk_go.DataScope.{valid_data_scope_code, is_data_scope_uuid}
use custd_sdk_go.Ids.{cut, raw_key_is_valid}
use custd_sdk_go.RawIngest.{
  RawSourceTarget, RawIngestRequest, RawError, target_is_zero, validate_source_target,
  validate_optional_target, check_raw_path, acceptance_unknown, no_parser, parser_not_uuid,
  bad_target, bad_key, refused,
}

-- No target, or two codes.
abbrev pub IsTarget : Option RawSourceTarget → Type 0
IsTarget none = Unit {0}
IsTarget (some t) =
    ((t.sub_client ≡ []) × (t.resource ≡ []))
    ⊎ ((valid_data_scope_code t.sub_client ≡ true) × (valid_data_scope_code t.resource ≡ true))

abbrev pub IsKey : Text → Type 0
IsKey key = (key ≡ []) ⊎ (raw_key_is_valid key ≡ true)

-- What is uploaded: a UUID for the parser, a target of two codes or none, and a valid key or none.
abbrev pub IsUploadable : RawIngestRequest → Type 0
IsUploadable r =
    (is_data_scope_uuid r.parser_uuid ≡ true) × IsTarget r.target × IsKey r.idempotency_key

IsTarget-passes : (t : Option RawSourceTarget) → validate_optional_target t ≡ none → IsTarget t
unfolding validate_optional_target validate_source_target target_is_zero
IsTarget-passes none h = tt
IsTarget-passes (some t) h = elim (Bool-cases (target_is_zero t)) [
  | inl zero_target ↦
      inl (is_empty_sound t.sub_client (ground arith), is_empty_sound t.resource (ground arith))
  | inr e ↦ inr (ground arith, ground arith)
]

target_is_passed : (t : Option RawSourceTarget) → IsTarget t → validate_optional_target t ≡ none
unfolding validate_optional_target validate_source_target target_is_zero is_empty
target_is_passed none h = refl
target_is_passed (some t) (inl (s, r)) = rw (s, r) refl
target_is_passed (some t) (inr (s, r)) = ground arith

uuid_not_empty : (s : Text) → is_data_scope_uuid s ≡ true → is_empty s ≡ false
unfolding is_empty is_data_scope_uuid data_scope_uuid_matches matches_each uuid_classes repeat
uuid_not_empty [] h = sym h
uuid_not_empty (c ∷ s) h = refl

pub check_raw_path_iff :
    (r : RawIngestRequest)
    → (check_raw_path r ≡ none) ↔ ((is_data_scope_uuid r.parser_uuid ≡ true) × IsTarget r.target)
unfolding check_raw_path
check_raw_path_iff r = (
  λ h. (ground arith, IsTarget-passes r.target (ground arith)),
  λ (parser, target).
      let given = uuid_not_empty r.parser_uuid parser in
      rw (given, parser, target_is_passed r.target target),
)

pub IsKey-passes_sound :
    (key : Text) → (not (is_empty key) && not (raw_key_is_valid key)) ≡ false → IsKey key
IsKey-passes_sound key h = elim (Bool-cases (is_empty key)) [
  | inl e ↦ inl (is_empty_sound key e)
  | inr e ↦ inr (ground arith)
]

pub key_passes_complete :
    (key : Text) → IsKey key → (not (is_empty key) && not (raw_key_is_valid key)) ≡ false
unfolding is_empty
key_passes_complete key (inl e) = rw e refl
key_passes_complete key (inr e) = rw e (ground arith)

pub key_not_empty : (key : Text) → raw_key_is_valid key ≡ true → is_empty key ≡ false
unfolding is_empty raw_key_is_valid cut
key_not_empty [] h = sym h
key_not_empty (c ∷ s) h = refl

-- An error that is found before anything is sent.
abbrev pub IsLocal : RawError → Type 0
IsLocal no_parser = Unit {0}
IsLocal parser_not_uuid = Unit {0}
IsLocal bad_target = Unit {0}
IsLocal bad_key = Unit {0}
IsLocal (refused e) = ⊥
IsLocal (acceptance_unknown cause key) = ⊥

abbrev pub OnlyLocal : Option RawError → Type 0
OnlyLocal none = Unit {0}
OnlyLocal (some e) = IsLocal e

reject_if-OnlyLocal : (b : Bool) (e : RawError) → IsLocal e → OnlyLocal (reject_if b e)
reject_if-OnlyLocal true e l = l
reject_if-OnlyLocal false e l = tt

orelse-OnlyLocal : (m n : Option RawError) → OnlyLocal m → OnlyLocal n → OnlyLocal (m orelse n)
orelse-OnlyLocal none n l k = k
orelse-OnlyLocal (some e) n l k = l

target-OnlyLocal : (t : Option RawSourceTarget) → OnlyLocal (validate_optional_target t)
unfolding validate_optional_target validate_source_target
target-OnlyLocal none = tt
target-OnlyLocal (some t) = elim (Bool-cases (target_is_zero t)) [
  | inl e ↦ rw e tt
  | inr e ↦ rw e (
      reject_if-OnlyLocal
        (not (valid_data_scope_code t.sub_client) || not (valid_data_scope_code t.resource))
        bad_target tt)
]

pub check_raw_path-OnlyLocal : (r : RawIngestRequest) → OnlyLocal (check_raw_path r)
unfolding check_raw_path
check_raw_path-OnlyLocal r =
    orelse-OnlyLocal _ _ (reject_if-OnlyLocal (is_empty r.parser_uuid) no_parser tt) (
      orelse-OnlyLocal _ _
        (reject_if-OnlyLocal (not (is_data_scope_uuid r.parser_uuid)) parser_not_uuid tt)
        (target-OnlyLocal r.target))

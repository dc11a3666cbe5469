-- ===== src/TimePlan/Commands.antt =====
-- What a valid command of a run carries.
use custd_sdk_go.Base.{
  All, [], Bool, is_empty, trim_space, not, ◌&&◌, is_empty_sound, is_empty_complete, all, all-Perm,
  byte_len, ◌≢◌, ◌≤◌, ◌↔◌, ◌∙◌, sym, ◌∷◌, Bool-cases, List, Option, Option-cases, Text, arith,
  false, inl, inr, is_none, none, refl, some, true, ◌≡◌, ◌⊎◌,
}
use mathlib.Core.List.{Perm}
use custd_sdk_go.Base.Int.{is_negative}
use custd_sdk_go.TimePlan.Request.{
  check_times, command_times, CommandRequest, CorrectedCommand, is_blank, is_correction,
  valid_command_type, valid_time_plan_uuid, validate_corrected, check_replacement, check_correction,
  validate_command, validate_required_time, validate_optional_time,
}

-- The replacement of a correction is a command of another type at a time that parses.
abbrev pub IsReplacement : {Time : Type 0} → (Text → Option Time) → CorrectedCommand → Type 0
IsReplacement parse c =
    (valid_command_type c.type ≡ true)
    × (is_correction c.type ≡ false)
    × (c.effective_at ≢ [])
    × (is_none (parse c.effective_at) ≡ false)

-- A correction names the transition it supersedes and its replacement, any other command neither.
abbrev pub CorrectsIf : {Time : Type 0} → (Text → Option Time) → CommandRequest → Type 0
CorrectsIf parse r =
    ((is_correction r.type ≡ true)
      × (valid_time_plan_uuid r.supersedes_transition_uuid ≡ true)
      × ((c : CorrectedCommand) × (r.corrected ≡ some c) × IsReplacement parse c))
    ⊎ ((is_correction r.type ≡ false)
        × (r.corrected ≡ none)
        × (is_blank r.supersedes_transition_uuid ≡ true))

is_empty-ne : (t : Text) → is_empty t ≡ false → t ≢ []
unfolding is_empty
is_empty-ne [] h e = absurd (cc)
is_empty-ne (c ∷ s) h e = absurd (cc)

module _ {Time : Type 0} (parse : Text → Option Time) where
  corrected-IsReplacement :
      (c : CorrectedCommand) → validate_corrected parse c ≡ none → IsReplacement parse c
  unfolding validate_corrected validate_required_time validate_optional_time
  corrected-IsReplacement c h =
      (ground arith, ground arith, is_empty-ne c.effective_at (ground arith), ground arith)

  IsReplacement-corrected :
      (c : CorrectedCommand) → IsReplacement parse c → validate_corrected parse c ≡ none
  unfolding validate_corrected validate_required_time validate_optional_time
  IsReplacement-corrected c (known, other, given, time) =
      let there = is_empty_complete c.effective_at given in ground arith

  replacement :
      (o : Option CorrectedCommand)
      → check_replacement parse o ≡ none
      → (c : CorrectedCommand) × (o ≡ some c) × IsReplacement parse c
  unfolding check_replacement
  replacement none h = cc
  replacement (some c) h = (c, refl, corrected-IsReplacement c h)

  -- A time that is given parses.
  abbrev pub Parses : Text → Type 0
  Parses value = (value ≡ []) ⊎ ((time : Time) × (parse value ≡ some time))

  fine : Text × Text → Bool
  fine t = not (not (is_empty t.1) && is_none (parse t.1))

  fine-Parses : (t : Text × Text) → (fine t ≡ true) ↔ Parses t.1
  unfolding fine is_empty
  fine-Parses (name, value) = (
    λ h. elim (Bool-cases (is_empty value)) [
      | inl e ↦ inl (is_empty_sound value e)
      | inr e ↦ inr (elim (Option-cases (parse value)) [
        | inl bad ↦ absurd (ground arith)
        | inr found ↦ found
      ])
    ],
    back,
  )
    where
      back : Parses value → fine (name, value) ≡ true
      back (inl e) = rw e refl
      back (inr (time, e)) = ground arith

  check_times-all : (l : List (Text × Text)) → (check_times parse l ≡ none) ↔ (all fine l ≡ true)
  unfolding check_times fine
  check_times-all [] = (λ h. refl, λ h. refl)
  check_times-all ((name, value) ∷ l) = (
    λ h. let rest = (check_times-all l).0 (ground arith) in ground arith,
    λ h. let rest = (check_times-all l).1 (ground arith) in ground arith,
  )

  -- What an accepted command carries.
  pub record IsCommand (r : CommandRequest) : Type 0 where
    pub identified : valid_time_plan_uuid r.command_id ≡ true
    pub keyed : trim_space r.idempotency_key ≢ []
    pub key_short : byte_len r.idempotency_key ≤ 128
    pub version : is_negative r.expected_version ≡ false
    pub typed : valid_command_type r.type ≡ true
    pub reason_short : byte_len r.reason ≤ 500
    pub occurred : Parses r.client_occurred_at
    pub boundary : Parses r.boundary_ends_at
    pub starts : Parses r.scheduled_starts_at
    pub ends : Parses r.scheduled_ends_at
    pub corrects : CorrectsIf parse r

  check_correction-CorrectsIf :
      (r : CommandRequest) → (check_correction parse r ≡ none) ↔ CorrectsIf parse r
  unfolding check_correction check_replacement
  check_correction-CorrectsIf r = (
    λ h. elim (Bool-cases (is_correction r.type)) [
      | inl e ↦ inl (e, ground arith, replacement r.corrected (ground arith))
      | inr e ↦ inr (
        e,
        elim (Option-cases r.corrected) [
          | inl missing ↦ missing
          | inr (c, is) ↦ absurd (ground arith)
        ],
        ground arith,
      )
    ],
    back,
  )
    where
      back : CorrectsIf parse r → check_correction parse r ≡ none
      back (inl (e, uuid, (c, is, ok))) = let good = IsReplacement-corrected c ok in ground arith
      back (inr (e, is, blank)) = ground arith

  all-Parses : (l : List (Text × Text)) → (all fine l ≡ true) ↔ All (λ t. Parses t.1) l
  all-Parses [] = (λ h. tt, λ h. refl)
  all-Parses (t ∷ l) = (
    λ h. ((fine-Parses t).0 (ground arith), (all-Parses l).0 (ground arith)),
    λ h. rw ((fine-Parses t).1 h.0) ((all-Parses l).1 h.1),
  )

  -- A command is accepted, in whichever order its four times are visited, exactly if it has a UUID, a
  -- key of 1 to 128 bytes that is not blank, a version that is not negative, a type of the closed
  -- set, a reason of at most 500 bytes, times that parse where they are given, and is either a
  -- correction with a superseded transition and a replacement that is no correction and has a time
  -- that parses, or no correction and carries neither.
  pub validate_command_iff :
      (visit : List (Text × Text) → List (Text × Text)) (r : CommandRequest)
      → Perm (visit (command_times r)) (command_times r)
      → (validate_command parse visit r ≡ none) ↔ IsCommand r
  unfolding validate_command is_blank command_times
  validate_command_iff visit r order = (
    λ h.
        let checked = (check_times-all (visit (command_times r))).0 (ground arith) in
        let times = (all-Parses (command_times r)).0 (sym (all-Perm fine order) ∙ checked) in
        record {
          identified = ground arith;
          keyed = is_empty-ne (trim_space r.idempotency_key) (ground arith);
          key_short = ground arith;
          version = ground arith;
          typed = ground arith;
          reason_short = ground arith;
          occurred = times.0;
          boundary = times.1.0;
          starts = times.1.1.0;
          ends = times.1.1.1.0;
          corrects = (check_correction-CorrectsIf r).0 (ground arith);
        },
    λ c.
        let checked =
          (all-Parses (command_times r)).1 (c.occurred, (c.boundary, (c.starts, (c.ends, tt)))) in
        let times = (check_times-all (visit (command_times r))).1 (all-Perm fine order ∙ checked) in
        let key = is_empty_complete (trim_space r.idempotency_key) c.keyed in
        let corrects = (check_correction-CorrectsIf r).1 c.corrects in
        ground (arith, c.identified, c.key_short, c.version, c.typed, c.reason_short),
  )

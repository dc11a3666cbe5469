-- ===== src/Event/Environment.antt =====
-- The declared environment of an event: which values `validateEnvironmentValue` lets through.
use custd_sdk_go.Base.{
  Bool-cases, is_empty_sound, text_eq_iff, ◌≢◌, All, Text, [], all, arith, false, inl, inr,
  is_empty, is_space, length, none, refl, reverse, text_eq, text_eq_refl, trim_left, trim_space,
  true, ℕ, ◌++◌, ◌==◌, ◌||◌, ◌↔◌, ◌∷◌, ◌≡◌, ◌≤◌, ◌⊎◌,
}
use mathlib.Core.List.{reverse-cons, reverse-reverse}
use custd_sdk_go.Pattern.{environment_matches, is_lower, is_lower_digit}
use custd_sdk_go.Event.{validate_environment_value, unclassified_environment}

-- Trimming leaves a text alone that starts and ends with no space.
trim_left_id : (c : ℕ) (s : Text) → is_space c ≡ false → trim_left (c ∷ s) ≡ c ∷ s
unfolding trim_left
trim_left_id c s h = rw h

abbrev NoSpaces : Text → Type 0
NoSpaces = All (λ c. is_space c ≡ false)

trim_left-NoSpaces : (s : Text) → NoSpaces s → trim_left s ≡ s
trim_left-NoSpaces [] h = unfold trim_left in refl
trim_left-NoSpaces (c ∷ s) h = trim_left_id c s h.0

NoSpaces-append : (s t : Text) → NoSpaces s → NoSpaces t → NoSpaces (s ++ t)
NoSpaces-append [] t h k = k
NoSpaces-append (c ∷ s) t h k = (h.0, NoSpaces-append s t h.1 k)

NoSpaces-reverse : (s : Text) → NoSpaces s → NoSpaces (reverse s)
NoSpaces-reverse [] h = tt
NoSpaces-reverse (c ∷ s) h =
    rw (reverse-cons c s) (NoSpaces-append (reverse s) (c ∷ []) (NoSpaces-reverse s h.1) (h.0, tt))

pub trim_space-NoSpaces : (s : Text) → NoSpaces s → trim_space s ≡ s
unfolding trim_space
trim_space-NoSpaces s h =
    rw (trim_left-NoSpaces s h, trim_left-NoSpaces (reverse s) (NoSpaces-reverse s h))
      (reverse-reverse s)

environment_char : (c : ℕ) → (is_lower_digit c || c == b'-') ≡ true → is_space c ≡ false
unfolding is_lower_digit is_space
environment_char c h = ground arith

all-NoSpaces : (s : Text) → all (λ d. is_lower_digit d || d == b'-') s ≡ true → NoSpaces s
all-NoSpaces [] h = tt
all-NoSpaces (c ∷ s) h = (environment_char c (ground arith), all-NoSpaces s (ground arith))

lower-not_space : (c : ℕ) → is_lower c ≡ true → is_space c ≡ false
unfolding is_lower is_space
lower-not_space c h = ground arith

environment-NoSpaces : (s : Text) → environment_matches s ≡ true → NoSpaces s
unfolding environment_matches
environment-NoSpaces [] h = cc
environment-NoSpaces (c ∷ s) h = (lower-not_space c (ground arith), all-NoSpaces s (ground arith))

-- `[a-z0-9-]`
abbrev pub IsNameChar : ℕ → Type 0
IsNameChar c = ((b'a' ≤ c) × (c ≤ b'z')) ⊎ (((b'0' ≤ c) × (c ≤ b'9')) ⊎ (c ≡ b'-'))

-- A lowercase letter and at most 31 lowercase letters, digits and hyphens.
pub record IsEnvironmentName (v : Text) : Type 0 where
  pub first : ℕ
  pub others : Text
  pub spelled : v ≡ first ∷ others
  pub letter : (b'a' ≤ first) × (first ≤ b'z')
  pub named : All IsNameChar others
  pub short : length others ≤ 31

IsNameChar-iff : (c : ℕ) → ((is_lower_digit c || c == b'-') ≡ true) ↔ IsNameChar c
unfolding is_lower_digit
IsNameChar-iff c = (λ h. ground arith, λ h. ground arith)

IsNameChar-all : (s : Text) → all (λ d. is_lower_digit d || d == b'-') s ≡ true → All IsNameChar s
IsNameChar-all [] h = tt
IsNameChar-all (c ∷ s) h = ((IsNameChar-iff c).0 (ground arith), IsNameChar-all s (ground arith))

all-IsNameChar : (s : Text) → All IsNameChar s → all (λ d. is_lower_digit d || d == b'-') s ≡ true
all-IsNameChar [] h = refl
all-IsNameChar (c ∷ s) h = rw ((IsNameChar-iff c).1 h.0) (all-IsNameChar s h.1)

environment_matches_iff : (v : Text) → (environment_matches v ≡ true) ↔ IsEnvironmentName v
unfolding environment_matches is_lower
environment_matches_iff v = (sound v, complete v)
  where
    sound : (v : Text) → environment_matches v ≡ true → IsEnvironmentName v
    sound [] h = cc
    sound (c ∷ s) h = record {
      first = c;
      others = s;
      spelled = refl;
      letter = (ground arith, ground arith);
      named = IsNameChar-all s (ground arith);
      short = ground arith;
    }

    complete : (v : Text) → IsEnvironmentName v → environment_matches v ≡ true
    complete v n =
        let every = all-IsNameChar n.others n.named in
        rw n.spelled (ground (arith, n.letter, n.short))

-- What an event may declare: nothing, or a name other than the one that reports reserve.
abbrev pub IsEnvironment : Text → Type 0
IsEnvironment v = (v ≡ []) ⊎ (IsEnvironmentName v × (v ≢ unclassified_environment))

-- A declared environment is accepted exactly if it is empty, or a lowercase letter followed by at
-- most 31 lowercase letters, digits and hyphens other than the reserved name: the test against the
-- trimmed value refuses nothing more.
pub validate_environment_value_iff :
    (v : Text) → (validate_environment_value v ≡ none) ↔ IsEnvironment v
unfolding validate_environment_value
validate_environment_value_iff v = (sound, complete)
  where
    sound : validate_environment_value v ≡ none → IsEnvironment v
    sound h = elim (Bool-cases (is_empty v)) [
      | inl e ↦ inl (is_empty_sound v e)
      | inr e ↦ inr (
        (environment_matches_iff v).0 (ground arith),
        λ r. let same = (text_eq_iff v unclassified_environment).1 r in absurd (ground arith),
      )
    ]

    complete : IsEnvironment v → validate_environment_value v ≡ none
    complete (inl e) = rw e (unfold is_empty in refl)
    complete (inr (n, r)) =
        let m = (environment_matches_iff v).1 n in
        let trimmed : text_eq v (trim_space v) ≡ true =
          rw (trim_space-NoSpaces v (environment-NoSpaces v m)) (text_eq_refl v) in
        elim (Bool-cases (text_eq v unclassified_environment)) [
          | inl reserved ↦ absurd (r ((text_eq_iff v unclassified_environment).0 reserved))
          | inr free ↦ ground arith
        ]

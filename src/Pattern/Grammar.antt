-- ===== src/Pattern/Grammar.antt =====
-- The label key pattern as a grammar, and the recogniser decides it.
use custd_sdk_go.Base.{Bool-cases, Text, [], arith, false, inl, inr, refl, true, ℕ, ◌↔◌, ◌∷◌, ◌≡◌}
use custd_sdk_go.Pattern.{is_lower, is_lower_digit, is_separator, label_key_rest, label_key_matches}

-- `[a-z0-9]*(?:[._-][a-z0-9]+)*`
pub data KeyRest : Text → Type 0 where
  done : KeyRest []
  char : {c : ℕ} {s : Text} → is_lower_digit c ≡ true → KeyRest s → KeyRest (c ∷ s)
  section :
      {c d : ℕ} {s : Text}
      → is_separator c ≡ true
      → is_lower_digit d ≡ true
      → KeyRest s
      → KeyRest (c ∷ d ∷ s)

-- A lowercase letter, then sections of lowercase letters and digits with one separator between.
pub data LabelKey : Text → Type 0 where
  key : {c : ℕ} {s : Text} → is_lower c ≡ true → KeyRest s → LabelKey (c ∷ s)

separator_not_alnum : (c : ℕ) → is_separator c ≡ true → is_lower_digit c ≡ false
unfolding is_separator is_lower_digit
separator_not_alnum c h = ground arith

-- After a separator comes a character of a section.
rest_sound : (s : Text) → label_key_rest false s ≡ true → KeyRest s
unfolding label_key_rest
rest_sound [] h = done
rest_sound (c ∷ []) h = elim (Bool-cases (is_lower_digit c)) [
  | inl e ↦ char e done
  | inr e ↦ absurd (ground arith)
]
rest_sound (c ∷ d ∷ s) h = elim (Bool-cases (is_lower_digit c)) [
  | inl e ↦ char e (rest_sound (d ∷ s) (ground arith))
  | inr e ↦ elim (Bool-cases (is_lower_digit d)) [
    | inl f ↦ section (ground arith) f (rest_sound s (ground arith))
    | inr f ↦ absurd (ground arith)
  ]
]

rest_complete : {s : Text} → KeyRest s → label_key_rest false s ≡ true
unfolding label_key_rest
rest_complete done = refl
rest_complete (char e r) = rw (e, rest_complete r)
rest_complete (section {c} e f r) = rw (separator_not_alnum c e, e, f, rest_complete r)

-- The recogniser accepts exactly the keys of the grammar.
pub label_key_matches_iff : (s : Text) → (label_key_matches s ≡ true) ↔ LabelKey s
unfolding label_key_matches
label_key_matches_iff s = (sound s, complete)
  where
    sound : (s : Text) → label_key_matches s ≡ true → LabelKey s
    sound [] h = cc
    sound (c ∷ s) h = key (ground arith) (rest_sound s (ground arith))

    complete : {s : Text} → LabelKey s → label_key_matches s ≡ true
    complete (key e r) = rw (e, rest_complete r)

-- ===== src/Url/Plain.antt =====
-- `strings.Split` and `strings.Cut` at a character that the parts do not have.
use custd_sdk_go.Base.{ℕ, List, [], ◌∷◌, ◌++◌, true, false, Text, All, ◌≡◌, refl, arith, ◌==◌, any}
use custd_sdk_go.Url.Reading.{cut, split_on, extend_first}

abbrev pub IsPlain : ℕ → Text → Type 0
IsPlain separator s = All (λ c. (c == separator) ≡ false) s

pub any-false-IsPlain :
    (separator : ℕ) (s : Text) → any (λ c. c == separator) s ≡ false → IsPlain separator s
any-false-IsPlain separator [] h = tt
any-false-IsPlain separator (c ∷ s) h = (ground arith, any-false-IsPlain separator s (ground arith))

pub any-IsPlain :
    (separator : ℕ) (s : Text) → IsPlain separator s → any (λ c. c == separator) s ≡ false
any-IsPlain separator [] h = refl
any-IsPlain separator (c ∷ s) h = rw (h.0) (any-IsPlain separator s h.1)

pub split_on-IsPlain :
    (separator : ℕ) (s : Text) → IsPlain separator s → split_on separator s ≡ s ∷ []
unfolding split_on extend_first
split_on-IsPlain separator [] h = refl
split_on-IsPlain separator (c ∷ s) h = rw (split_on-IsPlain separator s h.1, h.0) refl

pub split_on-append :
    (separator : ℕ) (s t : Text)
    → IsPlain separator s
    → split_on separator (s ++ separator ∷ t) ≡ s ∷ split_on separator t
unfolding split_on extend_first
split_on-append separator [] t h =
    let same : (separator == separator) ≡ true = ground arith in rw same refl
split_on-append separator (c ∷ s) t h = rw (split_on-append separator s t h.1, h.0) refl

-- What stands in front of a text that begins with a separator is the first part.
pub split_on-prefix :
    (separator : ℕ) (s t : Text) (parts : List Text)
    → IsPlain separator s
    → split_on separator t ≡ [] ∷ parts
    → split_on separator (s ++ t) ≡ s ∷ parts
unfolding split_on extend_first
split_on-prefix separator [] t parts h e = e
split_on-prefix separator (c ∷ s) t parts h e =
    rw (split_on-prefix separator s t parts h.1 e, h.0) refl

pub cut-append :
    (separator : ℕ) (s t : Text) → IsPlain separator s → cut separator (s ++ separator ∷ t) ≡ (s, t)
unfolding cut
cut-append separator [] t h =
    let same : (separator == separator) ≡ true = ground arith in rw same refl
cut-append separator (c ∷ s) t h = rw (cut-append separator s t h.1, h.0) refl

pub cut-IsPlain : (separator : ℕ) (s : Text) → IsPlain separator s → cut separator s ≡ (s, [])
unfolding cut
cut-IsPlain separator [] h = refl
cut-IsPlain separator (c ∷ s) h = rw (cut-IsPlain separator s h.1, h.0) refl

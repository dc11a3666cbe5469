-- ===== src/Url/Utf8.antt =====
-- UTF-8 is read back.
use mathlib.Core.Option
use custd_sdk_go.Base.{
  ℕ, ◌+◌, ◌-◌, ◌*◌, ◌/◌, ◌%◌, ◌<◌, List, [], ◌∷◌, ◌++◌, Bool, true, false, Bool-cases, ◌&&◌, inl,
  inr, some, Text, All, All-append, ◌≡◌, refl, ap, arith, ltb,
}
use custd_sdk_go.Url.{utf8, utf8_bytes, utf8_text}

-- A text of code points.
abbrev pub IsText : Text → Type 0
IsText s = All (λ c. c < 0x110000) s

-- A test for it.
unfoldable pub is_text : Text → Bool
is_text [] = true
is_text (c ∷ s) = ltb c 0x110000 && is_text s

pub is_text-IsText : (s : Text) → is_text s ≡ true → IsText s
unfolding is_text
is_text-IsText [] h = tt
is_text-IsText (c ∷ s) h = (ground arith, is_text-IsText s (ground arith))

unfoldable pub are_texts : List Text → Bool
unfolding is_text
are_texts [] = true
are_texts (s ∷ ss) = is_text s && are_texts ss

pub are_texts-IsText : (ss : List Text) → are_texts ss ≡ true → All IsText ss
unfolding are_texts
are_texts-IsText [] h = tt
are_texts-IsText (s ∷ ss) h = (is_text-IsText s (ground arith), are_texts-IsText ss (ground arith))

two_bytes : (c : ℕ) → (0xc0 + c / 64 - 0xc0) * 64 + (0x80 + c % 64 - 0x80) ≡ c
two_bytes c = omega arith

three_bytes :
    (c : ℕ)
    → ((0xe0 + c / 4096 - 0xe0) * 64 + (0x80 + c / 64 % 64 - 0x80)) * 64 + (0x80 + c % 64 - 0x80)
      ≡ c
three_bytes c = omega arith

four_bytes :
    (c : ℕ)
    → (((0xf0 + c / 262144 - 0xf0) * 64 + (0x80 + c / 4096 % 64 - 0x80)) * 64
            + (0x80 + c / 64 % 64 - 0x80))
          * 64
        + (0x80 + c % 64 - 0x80)
      ≡ c
four_bytes c = omega arith

utf8_text-utf8 :
    (c : ℕ) (bs : List ℕ)
    → utf8_text 0 0 (utf8 c ++ bs) ≡ Option.map (λ s. c ∷ s) (utf8_text 0 0 bs)
unfolding utf8_text utf8
utf8_text-utf8 c bs = elim (Bool-cases (ltb c 0x80)) [
  | inl one ↦ rw (one, one) refl
  | inr more ↦ elim (Bool-cases (ltb c 0x800)) [
    | inl two ↦
        let low : ltb (0xc0 + c / 64) 0x80 ≡ false = ground arith in
        let high : ltb (0xc0 + c / 64) 0xe0 ≡ true = ground arith in
        rw (more, two, low, high)
          (ap (λ n. Option.map (λ s. n ∷ s) (utf8_text 0 0 bs)) (two_bytes c))
    | inr more' ↦ elim (Bool-cases (ltb c 0x10000)) [
      | inl three ↦
          let low : ltb (0xe0 + c / 4096) 0x80 ≡ false = ground arith in
          let mid : ltb (0xe0 + c / 4096) 0xe0 ≡ false = ground arith in
          let high : ltb (0xe0 + c / 4096) 0xf0 ≡ true = ground arith in
          rw (more, more', three, low, mid, high)
            (ap (λ n. Option.map (λ s. n ∷ s) (utf8_text 0 0 bs)) (three_bytes c))
      | inr more'' ↦
          let low : ltb (0xf0 + c / 262144) 0x80 ≡ false = ground arith in
          let mid : ltb (0xf0 + c / 262144) 0xe0 ≡ false = ground arith in
          let high : ltb (0xf0 + c / 262144) 0xf0 ≡ false = ground arith in
          rw (more, more', more'', low, mid, high)
            (ap (λ n. Option.map (λ s. n ∷ s) (utf8_text 0 0 bs)) (four_bytes c))
    ]
  ]
]

utf8-All : (c : ℕ) → c < 0x110000 → All (λ b. b < 256) (utf8 c)
unfolding utf8
utf8-All c h = elim (Bool-cases (ltb c 0x80)) [
  | inl one ↦ rw one (ground arith, tt)
  | inr more ↦ elim (Bool-cases (ltb c 0x800)) [
    | inl two ↦ rw (more, two) (ground arith, (ground arith, tt))
    | inr more' ↦ elim (Bool-cases (ltb c 0x10000)) [
      | inl three ↦ rw (more, more', three) (ground arith, (ground arith, (ground arith, tt)))
      | inr more'' ↦
          rw (more, more', more'')
            (ground arith, (ground arith, (ground arith, (ground arith, tt))))
    ]
  ]
]

pub utf8_bytes-All : (s : Text) → IsText s → All (λ b. b < 256) (utf8_bytes s)
unfolding utf8_bytes
utf8_bytes-All [] h = tt
utf8_bytes-All (c ∷ s) h =
    All-append (λ b. b < 256) (utf8 c) (utf8_bytes s) (utf8-All c h.0) (utf8_bytes-All s h.1)

-- The bytes of a text are read as that text.
pub utf8_text-utf8_bytes : (s : Text) → utf8_text 0 0 (utf8_bytes s) ≡ some s
unfolding utf8_bytes utf8_text
utf8_text-utf8_bytes [] = refl
utf8_text-utf8_bytes (c ∷ s) = rw (utf8_text-utf8 c (utf8_bytes s), utf8_text-utf8_bytes s) refl

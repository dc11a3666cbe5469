-- ===== src/Base/Decimal.antt =====
-- `strconv.Itoa` and `fmt.Sprintf("%d", …)` on a number that is not negative, the digits half of
-- `strconv.ParseInt` in base 10, and their round trip.
use Prim.Native.Nat.{ℕ, zero, suc, ◌+◌, ◌-◌, ◌*◌, ◌/◌, ◌%◌, ◌<◌}
use mathlib.Core.Path.{◌≡◌, refl, ◌∙◌, ap, sym}
use mathlib.Core.Logic.{inl, inr}
use mathlib.Core.Bool.{Bool, true, false, ◌&&◌}
use mathlib.Core.List.{[], ◌∷◌, ◌++◌}
use mathlib.Core.Option.{Option, none, some}
use native.Mathlib.Omega.{arith}
use custd_sdk_go.Base.Tests.{ltb, leb, if◌then◌else◌, Bool-cases}
use custd_sdk_go.Base.Lists.{all}
use custd_sdk_go.Base.Texts.{Text}
use custd_sdk_go.Base.Int.{ℤ, pos, negsuc}

-- The fuel bounds the number of digits.
unfoldable pub digits : ℕ → ℕ → Text
digits zero n = []
digits (suc f) n = elim (ltb n 10) [
  | true ↦ (48 + n) ∷ []
  | false ↦ digits f (n / 10) ++ (48 + n % 10) ∷ []
]

unfoldable pub itoa : ℕ → Text
unfolding digits
itoa n = digits (suc n) n

-- `strconv.FormatInt(value, 10)`, as `%d` prints it.
unfoldable pub format_int : ℤ → Text
format_int (pos n) = itoa n
format_int (negsuc n) = b'-' ∷ itoa (suc n)

unfoldable pub parse_from : ℕ → Text → Option ℕ
parse_from acc [] = some acc
parse_from acc (c ∷ s) =
    let rest = parse_from (acc * 10 + (c - 48)) s in if leb 48 c && leb c 57 then rest else none

-- An empty text is no number.
unfoldable pub parse_digits : Text → Option ℕ
unfolding parse_from
parse_digits [] = none
parse_digits (c ∷ s) = parse_from 0 (c ∷ s)

all-snoc :
    (p : ℕ → Bool) (s : Text) (c : ℕ) → all p s ≡ true → p c ≡ true → all p (s ++ c ∷ []) ≡ true
all-snoc p [] c h k = rw k
all-snoc p (d ∷ s) c h k = ground (arith, all-snoc p s c)

parse_from-snoc :
    (s : Text) (acc m d : ℕ)
    → d < 10
    → parse_from acc s ≡ some m
    → parse_from acc (s ++ (48 + d) ∷ []) ≡ some (m * 10 + d)
unfolding parse_from
parse_from-snoc [] acc m d h e = ground arith
parse_from-snoc (c ∷ s) acc m d h e = ground (arith, parse_from-snoc s (acc * 10 + (c - 48)) m d h)

parse_from-digits : (f n : ℕ) → n < f → parse_from 0 (digits f n) ≡ some n
unfolding digits
parse_from-digits zero n h = elim h [ ]
parse_from-digits (suc f) n h = elim (Bool-cases (ltb n 10)) [
  | inl small ↦
      rw (small, digits)
        (parse_from-snoc [] 0 0 n (ground arith) (unfold parse_from in refl)
          ∙ ap some (omega arith))
  | inr more ↦
      rw (more, digits)
        (parse_from-snoc (digits f (n / 10)) 0 (n / 10) (n % 10) (omega arith)
            (parse_from-digits f (n / 10) (ground arith))
          ∙ ap some (omega arith))
]

digits-cons : (f n : ℕ) → n < f → (c : ℕ) × (s : Text) × (digits f n ≡ c ∷ s)
unfolding digits
digits-cons zero n h = elim h [ ]
digits-cons (suc f) n h = elim (Bool-cases (ltb n 10)) [
  | inl small ↦ (48 + n, [], rw (small, digits))
  | inr more ↦
      let (c, s, e) = digits-cons f (n / 10) (ground arith) in
      (c, s ++ (48 + n % 10) ∷ [], rw (more, digits) (ap (λ t. t ++ (48 + n % 10) ∷ []) e))
]

-- Printing and reading back.
pub parse_digits-itoa : (n : ℕ) → parse_digits (itoa n) ≡ some n
unfolding itoa parse_digits
parse_digits-itoa n =
    let (c, s, e) = digits-cons (suc n) n (omega arith) in
    let read = parse_from-digits (suc n) n (omega arith) in
    ap parse_digits e ∙ ap (parse_from 0) (sym e) ∙ read

-- The printed digits, and nothing else.
digits-all : (f n : ℕ) → all (λ c. leb 48 c && leb c 57) (digits f n) ≡ true
unfolding digits
digits-all zero n = refl
digits-all (suc f) n = elim (Bool-cases (ltb n 10)) [
  | inl small ↦ rw (small, digits) (ground arith)
  | inr more ↦
      rw (more, digits)
        (all-snoc (λ c. leb 48 c && leb c 57) (digits f (n / 10)) (48 + n % 10)
          (digits-all f (n / 10)) (ground arith))
]

pub itoa-all : (n : ℕ) → all (λ c. leb 48 c && leb c 57) (itoa n) ≡ true
unfolding itoa
itoa-all n = digits-all (suc n) n

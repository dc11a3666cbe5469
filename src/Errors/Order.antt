-- ===== src/Errors/Order.antt =====
-- Sorting: the text of a problem does not depend on the order in which a map is visited.
use custd_sdk_go.Base.{
  Text, Bool-cases, true, false, List, [], ◌∷◌, ◌≡◌, refl, ap, ap₂, ◌∙◌, arith, inl, inr, map,
  codes, ==_iff, ◌==◌,
}
use mathlib.Core.List.{Perm, Permᴰ}
use mathlib.Core.Logic.{∥∥₁_elim}
use custd_sdk_go.Errors.{Problem}
use custd_sdk_go.Errors.Rendering.{
  text_leb, insert_sorted, sort_strings, join, field_part, format_fields, problem_error, has_fields,
}

pub text_leb_total : (s t : Text) → text_leb s t ≡ false → text_leb t s ≡ true
unfolding text_leb
text_leb_total [] t h = absurd (ground arith)
text_leb_total (c ∷ s) [] h = refl
text_leb_total (c ∷ s) (d ∷ t) h = ground (arith, text_leb_total s t)

pub text_leb_antisym : (s t : Text) → text_leb s t ≡ true → text_leb t s ≡ true → s ≡ t
unfolding text_leb
text_leb_antisym [] [] h k = refl
text_leb_antisym [] (d ∷ t) h k = absurd (ground arith)
text_leb_antisym (c ∷ s) [] h k = absurd (ground arith)
text_leb_antisym (c ∷ s) (d ∷ t) h k = elim (Bool-cases (c == d)) [
  | inl e ↦
      let first = ==_iff c d in
      ap₂ (λ x y. x ∷ y) (first.0 e) (text_leb_antisym s t (ground arith) (ground arith))
  | inr e ↦ absurd (ground arith)
]

pub text_leb_trans :
    (s t u : Text) → text_leb s t ≡ true → text_leb t u ≡ true → text_leb s u ≡ true
unfolding text_leb
text_leb_trans [] t u h k = refl
text_leb_trans (c ∷ s) [] u h k = absurd (ground arith)
text_leb_trans (c ∷ s) (d ∷ t) [] h k = absurd (ground arith)
text_leb_trans (c ∷ s) (d ∷ t) (e ∷ u) h k = ground (arith, text_leb_trans s t u)

insert_sorted-swap :
    (s t : Text) (l : List Text)
    → insert_sorted s (insert_sorted t l) ≡ insert_sorted t (insert_sorted s l)
unfolding insert_sorted
insert_sorted-swap s t [] =
    ground (arith, text_leb_total s t, text_leb_total t s, text_leb_antisym s t)
insert_sorted-swap s t (u ∷ l) = ground (
  arith,
  text_leb_total s t,
  text_leb_total t s,
  text_leb_total s u,
  text_leb_total t u,
  text_leb_antisym s t,
  text_leb_trans s t u,
  text_leb_trans t s u,
  text_leb_trans t u s,
  text_leb_trans s u t,
  insert_sorted-swap s t l,
)

sort_strings-Permᴰ : {xs ys : List Text} → Permᴰ xs ys → sort_strings xs ≡ sort_strings ys
unfolding sort_strings
sort_strings-Permᴰ Permᴰ.nil = refl
sort_strings-Permᴰ (Permᴰ.cons e d) = rw (e, sort_strings-Permᴰ d) refl
sort_strings-Permᴰ (Permᴰ.swap {a} {b} {l = l} e f) =
    rw (← e, ← f) (insert_sorted-swap a b (sort_strings l))
sort_strings-Permᴰ (Permᴰ.trans d e) = sort_strings-Permᴰ d ∙ sort_strings-Permᴰ e

format_fields-Permᴰ :
    {fs gs : List (Text × Text)} → Permᴰ fs gs → format_fields fs ≡ format_fields gs
unfolding format_fields
format_fields-Permᴰ d = ap (join (codes ", ")) (sort_strings-Permᴰ (parts d))
  where
    parts :
        {fs gs : List (Text × Text)} → Permᴰ fs gs → Permᴰ (map field_part fs) (map field_part gs)
    parts Permᴰ.nil = Permᴰ.nil
    parts (Permᴰ.cons e d) = Permᴰ.cons (ap field_part e) (parts d)
    parts (Permᴰ.swap e f) = Permᴰ.swap (ap field_part e) (ap field_part f)
    parts (Permᴰ.trans d e) = Permᴰ.trans (parts d) (parts e)

has_fields-Permᴰ : {fs gs : List (Text × Text)} → Permᴰ fs gs → has_fields fs ≡ has_fields gs
unfolding has_fields
has_fields-Permᴰ Permᴰ.nil = refl
has_fields-Permᴰ (Permᴰ.cons e d) = refl
has_fields-Permᴰ (Permᴰ.swap e f) = refl
has_fields-Permᴰ (Permᴰ.trans d e) = has_fields-Permᴰ d ∙ has_fields-Permᴰ e

text_set : IsSet Text
text_set = hlevel

-- The text of a problem is the same in whichever order the map of field errors is visited.
pub problem_error-Perm :
    (p : Problem) (fs gs : List (Text × Text))
    → Perm fs gs
    → problem_error (record p { fields = fs }) ≡ problem_error (record p { fields = gs })
unfolding problem_error
problem_error-Perm p fs gs h =
    ∥∥₁_elim h (text_set _ _) (λ d. rw (format_fields-Permᴰ d, has_fields-Permᴰ d) refl)

-- ===== src/Setup/Scopes.antt =====
-- The scopes as they are sent.
use custd_sdk_go.Base.{
  All, Bool, Bool-cases, List, Text, [], arith, false, inl, inr, not, refl, true, ◌∷◌, ◌≡◌, ap, sym,
  subst, ◌∙◌, is_empty, text_eq, text_eq_refl, text_eq_iff, trim_space, ◌||◌, ◌&&◌, if◌then◌else◌,
}
use custd_sdk_go.Errors.Rendering.{text_leb, insert_sorted, sort_strings}
use custd_sdk_go.Errors.Order.{text_leb_antisym, text_leb_trans}
use custd_sdk_go.Setup.{is_member, collect_scopes, or_default_scope, normalize_scopes}

is_member-insert_sorted :
    (x s : Text) (l : List Text) → is_member x (insert_sorted s l) ≡ (text_eq x s || is_member x l)
unfolding is_member insert_sorted
is_member-insert_sorted x s [] = refl
is_member-insert_sorted x s (t ∷ l) = ground (arith, is_member-insert_sorted x s l)

is_member-sort_strings : (x : Text) (l : List Text) → is_member x (sort_strings l) ≡ is_member x l
unfolding is_member sort_strings
is_member-sort_strings x [] = refl
is_member-sort_strings x (s ∷ l) =
    is_member-insert_sorted x s (sort_strings l) ∙ ground (arith, is_member-sort_strings x l)

-- Each text stands before greater ones only, so none stands twice.
abbrev pub IsIncreasing : List Text → Type 0
IsIncreasing [] = Unit {0}
IsIncreasing (s ∷ l) = All (λ t. text_leb t s ≡ false) l × IsIncreasing l

abbrev IsDistinct : List Text → Type 0
IsDistinct [] = Unit {0}
IsDistinct (s ∷ l) = (is_member s l ≡ false) × IsDistinct l

above_all :
    (s t : Text) (l : List Text)
    → text_leb s t ≡ true
    → All (λ u. text_leb u t ≡ false) l
    → All (λ u. text_leb u s ≡ false) l
above_all s t [] h a = tt
above_all s t (u ∷ l) h (first, rest) =
    let trans = text_leb_trans u s t in (ground arith, above_all s t l h rest)

above_insert :
    (s t : Text) (l : List Text)
    → text_leb s t ≡ false
    → All (λ u. text_leb u t ≡ false) l
    → All (λ u. text_leb u t ≡ false) (insert_sorted s l)
unfolding insert_sorted
above_insert s t [] h a = (h, tt)
above_insert s t (u ∷ l) h (first, rest) = elim (Bool-cases (text_leb s u)) [
  | inl le ↦ rw le (h, (first, rest))
  | inr gt ↦ rw gt (first, above_insert s t l h rest)
]

insert_sorted-IsIncreasing :
    (s : Text) (l : List Text)
    → is_member s l ≡ false
    → IsIncreasing l
    → IsIncreasing (insert_sorted s l)
unfolding insert_sorted is_member
insert_sorted-IsIncreasing s [] m i = (tt, tt)
insert_sorted-IsIncreasing s (t ∷ l) m (above, rest) = elim (Bool-cases (text_leb s t)) [
  | inl le ↦
      let differs : text_leb t s ≡ false = ground (arith, text_leb_antisym s t, text_eq_iff s t) in
      rw le ((differs, above_all s t l le above), (above, rest))
  | inr gt ↦ rw gt (above_insert s t l gt above, insert_sorted-IsIncreasing s l (ground arith) rest)
]

sort_strings-IsIncreasing : (l : List Text) → IsDistinct l → IsIncreasing (sort_strings l)
unfolding sort_strings
sort_strings-IsIncreasing [] d = tt
sort_strings-IsIncreasing (s ∷ l) (fresh, rest) =
    insert_sorted-IsIncreasing s (sort_strings l) (is_member-sort_strings s l ∙ fresh)
      (sort_strings-IsIncreasing l rest)

-- The scopes that the caller names, trimmed.
abbrev pub named : List Text → List Text
named [] = []
named (scope ∷ scopes) =
    let rest = named scopes in if is_empty (trim_space scope) then rest else trim_space scope ∷ rest

same_member : (x t : Text) (l : List Text) → text_eq x t ≡ true → is_member x l ≡ is_member t l
same_member x t l same = ap (λ u. is_member u l) ((text_eq_iff x t).0 same)

collect_skip :
    (seen : List Text) (scope : Text) (scopes : List Text)
    → (is_empty (trim_space scope) || is_member (trim_space scope) seen) ≡ true
    → collect_scopes seen (scope ∷ scopes) ≡ collect_scopes seen scopes
unfolding collect_scopes
collect_skip seen scope scopes e = rw (collect_scopes, e) refl

collect_take :
    (seen : List Text) (scope : Text) (scopes : List Text)
    → (is_empty (trim_space scope) || is_member (trim_space scope) seen) ≡ false
    → collect_scopes seen (scope ∷ scopes)
      ≡ trim_space scope ∷ collect_scopes (trim_space scope ∷ seen) scopes
unfolding collect_scopes
collect_take seen scope scopes e = rw (collect_scopes, e) refl

is_member-collect_scopes :
    (x : Text) (seen scopes : List Text)
    → is_member x (collect_scopes seen scopes)
      ≡ (is_member x (named scopes) && not (is_member x seen))
unfolding collect_scopes is_member
is_member-collect_scopes x seen [] = refl
is_member-collect_scopes x seen (scope ∷ scopes) =
    let t = trim_space scope in
    let skipped = is_member-collect_scopes x seen scopes in
    let taken = is_member-collect_scopes x (t ∷ seen) scopes in
    let same = same_member x t seen in
    elim (Bool-cases (is_empty t || is_member t seen)) [
      | inl skip ↦ ap (is_member x) (collect_skip seen scope scopes skip) ∙ skipped ∙ ground arith
      | inr take ↦ ap (is_member x) (collect_take seen scope scopes take) ∙ ground arith
    ]

no_self : (t : Text) (seen : List Text) (b : Bool) → (b && not (is_member t (t ∷ seen))) ≡ false
unfolding is_member
no_self t seen b = rw (text_eq_refl t) (ground arith)

collect_scopes-IsDistinct : (seen scopes : List Text) → IsDistinct (collect_scopes seen scopes)
unfolding collect_scopes
collect_scopes-IsDistinct seen [] = tt
collect_scopes-IsDistinct seen (scope ∷ scopes) =
    let t = trim_space scope in
    elim (Bool-cases (is_empty t || is_member t seen)) [
      | inl skip ↦
          subst IsDistinct (sym (collect_skip seen scope scopes skip))
            (collect_scopes-IsDistinct seen scopes)
      | inr take ↦ subst IsDistinct (sym (collect_take seen scope scopes take)) (
        is_member-collect_scopes t (t ∷ seen) scopes ∙ no_self t seen (is_member t (named scopes)),
        collect_scopes-IsDistinct (t ∷ seen) scopes,
      )
    ]

-- The scopes that the caller names, or the one that stands for none.
abbrev pub wanted : List Text → List Text
wanted scopes = or_default_scope (named scopes)

or_default-members :
    (l m : List Text)
    → ((x : Text) → is_member x l ≡ is_member x m)
    → (x : Text) → is_member x (or_default_scope l) ≡ is_member x (or_default_scope m)
unfolding or_default_scope is_member
or_default-members [] [] same x = refl
or_default-members [] (t ∷ m) same x =
    let here = same t in let itself = text_eq_refl t in absurd (ground arith)
or_default-members (s ∷ l) [] same x =
    let here = same s in let itself = text_eq_refl s in absurd (ground arith)
or_default-members (s ∷ l) (t ∷ m) same x = same x

or_default-IsDistinct : (l : List Text) → IsDistinct l → IsDistinct (or_default_scope l)
unfolding or_default_scope is_member
or_default-IsDistinct [] d = (refl, tt)
or_default-IsDistinct (s ∷ l) d = d

all_collected :
    (scopes : List Text) (x : Text)
    → is_member x (collect_scopes [] scopes) ≡ is_member x (named scopes)
unfolding is_member
all_collected scopes x = is_member-collect_scopes x [] scopes ∙ ground arith

-- The scopes that are sent are in strictly increasing order, so none is sent twice, and they are
-- those that the caller names, trimmed and without the empty ones, or `events.write` if there are
-- none.
pub normalize_scopes_lem :
    (scopes : List Text)
    → IsIncreasing (normalize_scopes scopes)
      × ((x : Text) → is_member x (normalize_scopes scopes) ≡ is_member x (wanted scopes))
unfolding normalize_scopes
normalize_scopes_lem scopes =
    let collected = collect_scopes [] scopes in
    (
      sort_strings-IsIncreasing (or_default_scope collected)
          (or_default-IsDistinct collected (collect_scopes-IsDistinct [] scopes)),
      λ x.
          is_member-sort_strings x (or_default_scope collected)
          ∙ or_default-members collected (named scopes) (all_collected scopes) x,
    )

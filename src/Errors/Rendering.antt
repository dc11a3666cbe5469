-- ===== src/Errors/Rendering.antt =====
-- `Problem.Error` and `formatFields` of errors.go, and the messages of request errors as text.
use custd_sdk_go.Base.{
  Text, Bool, true, false, List, [], ◌∷◌, ◌++◌, is_empty, if◌then◌else◌, not, ◌==◌, ltb, codes, map,
}
use custd_sdk_go.Base.Decimal.{format_int}
use custd_sdk_go.Base.Int.{is_zero}
use custd_sdk_go.Errors.{Problem}

-- The order of Go strings.
unfoldable pub text_leb : Text → Text → Bool
text_leb [] t = true
text_leb (c ∷ s) [] = false
text_leb (c ∷ s) (d ∷ t) = let rest = text_leb s t in if c == d then rest else ltb c d

-- One step of `sort.Strings`: the result of sorting does not depend on the algorithm, since equal
-- strings are the same.
unfoldable pub insert_sorted : Text → List Text → List Text
insert_sorted s [] = s ∷ []
insert_sorted s (t ∷ ts) =
    let rest = insert_sorted s ts in if text_leb s t then s ∷ t ∷ ts else t ∷ rest

unfoldable pub sort_strings : List Text → List Text
sort_strings [] = []
sort_strings (s ∷ ss) = insert_sorted s (sort_strings ss)

-- `strings.Join`.
unfoldable pub join : Text → List Text → Text
join separator [] = []
join separator (s ∷ []) = s
join separator (s ∷ t ∷ ts) = s ++ separator ++ join separator (t ∷ ts)

-- `name + "=" + msg`
unfoldable pub field_part : Text × Text → Text
field_part (name, msg) = name ++ codes "=" ++ msg

-- The loop over the map, in the order in which the entries stand.
unfoldable pub format_fields : List (Text × Text) → Text
unfolding sort_strings join field_part
format_fields fields = join (codes ", ") (sort_strings (map field_part fields))

-- A part that is appended under a test.
unfoldable pub part_if : Bool → Text → List Text → List Text
part_if test part parts = if test then part ∷ parts else parts

unfoldable pub lead : Problem → Text
lead p =
    if not (is_empty p.detail)
    then p.detail
    else if not (is_empty p.title)
    then p.title
    else codes "request failed"

unfoldable pub has_fields : List (Text × Text) → Bool
has_fields [] = false
has_fields (f ∷ fs) = true

-- `Problem.Error`.
unfoldable pub problem_error : Problem → Text
unfolding lead part_if format_fields has_fields
problem_error p =
    codes "custd: "
    ++ join (codes "; ") (
        lead p
        ∷ part_if (not (is_zero p.status)) (codes "status " ++ format_int p.status) (
            part_if (not (is_empty p.code)) (codes "code " ++ p.code) (
              part_if (not (is_empty p.safe_next_action))
                (codes "safeNextAction=" ++ p.safe_next_action)
                (part_if (has_fields p.fields) (codes "fields: " ++ format_fields p.fields) []))))

-- ===== src/Admin/Routing.antt =====
-- How a path of the administration client is read: up to the first `?`, split at its slashes, each
-- part unescaped; the rest is the query.
use mathlib.Core.Option
use mathlib.Core.List.{append_assoc}
use custd_sdk_go.Base.{
  ℕ, List, [], ◌∷◌, ◌++◌, true, false, Bool-cases, Option, none, some, Text, All, All-append, inl,
  inr, ◌≡◌, ◌≢◌, refl, ap, ◌∙◌, arith, ltb, text_eq, text_eq_iff, codes, ◌||◌, ◌+◌, ◌-◌, ◌==◌, map,
  is_empty, if◌then◌else◌, ◌/◌, ◌%◌, ◌<◌,
}
use custd_sdk_go.Url.{
  path_escape, escape_bytes, escape_path_byte, utf8_bytes, keeps_in_path, percent, upper_hex,
  is_alphanumeric, is_mark,
}
use custd_sdk_go.Url.Utf8.{IsText, utf8_bytes-All}
use custd_sdk_go.Url.Plain.{IsPlain, split_on-IsPlain, split_on-prefix, cut-append, cut-IsPlain}
use custd_sdk_go.Url.Reading.{cut, split_on, path_unescape}
use custd_sdk_go.Url.Escaping.{path_unescape-path_escape}

-- `/a/b/c` of escaped segments.
unfoldable pub render_route : List Text → Text
render_route [] = []
render_route (s ∷ []) = b'/' ∷ path_escape s
render_route (s ∷ t ∷ ss) = (b'/' ∷ path_escape s) ++ render_route (t ∷ ss)

unfoldable pub unescape_all : List Text → Option (List Text)
unescape_all [] = some []
unescape_all (s ∷ ss) = elim (path_unescape s) [
  | none ↦ none
  | some t ↦ Option.map (λ ts. t ∷ ts) (unescape_all ss)
]

-- The part in front of the first slash is empty.
unfoldable pub drop_root : List Text → Option (List Text)
unfolding unescape_all
drop_root [] = none
drop_root (root ∷ ss) = if is_empty root then unescape_all ss else none

unfoldable pub read_route : Text → Option (List Text)
unfolding drop_root
read_route path = drop_root (split_on b'/' (cut b'?' path).0)

-- A path that is continued.
pub render_route-append :
    (ss : List Text) (t : Text) (ts : List Text)
    → render_route ss ++ render_route (t ∷ ts) ≡ render_route (ss ++ (t ∷ ts))
unfolding render_route
render_route-append [] t ts = refl
render_route-append (s ∷ []) t ts = refl
render_route-append (s ∷ u ∷ ss) t ts =
    append_assoc (b'/' ∷ path_escape s) (render_route (u ∷ ss)) (render_route (t ∷ ts))
    ∙ ap (λ r. (b'/' ∷ path_escape s) ++ r) (render_route-append (u ∷ ss) t ts)

-- Where a query is there, it stands behind a `?`.
unfoldable pub with_query : Text → Text → Text
with_query path [] = path
with_query path (c ∷ query) = path ++ b'?' ∷ c ∷ query

abbrev IsSegment : ℕ → Type 0
IsSegment c = ((c == b'/') ≡ false) × ((c == b'?') ≡ false)

upper_hex-IsSegment : (n : ℕ) → n < 16 → IsSegment (upper_hex n)
unfolding upper_hex
upper_hex-IsSegment n h = (ground arith, ground arith)

kept-IsSegment : (b : ℕ) → keeps_in_path b ≡ true → IsSegment b
unfolding keeps_in_path is_alphanumeric is_mark
kept-IsSegment b kept = (ground arith, ground arith)

escape_path_byte-IsSegment : (b : ℕ) → b < 256 → All IsSegment (escape_path_byte b)
unfolding escape_path_byte percent
escape_path_byte-IsSegment b h = elim (Bool-cases (keeps_in_path b)) [
  | inl kept ↦ rw kept (kept-IsSegment b kept, tt)
  | inr escaped ↦ rw escaped (
    (refl, refl),
    (upper_hex-IsSegment (b / 16) (omega arith), (upper_hex-IsSegment (b % 16) (omega arith), tt)),
  )
]

escape_bytes-IsSegment :
    (bs : List ℕ) → All (λ b. b < 256) bs → All IsSegment (escape_bytes escape_path_byte bs)
unfolding escape_bytes
escape_bytes-IsSegment [] h = tt
escape_bytes-IsSegment (b ∷ bs) h =
    All-append IsSegment (escape_path_byte b) (escape_bytes escape_path_byte bs)
      (escape_path_byte-IsSegment b h.0) (escape_bytes-IsSegment bs h.1)

split_IsSegment : (s : Text) → All IsSegment s → IsPlain b'/' s × IsPlain b'?' s
split_IsSegment [] h = (tt, tt)
split_IsSegment (c ∷ s) h = let rest = split_IsSegment s h.1 in ((h.0.0, rest.0), (h.0.1, rest.1))

path_escape-IsPlain :
    (s : Text) → IsText s → IsPlain b'/' (path_escape s) × IsPlain b'?' (path_escape s)
unfolding path_escape
path_escape-IsPlain s h =
    split_IsSegment (escape_bytes escape_path_byte (utf8_bytes s))
      (escape_bytes-IsSegment (utf8_bytes s) (utf8_bytes-All s h))

render_route-IsPlain : (ss : List Text) → All IsText ss → IsPlain b'?' (render_route ss)
unfolding render_route
render_route-IsPlain [] h = tt
render_route-IsPlain (s ∷ []) h = (refl, (path_escape-IsPlain s h.0).1)
render_route-IsPlain (s ∷ t ∷ ss) h = (
  refl,
  All-append (λ c. (c == b'?') ≡ false) (path_escape s) (render_route (t ∷ ss))
      (path_escape-IsPlain s h.0).1 (render_route-IsPlain (t ∷ ss) h.1),
)

cut-with_query :
    (path query : Text) → IsPlain b'?' path → cut b'?' (with_query path query) ≡ (path, query)
unfolding with_query
cut-with_query path [] h = cut-IsPlain b'?' path h
cut-with_query path (c ∷ query) h = cut-append b'?' path (c ∷ query) h

split_on-render_route :
    (s : Text) (ss : List Text)
    → All IsText (s ∷ ss)
    → split_on b'/' (render_route (s ∷ ss)) ≡ [] ∷ map path_escape (s ∷ ss)
unfolding split_on render_route
split_on-render_route s [] h =
    rw (split_on-IsPlain b'/' (path_escape s) (path_escape-IsPlain s h.0).0) refl
split_on-render_route s (t ∷ ss) h =
    ap (λ parts. [] ∷ parts)
      (split_on-prefix b'/' (path_escape s) (render_route (t ∷ ss)) (map path_escape (t ∷ ss))
        (path_escape-IsPlain s h.0).0 (split_on-render_route t ss h.1))

unescape_all-map : (ss : List Text) → All IsText ss → unescape_all (map path_escape ss) ≡ some ss
unfolding unescape_all
unescape_all-map [] h = refl
unescape_all-map (s ∷ ss) h =
    rw (unescape_all, path_unescape-path_escape s h.0, unescape_all-map ss h.1) refl

-- The segments are read back, whatever stands in them and whatever the query is.
pub read_route-render_route :
    (ss : List Text) (query : Text)
    → All IsText ss
    → read_route (with_query (render_route ss) query) ≡ some ss
unfolding read_route drop_root is_empty render_route unescape_all split_on
read_route-render_route [] query h = rw (read_route, cut-with_query [] query tt) refl
read_route-render_route (s ∷ ss) query h =
    rw
      (
        read_route,
        cut-with_query (render_route (s ∷ ss)) query (render_route-IsPlain (s ∷ ss) h),
        split_on-render_route s ss h,
      )
      (unescape_all-map (s ∷ ss) h)

-- Segments without the empty ones and with `.` and `..` resolved, and how many `..` lead out of them.
unfoldable pub resolve_dots : List Text → List Text × ℕ
resolve_dots [] = ([], 0)
resolve_dots (s ∷ ss) =
    let (kept, up) = resolve_dots ss in
    if is_empty s || text_eq s (codes ".")
    then (kept, up)
    else if text_eq s (codes "..")
    then (kept, up + 1)
    else if ltb 0 up
    then (kept, up - 1)
    else (s ∷ kept, 0)

-- The segments by which a server that resolves dot segments routes.
unfoldable pub server_route : Text → Option (List Text)
unfolding read_route resolve_dots
server_route path = Option.map (λ ss. (resolve_dots ss).0) (read_route path)

-- A text that is a segment by itself.
abbrev pub IsName : Text → Type 0
IsName s = IsText s × (s ≢ []) × (s ≢ codes ".") × (s ≢ codes "..")

pub IsName-IsText : (ss : List Text) → All IsName ss → All IsText ss
IsName-IsText [] h = tt
IsName-IsText (s ∷ ss) h = (h.0.0, IsName-IsText ss h.1)

pub IsName-given : (ss : List Text) → All IsName ss → All (λ s. s ≢ []) ss
IsName-given [] h = tt
IsName-given (s ∷ ss) h = (h.0.1, IsName-given ss h.1)

text_differs : (s t : Text) → s ≢ t → text_eq s t ≡ false
text_differs s t differs = elim (Bool-cases (text_eq s t)) [
  | inl same ↦ absurd (differs ((text_eq_iff s t).0 same))
  | inr other ↦ other
]

is_empty_given : (s : Text) → s ≢ [] → is_empty s ≡ false
unfolding is_empty
is_empty_given [] given = absurd (given refl)
is_empty_given (c ∷ s) given = refl

resolve_dots-IsName : (ss : List Text) → All IsName ss → resolve_dots ss ≡ (ss, 0)
unfolding resolve_dots
resolve_dots-IsName [] h = refl
resolve_dots-IsName (s ∷ ss) ((text, given, dot, dots), rest) =
    rw
      (
        resolve_dots-IsName ss rest,
        is_empty_given s given,
        text_differs s (codes ".") dot,
        text_differs s (codes "..") dots,
      )
      refl

-- Names are read back as they are.
pub server_route-render_route :
    (ss : List Text) (query : Text)
    → All IsName ss
    → server_route (with_query (render_route ss) query) ≡ some ss
unfolding server_route
server_route-render_route ss query h =
    rw (read_route-render_route ss query (IsName-IsText ss h), resolve_dots-IsName ss h) refl

-- ===== src/Admin/Reading.antt =====
-- What the server reads of a request of the administration client.
use custd_sdk_go.Base.{
  ℕ, [], ◌∷◌, ◌++◌, ◌&&◌, true, false, not, Bool-cases, Option, some, Text, All, inl, inr, ◌≡◌,
  refl, sym, ap, ◌∙◌, arith, ◌==◌, if◌then◌else◌, is_empty, lookup, insert, lookup-insert, codes,
  text_eq, text_eq_iff,
}
use custd_sdk_go.Errors.Rendering.{text_leb}
use custd_sdk_go.Url.{Values, encode_values, sort_by_key, insert_by_key}
use custd_sdk_go.Url.Utf8.{IsText, is_text, is_text-IsText}
use custd_sdk_go.Url.Plain.{IsPlain, cut-append}
use custd_sdk_go.Url.Query.{IsTextual, parse_query-encode_values}
use custd_sdk_go.Url.Reading.{cut, split_on, parse_query}
use custd_sdk_go.Admin.{acting_company_path, get_value, company_slug_query_parameter}
use custd_sdk_go.Admin.Routing.{
  server_route, server_route-render_route, IsName, IsName-given, drop_root, read_route,
}
use custd_sdk_go.Admin.Operations.{
  AdminRequest, admin_call, admin_route, admin_query, admin_call-path, loses_action,
}

-- Of the path of an operation that is modelled, but a rotation of a webhook secret and a replay, a
-- server that resolves dot segments reads the operation's own segments, whatever the arguments hold,
-- as long as no segment is empty, `.` or `..`: no argument adds a segment, drops one or ends the
-- path.
pub admin_call-route :
    {P : Type 0} (op : AdminRequest P)
    → loses_action op ≡ false
    → All IsName (admin_route op)
    → server_route (admin_call op).path ≡ some (admin_route op)
admin_call-route op placed h =
    ap server_route (admin_call-path op placed (IsName-given (admin_route op) h))
    ∙ server_route-render_route (admin_route op) (admin_query op) h

-- Two such operations with the same path have the same segments, so the arguments agree too.
pub admin_route-injective :
    {P : Type 0} (op op' : AdminRequest P)
    → loses_action op ≡ false
    → loses_action op' ≡ false
    → All IsName (admin_route op)
    → All IsName (admin_route op')
    → (admin_call op).path ≡ (admin_call op').path
    → admin_route op ≡ admin_route op'
admin_route-injective op op' placed placed' h h' same =
    let read : some (admin_route op) ≡ some (admin_route op') =
      sym (admin_call-route op placed h) ∙ ap server_route same ∙ admin_call-route op' placed' h' in
    ground arith

-- The part in front of a separator does not have it.
cut-IsPlain_first : (separator : ℕ) (s : Text) → IsPlain separator (cut separator s).0
unfolding cut
cut-IsPlain_first separator [] = tt
cut-IsPlain_first separator (c ∷ s) = elim (Bool-cases (c == separator)) [
  | inl here' ↦ rw here' tt
  | inr later ↦ rw later (later, cut-IsPlain_first separator s)
]

-- Adding the acting company leaves the segments as they were.
pub acting_company_path-route :
    (company path : Text) → read_route (acting_company_path company path) ≡ read_route path
unfolding acting_company_path read_route
acting_company_path-route company path = elim (Bool-cases (is_empty company)) [
  | inl blank ↦ rw blank refl
  | inr given ↦
      elim (Bool-cases
        (not (is_empty (get_value company_slug_query_parameter (parse_query (cut b'?' path).1))))) [
          | inl present ↦ rw (given, present) refl
          | inr absent ↦
              rw (given, absent)
                (ap (λ p. drop_root (split_on b'/' p.0))
                  (cut-append b'?' (cut b'?' path).0
                    (encode_values
                      (insert company_slug_query_parameter company (parse_query (cut b'?' path).1)))
                    (cut-IsPlain_first b'?' path)))
        ]
]

text_leb_refl : (s : Text) → text_leb s s ≡ true
unfolding text_leb
text_leb_refl [] = refl
text_leb_refl (c ∷ s) = ground (arith, text_leb_refl s)

lookup-insert_by_key :
    (j k v : Text) (m : Values)
    → lookup j (insert_by_key (k, v) m) ≡ (if text_eq k j then some v else lookup j m)
unfolding lookup insert_by_key
lookup-insert_by_key j k v [] = refl
lookup-insert_by_key j k v ((i, w) ∷ m) = elim (Bool-cases (text_leb k i)) [
  | inl first ↦ rw first refl
  | inr later ↦
      rw (later, lookup-insert_by_key j k v m)
        (ground (arith, text_eq_iff k j, text_eq_iff i j, text_leb_refl k))
]

pub lookup-sort_by_key : (j : Text) (m : Values) → lookup j (sort_by_key m) ≡ lookup j m
unfolding lookup sort_by_key
lookup-sort_by_key j [] = refl
lookup-sort_by_key j ((k, v) ∷ m) =
    lookup-insert_by_key j k v (sort_by_key m) ∙ rw (lookup-sort_by_key j m) refl

pub insert-IsTextual :
    (k v : Text) (m : Values) → IsText k → IsText v → IsTextual m → IsTextual (insert k v m)
unfolding insert
insert-IsTextual k v [] h g a = ((h, g), tt)
insert-IsTextual k v ((i, w) ∷ m) h g a = elim (Bool-cases (text_eq i k)) [
  | inl same ↦ rw same ((h, g), a.1)
  | inr other ↦ rw other (a.0, insert-IsTextual k v m h g a.1)
]

-- The value of a key in the query of a path.
unfoldable pub query_value : Text → Text → Option Text
unfolding cut parse_query lookup
query_value key path = lookup key (parse_query (cut b'?' path).1)

-- What `Encode` puts behind the `?` is read as the values.
pub query_value-encode_values :
    (key address : Text) (m : Values)
    → IsPlain b'?' address
    → IsTextual m
    → query_value key (address ++ b'?' ∷ encode_values m) ≡ lookup key m
unfolding query_value
query_value-encode_values key address m plain h =
    ap (λ p. lookup key (parse_query p.1)) (cut-append b'?' address (encode_values m) plain)
    ∙ ap (lookup key) (parse_query-encode_values m h)
    ∙ lookup-sort_by_key key m

added-query :
    (key company address : Text) (m : Values)
    → IsPlain b'?' address
    → IsText company
    → IsTextual m
    → query_value key
        (address ++ b'?' ∷ encode_values (insert company_slug_query_parameter company m))
      ≡ (if text_eq company_slug_query_parameter key then some company else lookup key m)
unfolding company_slug_query_parameter is_text codes
added-query key company address m plain h g =
    query_value-encode_values key address (insert company_slug_query_parameter company m) plain (
      insert-IsTextual company_slug_query_parameter company m
        (is_text-IsText company_slug_query_parameter refl) h g)
    ∙ lookup-insert company_slug_query_parameter key company m

-- Every value of the query is the path's own, but the company's where the path names none and an
-- acting company is configured.
pub acting_company_path-query :
    (company path key : Text)
    → IsText company
    → IsTextual (parse_query (cut b'?' path).1)
    → query_value key (acting_company_path company path) ≡ (
        if not (is_empty company)
          && is_empty (get_value company_slug_query_parameter (parse_query (cut b'?' path).1))
          && text_eq company_slug_query_parameter key
        then some company
        else query_value key path)
unfolding acting_company_path query_value
acting_company_path-query company path key h g = elim (Bool-cases (is_empty company)) [
  | inl blank ↦ rw blank refl
  | inr given ↦
      elim (Bool-cases
        (is_empty (get_value company_slug_query_parameter (parse_query (cut b'?' path).1)))) [
          | inl absent ↦
              rw (given, absent)
                (added-query key company (cut b'?' path).0 (parse_query (cut b'?' path).1)
                  (cut-IsPlain_first b'?' path) h g)
          | inr present ↦ rw (given, present) refl
        ]
]

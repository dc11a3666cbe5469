-- ===== src/Admin/AuditExport.antt =====
-- admin_extended.go: what the server reads of the query of an audit export.
use custd_sdk_go.Base.{
  [], ◌∷◌, ◌++◌, Bool, true, false, not, ◌&&◌, Bool-cases, Option, none, some, ok, err, Text, codes,
  is_empty, if◌then◌else◌, text_eq, insert, lookup, lookup-insert, inl, inr, ◌≡◌, refl, sym, ap,
  ◌∙◌, arith, ok_injective,
}
use custd_sdk_go.Errors.{SdkError, plain}
use custd_sdk_go.Url.{Values, set_given, encode_values}
use custd_sdk_go.Url.Utf8.{IsText, is_text, is_text-IsText}
use custd_sdk_go.Url.Plain.{any-false-IsPlain}
use custd_sdk_go.Url.Query.{IsTextual}
use custd_sdk_go.Admin.Operations.Audit.{
  AuditListOptions, audit_filter_params, audit_export_params, export_format, audit_export_path,
}
use custd_sdk_go.Admin.Reading.{query_value, query_value-encode_values, insert-IsTextual}

-- The filters of an audit read under their names in a query.
abbrev pub audit_pairs : AuditListOptions → Values
audit_pairs o =
    (codes "correlationId", o.correlation_id)
    ∷ (codes "outcome", o.outcome)
    ∷ (codes "resourceId", o.resource_id)
    ∷ (codes "resourceType", o.resource_type)
    ∷ (codes "action", o.action)
    ∷ (codes "actorReference", o.actor_reference)
    ∷ (codes "actorKind", o.actor_kind)
    ∷ (codes "until", o.until)
    ∷ (codes "since", o.since)
    ∷ (codes "affectedTenantSlug", o.affected_tenant_slug)
    ∷ (codes "companySlug", o.company_slug)
    ∷ (codes "scope", o.scope)
    ∷ []

-- The value that is given for a key: the first that is not empty.
unfoldable pub find_given : Text → Values → Option Text
find_given key [] = none
find_given key ((k, v) ∷ m) =
    let rest = find_given key m in if not (is_empty v) && text_eq k key then some v else rest

set_all : Values → Values
set_all [] = []
set_all ((k, v) ∷ m) = set_given k v (set_all m)

audit_filter_params-set_all :
    (o : AuditListOptions) → audit_filter_params o ≡ set_all (audit_pairs o)
unfolding audit_filter_params set_all
audit_filter_params-set_all o = refl

lookup-set_all : (key : Text) (m : Values) → lookup key (set_all m) ≡ find_given key m
unfolding set_all find_given set_given lookup
lookup-set_all key [] = refl
lookup-set_all key ((k, v) ∷ m) = elim (Bool-cases (is_empty v)) [
  | inl blank ↦ rw (blank) (lookup-set_all key m)
  | inr given ↦ rw (given) (lookup-insert k key v (set_all m) ∙ rw (lookup-set_all key m) refl)
]

set_all-IsTextual : (m : Values) → IsTextual m → IsTextual (set_all m)
unfolding set_all set_given
set_all-IsTextual [] h = tt
set_all-IsTextual ((k, v) ∷ m) h = elim (Bool-cases (is_empty v)) [
  | inl blank ↦ rw (blank) (set_all-IsTextual m h.1)
  | inr given ↦ rw (given) (insert-IsTextual k v (set_all m) h.0.0 h.0.1 (set_all-IsTextual m h.1))
]

accepted : (b : Bool) (p q : Text) (e : SdkError) → (if b then err e else ok p) ≡ ok q → p ≡ q
accepted true p q e h = absurd (ground arith)
accepted false p q e h = ok_injective p q h

chosen-IsText : (format : Text) → IsText format → IsText (export_format format)
unfolding export_format is_empty codes is_text
chosen-IsText [] h = is_text-IsText (codes "json") refl
chosen-IsText (c ∷ s) h = h

-- The server reads of an export exactly the format, `json` where none is given, and each filter
-- that is not empty under its own key.
pub audit_export_path-query :
    (o : AuditListOptions) (format path key : Text)
    → audit_export_path o format ≡ ok path
    → IsText format
    → IsTextual (audit_pairs o)
    → query_value key path ≡ (
        if text_eq (codes "format") key
        then some (export_format format)
        else find_given key (audit_pairs o))
unfolding audit_export_path audit_export_params audit_filter_params set_all codes is_text
audit_export_path-query o format path key h g a =
    let params = audit_export_params o in
    let chosen = export_format format in
    let textual : IsTextual params = set_all-IsTextual (audit_pairs o) a in
    let built =
      accepted (not (text_eq chosen (codes "csv")) && not (text_eq chosen (codes "json")))
        (codes "/audit/events/export"
          ++ b'?' ∷ encode_values (insert (codes "format") chosen params))
        path (plain (codes "custd: audit export format must be csv or json")) h in
    ap (query_value key) (sym built)
    ∙ query_value-encode_values key (codes "/audit/events/export")
        (insert (codes "format") chosen params)
        (any-false-IsPlain b'?' (codes "/audit/events/export") refl)
        (insert-IsTextual (codes "format") chosen params (is_text-IsText (codes "format") refl)
          (chosen-IsText format g) textual)
    ∙ lookup-insert (codes "format") key chosen params
    ∙ ap (λ r. if text_eq (codes "format") key then some chosen else r)
        (lookup-set_all key (audit_pairs o))

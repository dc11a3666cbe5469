-- ===== src/DataScope.antt =====
-- admin_data_scopes.go: the requests of the data-scope administration and their local validation:
-- codes, names, statuses, principals, grant targets and grants.
pub mod Grants
mod Tests
use custd_sdk_go.Base.{
  ==_iff, All, Bool, Bool-cases, List, Option, Option-cases, Result, Result-cases, Text, [], all,
  any, ap, ap₂, arith, byte_len, codes, drop, drop-drop, err, fail_if, false, has_prefix,
  has_prefix-append, if◌then◌else◌, inl, inr, insert, is_empty, is_empty_sound, is_none, is_some,
  is_space, leb, leb→le, length, length-append, length-drop, length-take, le→leb, lookup,
  lookup-insert, ltb, ltb→lt, lt→ltb, map, max, min, none, not, ok, refl, reject_if, require,
  reverse, rune_len, some, subst, suc, sym, take, take-append-drop, tests, text_eq, text_eq_sound,
  text_eq_iff, text_eq_refl, trim_left, trim_space, true, zero, ℕ, ◌%◌, ◌&&◌, ◌*◌, ◌++◌, ◌+◌, ◌-◌,
  ◌/◌, ◌<◌, ◌==◌, ◌>>=◌, ◌>>◌, ◌^◌, ◌orelse◌, ◌||◌, ◌↔◌, ◌∙◌, ◌∷◌, ◌≡◌, ◌≢◌, ◌≤◌, ◌⊎◌,
}
use custd_sdk_go.Pattern.{code_matches, data_scope_uuid_matches}

-- The messages of the validation errors.
pub data ScopeError : Type 0 where
  bad_code bad_name empty_update bad_status bad_human bad_machine bad_principal_kind : ScopeError
  bad_parent bad_sub_client bad_resource bad_target_kind bad_action : ScopeError

-- One of the values of a closed string type.
unfoldable pub one_of : List Text → Text → Bool
one_of values value = any (text_eq value) values

unfoldable pub valid_status : Text → Bool
unfolding one_of
valid_status status = one_of (codes "active" ∷ codes "disabled" ∷ []) status

unfoldable pub valid_data_scope_code : Text → Bool
valid_data_scope_code value =
    leb 1 (byte_len value) && leb (byte_len value) 128 && code_matches value

unfoldable pub valid_data_scope_name : Text → Bool
valid_data_scope_name value =
    leb 1 (byte_len (trim_space value)) && leb (byte_len (trim_space value)) 100

unfoldable pub is_data_scope_uuid : Text → Bool
is_data_scope_uuid value = data_scope_uuid_matches value

-- `DataScopeCreateRequest` and `DataScopeResourceCreateRequest`, which have the same checks.
pub record CreateRequest : Type 0 where
  pub code : Text
  pub name : Text

unfoldable pub validate_create : CreateRequest → Option ScopeError
unfolding valid_data_scope_code valid_data_scope_name
validate_create r =
    reject_if (not (valid_data_scope_code r.code)) bad_code
    orelse reject_if (not (valid_data_scope_name r.name)) bad_name

-- `DataScopeUpdateRequest` and `DataScopeResourceUpdateRequest`.
pub record UpdateRequest : Type 0 where
  pub name : Option Text
  pub status : Option Text

unfoldable pub rejects : (Text → Bool) → Option Text → Bool
rejects valid none = false
rejects valid (some value) = not (valid value)

unfoldable pub validate_update : UpdateRequest → Option ScopeError
unfolding rejects valid_status valid_data_scope_name
validate_update r =
    reject_if (is_none r.name && is_none r.status) empty_update
    orelse reject_if (rejects valid_data_scope_name r.name) bad_name
    orelse reject_if (rejects valid_status r.status) bad_status

pub record DataScope : Type 0 where
  pub uuid : Text
  pub code : Text
  pub name : Text
  pub status : Text
  pub created_at : Text
  pub updated_at : Text

pub record DataScopeResource : Type 0 where
  pub uuid : Text
  pub scope_uuid : Text
  pub code : Text
  pub name : Text
  pub status : Text
  pub created_at : Text
  pub updated_at : Text

pub record PrincipalRef : Type 0 where
  pub kind : Text
  pub user_uuid : Text
  pub client_id : Text

unfoldable pub validate_principal : PrincipalRef → Option ScopeError
unfolding is_data_scope_uuid valid_data_scope_code
validate_principal p =
    if text_eq p.kind (codes "human")
    then reject_if (not (is_data_scope_uuid p.user_uuid) || not (is_empty p.client_id)) bad_human
    else if text_eq p.kind (codes "machine")
    then reject_if (not (valid_data_scope_code p.client_id) || not (is_empty p.user_uuid))
        bad_machine
    else some bad_principal_kind

unfoldable pub key : PrincipalRef → Text
key p =
    if text_eq p.kind (codes "machine")
    then codes "machine:" ++ p.client_id
    else codes "human:" ++ p.user_uuid

pub record GrantTarget : Type 0 where
  pub kind : Text
  pub scope_uuid : Text
  pub resource_uuid : Text

unfoldable pub validate_target : GrantTarget → Option ScopeError
unfolding is_data_scope_uuid
validate_target t =
    if text_eq t.kind (codes "parent")
    then reject_if (not (is_empty t.scope_uuid) || not (is_empty t.resource_uuid)) bad_parent
    else if text_eq t.kind (codes "sub_client")
    then reject_if (not (is_data_scope_uuid t.scope_uuid) || not (is_empty t.resource_uuid))
        bad_sub_client
    else if text_eq t.kind (codes "resource")
    then reject_if
        (not (is_data_scope_uuid t.scope_uuid) || not (is_data_scope_uuid t.resource_uuid))
        bad_resource
    else some bad_target_kind

unfoldable pub valid_action : Text → Bool
unfolding one_of
valid_action action = one_of (codes "read" ∷ codes "write" ∷ []) action

pub record Grant : Type 0 where
  pub principal : PrincipalRef
  pub target : GrantTarget
  pub action : Text

unfoldable pub validate_grant : Grant → Option ScopeError
unfolding validate_principal validate_target valid_action
validate_grant g =
    validate_principal g.principal
    orelse validate_target g.target
    orelse reject_if (not (valid_action g.action)) bad_action

-- ===== src/DataScope/Tests.antt =====
-- A machine that may read one scope.
use custd_sdk_go.Base.{[], byte_len, codes, is_empty, none, refl, text_eq, true, ◌↔◌, ◌≡◌}
use custd_sdk_go.Pattern.{code_matches, is_code_start, is_code_char}
use custd_sdk_go.DataScope.{
  PrincipalRef, Grant, validate_grant, validate_principal, valid_data_scope_code, valid_action,
}
use custd_sdk_go.DataScope.Grants.{IsPrincipal, IsTarget, validate_grant_iff}

abbrev machine : PrincipalRef
machine = record { kind = codes "machine"; user_uuid = []; client_id = codes "srv-01" }

abbrev read_scope : Grant
read_scope = record {
  principal = machine;
  target = record {
    kind = codes "sub_client";
    scope_uuid = codes "0f8fad5b-d9cb-469f-a165-70867728950e";
    resource_uuid = [];
  };
  action = codes "read";
}

validate_grant_iff_example :
    (validate_grant read_scope ≡ none)
    ↔ (IsPrincipal machine × IsTarget read_scope.target × (valid_action (codes "read") ≡ true))
validate_grant_iff_example = validate_grant_iff read_scope

machine-valid : validate_principal machine ≡ none
unfolding validate_principal valid_data_scope_code code_matches is_code_start is_code_char byte_len
    text_eq codes is_empty
machine-valid = refl

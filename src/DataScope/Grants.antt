-- ===== src/DataScope/Grants.antt =====
-- What a valid grant is: the closed shapes of its principal and its target.
use mathlib.Core.List.{append_cancel_left}
use custd_sdk_go.Base.{
  Bool-cases, Text, [], ap, arith, codes, inl, inr, is_empty, is_empty_sound, none, refl, sym,
  text_eq, text_eq_sound, true, ℕ, ◌++◌, ◌↔◌, ◌∙◌, ◌∷◌, ◌≡◌, ◌≢◌, ◌⊎◌,
}
use custd_sdk_go.DataScope.{
  PrincipalRef, GrantTarget, Grant, is_data_scope_uuid, valid_data_scope_code, valid_action,
  validate_principal, validate_target, validate_grant, key,
}

-- A human by a user UUID alone, or a machine by a client id alone.
abbrev pub IsPrincipal : PrincipalRef → Type 0
IsPrincipal p =
    ((p.kind ≡ codes "human") × (is_data_scope_uuid p.user_uuid ≡ true) × (p.client_id ≡ []))
    ⊎ ((p.kind ≡ codes "machine") × (valid_data_scope_code p.client_id ≡ true) × (p.user_uuid ≡ []))

-- Everything, one scope, or one resource of one scope.
abbrev pub IsTarget : GrantTarget → Type 0
IsTarget t =
    ((t.kind ≡ codes "parent") × (t.scope_uuid ≡ []) × (t.resource_uuid ≡ []))
    ⊎ (((t.kind ≡ codes "sub_client")
          × (is_data_scope_uuid t.scope_uuid ≡ true)
          × (t.resource_uuid ≡ []))
        ⊎ ((t.kind ≡ codes "resource")
            × (is_data_scope_uuid t.scope_uuid ≡ true)
            × (is_data_scope_uuid t.resource_uuid ≡ true)))

IsPrincipal-sound : (p : PrincipalRef) → validate_principal p ≡ none → IsPrincipal p
unfolding validate_principal
IsPrincipal-sound p h = elim (Bool-cases (text_eq p.kind (codes "human"))) [
  | inl e ↦ inl (
    text_eq_sound p.kind (codes "human") e,
    ground arith,
    is_empty_sound p.client_id (ground arith),
  )
  | inr e ↦ elim (Bool-cases (text_eq p.kind (codes "machine"))) [
    | inl f ↦ inr (
      text_eq_sound p.kind (codes "machine") f,
      ground arith,
      is_empty_sound p.user_uuid (ground arith),
    )
    | inr f ↦ absurd (ground arith)
  ]
]

IsTarget-sound : (t : GrantTarget) → validate_target t ≡ none → IsTarget t
unfolding validate_target
IsTarget-sound t h = elim (Bool-cases (text_eq t.kind (codes "parent"))) [
  | inl e ↦ inl (
    text_eq_sound t.kind (codes "parent") e,
    is_empty_sound t.scope_uuid (ground arith),
    is_empty_sound t.resource_uuid (ground arith),
  )
  | inr e ↦ elim (Bool-cases (text_eq t.kind (codes "sub_client"))) [
    | inl f ↦ inr (
        inl (
          text_eq_sound t.kind (codes "sub_client") f,
          ground arith,
          is_empty_sound t.resource_uuid (ground arith),
        ))
    | inr f ↦ elim (Bool-cases (text_eq t.kind (codes "resource"))) [
      | inl g ↦ inr (inr (text_eq_sound t.kind (codes "resource") g, ground arith, ground arith))
      | inr g ↦ absurd (ground arith)
    ]
  ]
]

principal_complete : (p : PrincipalRef) → IsPrincipal p → validate_principal p ≡ none
unfolding validate_principal is_empty text_eq codes
principal_complete p (inl (k, u, c)) = rw (k, u, c) refl
principal_complete p (inr (k, c, u)) = rw (k, u, c) refl

target_complete : (t : GrantTarget) → IsTarget t → validate_target t ≡ none
unfolding validate_target is_empty text_eq codes
target_complete t (inl (k, s, r)) = rw (k, s, r) refl
target_complete t (inr (inl (k, s, r))) = rw (k, s, r) refl
target_complete t (inr (inr (k, s, r))) = rw (k, s, r) refl

-- A grant is accepted exactly when its principal, its target and its action are of the closed shapes.
pub validate_grant_iff :
    (g : Grant)
    → (validate_grant g ≡ none)
      ↔ (IsPrincipal g.principal × IsTarget g.target × (valid_action g.action ≡ true))
unfolding validate_grant
validate_grant_iff g = (sound, complete)
  where
    sound :
        validate_grant g ≡ none
        → IsPrincipal g.principal × IsTarget g.target × (valid_action g.action ≡ true)
    sound h = (
      IsPrincipal-sound g.principal (ground arith),
      IsTarget-sound g.target (ground arith),
      ground arith,
    )

    complete :
        IsPrincipal g.principal × IsTarget g.target × (valid_action g.action ≡ true)
        → validate_grant g ≡ none
    complete (p, t, a) = rw (principal_complete g.principal p, target_complete g.target t, a) refl

same_fields :
    (p q : PrincipalRef)
    → p.kind ≡ q.kind
    → p.user_uuid ≡ q.user_uuid
    → p.client_id ≡ q.client_id
    → p ≡ q
same_fields p q a b c i = record { kind = a i; user_uuid = b i; client_id = c i }

human_key : (p : PrincipalRef) → p.kind ≡ codes "human" → key p ≡ codes "human:" ++ p.user_uuid
unfolding key text_eq codes
human_key p k = rw k refl

machine_key :
    (p : PrincipalRef) → p.kind ≡ codes "machine" → key p ≡ codes "machine:" ++ p.client_id
unfolding key text_eq codes
machine_key p k = rw k refl

abbrev first_code : Text → ℕ
first_code [] = 0
first_code (c ∷ s) = c

apart : (u c : Text) → codes "human:" ++ u ≢ codes "machine:" ++ c
unfolding codes
apart u c e = let heads : b'h' ≡ b'm' = ap first_code e in omega (arith, heads)

-- Different valid principals have different keys.
pub key-injective :
    (p q : PrincipalRef)
    → validate_principal p ≡ none
    → validate_principal q ≡ none
    → key p ≡ key q
    → p ≡ q
key-injective p q hp hq e = by_shape (IsPrincipal-sound p hp) (IsPrincipal-sound q hq)
  where
    by_shape : IsPrincipal p → IsPrincipal q → p ≡ q
    by_shape (inl (k, u, c)) (inl (k', u', c')) =
        same_fields p q (k ∙ sym k')
          (append_cancel_left (codes "human:") p.user_uuid q.user_uuid
            (sym (human_key p k) ∙ e ∙ human_key q k'))
          (c ∙ sym c')
    by_shape (inl (k, u, c)) (inr (k', u', c')) =
        absurd (apart p.user_uuid q.client_id (sym (human_key p k) ∙ e ∙ machine_key q k'))
    by_shape (inr (k, u, c)) (inl (k', u', c')) =
        absurd (apart q.user_uuid p.client_id (sym (human_key q k') ∙ sym e ∙ machine_key p k))
    by_shape (inr (k, c, u)) (inr (k', c', u')) = same_fields p q (k ∙ sym k') (u ∙ sym u') (
        append_cancel_left (codes "machine:") p.client_id q.client_id
          (sym (machine_key p k) ∙ e ∙ machine_key q k'))

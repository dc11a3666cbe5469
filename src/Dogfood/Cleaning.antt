-- ===== src/Dogfood/Cleaning.antt =====
-- Cleaning a payload: what it removes, and what it leaves.
use custd_sdk_go.Base.{
  Bool-cases, Text, arith, inl, inr, refl, some, true, ℕ, ◌≡◌, ap, sym, subst, text_eq, text_eq_iff,
}
use custd_sdk_go.Dogfood.{
  Value, Fields, string, other, list, object, end, field, lookup_field, payload_field_allowed,
  sanitize_value, sanitize_fields,
}

module _ (lower_rune : ℕ → ℕ) where
  -- No object that is reached through objects alone has a protected or forbidden key. What stands in
  -- a list is not looked into.
  unfoldable mutual
    pub IsCleanOutsideLists : Value → Type 0
    IsCleanOutsideLists (string s) = Unit {0}
    IsCleanOutsideLists (other s) = Unit {0}
    IsCleanOutsideLists (list items) = Unit {0}
    IsCleanOutsideLists (object fields) = AreCleanOutsideLists fields

    pub AreCleanOutsideLists : Fields → Type 0
    AreCleanOutsideLists end = Unit {0}
    AreCleanOutsideLists (field key value rest) =
        (payload_field_allowed lower_rune key ≡ true)
        × IsCleanOutsideLists value
        × AreCleanOutsideLists rest

  mutual
    unfolding sanitize_value IsCleanOutsideLists

    pub sanitize_value-IsCleanOutsideLists :
        (v : Value) → IsCleanOutsideLists (sanitize_value lower_rune v)
    sanitize_value-IsCleanOutsideLists (string s) = tt
    sanitize_value-IsCleanOutsideLists (other s) = tt
    sanitize_value-IsCleanOutsideLists (list items) = tt
    sanitize_value-IsCleanOutsideLists (object fields) = sanitize_fields-AreCleanOutsideLists fields

    pub sanitize_fields-AreCleanOutsideLists :
        (fs : Fields) → AreCleanOutsideLists (sanitize_fields lower_rune fs)
    sanitize_fields-AreCleanOutsideLists end = tt
    sanitize_fields-AreCleanOutsideLists (field key value rest) =
        let child = sanitize_value-IsCleanOutsideLists value in
        let cleaned = sanitize_fields-AreCleanOutsideLists rest in
        elim (Bool-cases (payload_field_allowed lower_rune key)) [
          | inl allowed ↦ rw allowed (allowed, child, cleaned)
          | inr refused ↦ rw refused cleaned
        ]

  mutual
    unfolding sanitize_value IsCleanOutsideLists

    IsCleanOutsideLists-sanitize_value :
        (v : Value) → IsCleanOutsideLists v → sanitize_value lower_rune v ≡ v
    IsCleanOutsideLists-sanitize_value (string s) c = refl
    IsCleanOutsideLists-sanitize_value (other s) c = refl
    IsCleanOutsideLists-sanitize_value (list items) c = refl
    IsCleanOutsideLists-sanitize_value (object fields) c =
        ap object (AreCleanOutsideLists-sanitize_fields fields c)

    AreCleanOutsideLists-sanitize_fields :
        (fs : Fields) → AreCleanOutsideLists fs → sanitize_fields lower_rune fs ≡ fs
    AreCleanOutsideLists-sanitize_fields end c = refl
    AreCleanOutsideLists-sanitize_fields (field key value rest) (allowed, child, cleaned) =
        rw
          (
            allowed,
            IsCleanOutsideLists-sanitize_value value child,
            AreCleanOutsideLists-sanitize_fields rest cleaned,
          )
          refl

  pub lookup-sanitize_fields :
      (key : Text) (fs : Fields) (v : Value)
      → lookup_field key (sanitize_fields lower_rune fs) ≡ some v
      → payload_field_allowed lower_rune key ≡ true
  unfolding lookup_field sanitize_fields
  lookup-sanitize_fields key end v h = absurd (ground arith)
  lookup-sanitize_fields key (field k w rest) v h =
      let inner = lookup-sanitize_fields key rest v in
      elim (Bool-cases (payload_field_allowed lower_rune k)) [
        | inl allowed ↦ elim (Bool-cases (text_eq k key)) [
          | inl same ↦
              subst (λ x. payload_field_allowed lower_rune x ≡ true) ((text_eq_iff k key).0 same)
                allowed
          | inr differs ↦ inner (ground arith)
        ]
        | inr refused ↦ inner (ground arith)
      ]

  pub lookup-AreCleanOutsideLists :
      (key : Text) (fs : Fields) (v : Value)
      → AreCleanOutsideLists fs
      → lookup_field key fs ≡ some v
      → IsCleanOutsideLists v
  unfolding lookup_field IsCleanOutsideLists
  lookup-AreCleanOutsideLists key end v c h = absurd (ground arith)
  lookup-AreCleanOutsideLists key (field k w rest) v (allowed, child, cleaned) h =
      elim (Bool-cases (text_eq k key)) [
        | inl same ↦ let found : w ≡ v = ground arith in subst IsCleanOutsideLists found child
        | inr differs ↦ lookup-AreCleanOutsideLists key rest v cleaned (ground arith)
      ]

  pub sanitize-keeps :
      (key : Text) (fs : Fields) (v : Value)
      → payload_field_allowed lower_rune key ≡ true
      → lookup_field key fs ≡ some v
      → IsCleanOutsideLists v
      → lookup_field key (sanitize_fields lower_rune fs) ≡ some v
  unfolding lookup_field sanitize_fields
  sanitize-keeps key end v a h c = absurd (ground arith)
  sanitize-keeps key (field k w rest) v a h c = elim (Bool-cases (text_eq k key)) [
    | inl same ↦
        let found : w ≡ v = ground arith in
        let allowed =
          subst (λ x. payload_field_allowed lower_rune x ≡ true) (sym ((text_eq_iff k key).0 same))
            a in
        rw (allowed, same, found, IsCleanOutsideLists-sanitize_value v c) refl
    | inr differs ↦ let kept = sanitize-keeps key rest v a (ground arith) c in ground arith
  ]

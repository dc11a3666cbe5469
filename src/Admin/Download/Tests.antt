-- ===== src/Admin/Download/Tests.antt =====
-- A download whose digest is zero.
use custd_sdk_go.Base.{
  ℕ, List, [], ◌∷◌, true, ok, Text, codes, All, refl, ◌≡◌, ◌↔◌, arith, all, ltb, ◌<◌,
}
use custd_sdk_go.Admin.Download.{encode_hex, verified_offboarding_download}
use custd_sdk_go.Admin.Download.Integrity.{IsIntact, intact, verified_offboarding_download_iff}

-- A digest that is zero.
abbrev zero_bytes : Text → List ℕ
zero_bytes s =
    0 ∷ 0 ∷ 0 ∷ 0 ∷ 0 ∷ 0 ∷ 0 ∷ 0 ∷ 0 ∷ 0 ∷ 0 ∷ 0 ∷ 0 ∷ 0 ∷ 0 ∷ 0 ∷ 0 ∷ 0 ∷ 0 ∷ 0 ∷ 0 ∷ 0 ∷ 0 ∷ 0
    ∷ 0 ∷ 0 ∷ 0 ∷ 0 ∷ 0 ∷ 0 ∷ 0 ∷ 0 ∷ []

are_bytes : (bs : List ℕ) → all (λ b. ltb b 256) bs ≡ true → All (λ b. b < 256) bs
are_bytes [] h = tt
are_bytes (b ∷ bs) h = (ground arith, are_bytes bs (ground arith))

zero_bytes-all : (s : Text) → All (λ b. b < 256) (zero_bytes s)
zero_bytes-all s = are_bytes (zero_bytes s) refl

verified_offboarding_download_iff_example :
    (verified_offboarding_download zero_bytes
        (codes "export")
        (codes " 6")
        (encode_hex (zero_bytes []))
      ≡ ok (intact zero_bytes (codes "export")))
    ↔ (IsIntact zero_bytes (codes "export") (codes " 6") (encode_hex (zero_bytes []))
        × (intact zero_bytes (codes "export") ≡ intact zero_bytes (codes "export")))
verified_offboarding_download_iff_example =
    verified_offboarding_download_iff zero_bytes (λ s. refl) zero_bytes-all (codes "export")
      (codes " 6") (encode_hex (zero_bytes [])) (intact zero_bytes (codes "export"))

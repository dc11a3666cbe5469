-- ===== src/Ids/Tests.antt =====
-- Sixteen bytes printed.
use custd_sdk_go.Base.{codes, refl, ◌≡◌}
use custd_sdk_go.Ids.{Bytes16, random_uuid, set_version, set_variant}

abbrev some_bytes : Bytes16
some_bytes = record {
  b₀ = 255;
  b₁ = 0;
  b₂ = 17;
  b₃ = 200;
  b₄ = 9;
  b₅ = 128;
  b₆ = 255;
  b₇ = 3;
  b₈ = 255;
  b₉ = 66;
  b₁₀ = 1;
  b₁₁ = 2;
  b₁₂ = 3;
  b₁₃ = 4;
  b₁₄ = 5;
  b₁₅ = 254;
}

-- The nibbles of the version and the variant are set, the rest is the bytes.
printed : random_uuid some_bytes ≡ codes "ff0011c8-0980-4f03-bf42-0102030405fe"
unfolding random_uuid codes set_version set_variant
printed = refl

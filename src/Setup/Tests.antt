-- ===== src/Setup/Tests.antt =====
-- Three scopes with spaces, one of them twice.
use custd_sdk_go.Base.{Text, List, [], ◌∷◌, ◌≡◌, codes, is_empty, refl, trim_space, text_eq}
use custd_sdk_go.Errors.Rendering.{insert_sorted, text_leb, sort_strings}
use custd_sdk_go.Setup.{normalize_scopes}

abbrev asked : List Text
asked = codes " schemas.read" ∷ codes "events.write" ∷ codes "schemas.read " ∷ codes " " ∷ []

normalized : normalize_scopes asked ≡ codes "events.write" ∷ codes "schemas.read" ∷ []
unfolding normalize_scopes codes is_empty trim_space text_eq insert_sorted text_leb sort_strings
normalized = refl

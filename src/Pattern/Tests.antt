-- ===== src/Pattern/Tests.antt =====
-- Label keys on both sides of the pattern.
use custd_sdk_go.Base.{codes, false, refl, true, ◌≡◌}
use custd_sdk_go.Pattern.{label_key_matches}

dotted_key : label_key_matches (codes "custd.environment") ≡ true
unfolding label_key_matches codes
dotted_key = refl

double_separator : label_key_matches (codes "team..core") ≡ false
unfolding label_key_matches codes
double_separator = refl

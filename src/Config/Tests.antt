-- ===== src/Config/Tests.antt =====
-- A configuration with one bad field and floats taken in hundredths.
use custd_sdk_go.Base.{leb, ℕ}
use custd_sdk_go.Base.Int.{negsuc}
use custd_sdk_go.Config.{ClientConfig, FloatOps, default_client_config}

abbrev hundredths : FloatOps ℕ
hundredths = record { not_above_zero = λ x. leb x 0; default_jitter = 20 }

abbrev odd_config : ClientConfig ℕ
odd_config = record (default_client_config hundredths) { batch_size = negsuc 4 }

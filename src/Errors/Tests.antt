-- ===== src/Errors/Tests.antt =====
-- A problem with two field errors, printed in both orders of its map.
use custd_sdk_go.Base.{Text, List, [], ◌∷◌, ◌≡◌, codes, is_empty, refl}
use custd_sdk_go.Base.Int.{pos, is_zero}
use custd_sdk_go.Base.Decimal.{format_int, itoa}
use custd_sdk_go.Errors.{Problem}
use custd_sdk_go.Errors.Rendering.{problem_error, insert_sorted, text_leb}

abbrev bad_request : Problem
bad_request = record {
  kind = [];
  title = codes "Bad request";
  status = pos 400;
  detail = [];
  code = codes "invalid";
  instance_of = [];
  trace_id = [];
  fields = [];
  safe_next_action = [];
  request_id = [];
  retryability = [];
  next_action = [];
}

abbrev name_first : List (Text × Text)
name_first = (codes "name", codes "empty") ∷ (codes "age", codes "low") ∷ []

abbrev age_first : List (Text × Text)
age_first = (codes "age", codes "low") ∷ (codes "name", codes "empty") ∷ []

printed :
    problem_error (record bad_request { fields = name_first })
    ≡ codes "custd: Bad request; status 400; code invalid; fields: age=low, name=empty"
unfolding problem_error codes is_empty is_zero format_int itoa insert_sorted text_leb
printed = refl

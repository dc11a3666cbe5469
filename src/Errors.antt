-- ===== src/Errors.antt =====
-- errors.go and the error half of retry.go: the problem detail of a response, the request error
-- that carries it, and the errors that wrap another. A message that the code only formats is the
-- data it is formatted from.
pub mod Rendering
pub mod Order
mod Tests
use custd_sdk_go.Base.{
  ℕ, Text, Bool, true, false, Option, none, some, List, is_empty, if◌then◌else◌, trim_space, not,
  ◌==◌, ◌||◌, ◌&&◌, leb, any, [], ltb,
}
use custd_sdk_go.Base.Int.{ℤ, is_zero}

-- `NextAction` is kept as raw JSON per key.
pub record Problem : Type 0 where
  pub kind : Text
  pub title : Text
  pub status : ℤ
  pub detail : Text
  pub code : Text
  pub instance_of : Text
  pub trace_id : Text
  pub fields : List (Text × Text)
  pub safe_next_action : Text
  pub request_id : Text
  pub retryability : Text
  pub next_action : List (Text × Text)

pub record FlatErrorEnvelope : Type 0 where
  pub error : Text
  pub code : Text
  pub message : Text
  pub safe_next_action : Text
  pub safe_next_action_camel : Text
  pub request_id : Text

-- `first` if it is not empty, else `second`.
unfoldable pub or_else : Text → Text → Text
or_else first second = if is_empty first then second else first

unfoldable pub is_rfc_problem : Problem → Bool
is_rfc_problem p =
    not (is_empty p.kind)
    || not (is_empty p.title)
    || not (is_empty p.detail)
    || not (is_zero p.status)

unfoldable pub is_blank_flat : FlatErrorEnvelope → Bool
is_blank_flat f = is_empty f.error && is_empty f.message && is_empty f.code

unfoldable pub flat_problem : FlatErrorEnvelope → Problem
unfolding or_else
flat_problem f = record {
  kind = [];
  title = [];
  status = ℤ.pos 0;
  detail = or_else f.error f.message;
  code = or_else f.code f.error;
  instance_of = [];
  trace_id = [];
  fields = [];
  safe_next_action = or_else f.safe_next_action f.safe_next_action_camel;
  request_id = f.request_id;
  retryability = [];
  next_action = [];
}

-- `json.Unmarshal` into the two shapes: `none` is an error.
pub record ProblemDecoder : Type 0 where
  pub as_problem : Text → Option Problem
  pub as_flat : Text → Option FlatErrorEnvelope

module _ (d : ProblemDecoder) where
  unfoldable pub parse_flat : Text → Option Problem
  unfolding flat_problem is_blank_flat
  parse_flat trimmed = elim (d.as_flat trimmed) [
    | none ↦ none
    | some f ↦ if is_blank_flat f then none else some (flat_problem f)
  ]

  unfoldable pub parse_trimmed : Text → Option Problem
  unfolding parse_flat is_rfc_problem
  parse_trimmed trimmed = elim (d.as_problem trimmed) [
    | none ↦ parse_flat trimmed
    | some p ↦ if is_rfc_problem p then some p else parse_flat trimmed
  ]

  unfoldable pub parse_problem : Text → Option Problem
  unfolding parse_trimmed
  parse_problem body =
      let trimmed = trim_space body in if is_empty trimmed then none else parse_trimmed trimmed

-- What the message of a request error is formatted from.
pub data Message : Type 0 where
  of_problem : Problem → Message
  retryable_status request_failed_with_status : ℕ → Message
  transport_failed : Text → Message
  result_count_mismatch : (got sent : ℕ) → Message
  result_missing_uuid : ℕ → Message
  no_event_results : ℕ → Message
  batch_rejected : (failed total : ℕ) → List Text → Message

pub record RequestError : Type 0 where
  pub status_code : ℕ
  pub message : Message
  pub retryable : Bool
  pub cause : Option Text
  pub problem : Option Problem

pub data SdkError : Type 0 where
  request : RequestError → SdkError
  plain : Text → SdkError
  -- `fmt.Errorf("…%w…", err)`.
  wrapped : Text → SdkError → SdkError
  -- `ctx.Err()`.
  cancelled : SdkError

-- `errors.As(err, &se)` for a request error: the first in the chain.
unfoldable pub as_request : SdkError → Option RequestError
as_request (request r) = some r
as_request (plain m) = none
as_request (wrapped m e) = as_request e
as_request cancelled = none

unfoldable pub is_retryable_err : SdkError → Bool
unfolding as_request
is_retryable_err e = elim (as_request e) [ none ↦ false | some r ↦ r.retryable ]

unfoldable pub unavailable : RequestError → Bool
unavailable e = e.status_code == 0 || e.status_code == 429 || leb 500 e.status_code

unfoldable pub new_problem_error : ℕ → Bool → Problem → RequestError
new_problem_error code retryable p = record {
  status_code = code;
  message = of_problem p;
  retryable = retryable;
  cause = none;
  problem = some p;
}

unfoldable pub new_retryable_error : ℕ → RequestError
new_retryable_error code = record {
  status_code = code;
  message = retryable_status code;
  retryable = true;
  cause = none;
  problem = none;
}

unfoldable pub new_retryable_transport_error : Text → RequestError
new_retryable_transport_error cause = record {
  status_code = 0;
  message = transport_failed cause;
  retryable = true;
  cause = some cause;
  problem = none;
}

unfoldable pub new_non_retryable_error : ℕ → RequestError
new_non_retryable_error code = record {
  status_code = code;
  message = request_failed_with_status code;
  retryable = false;
  cause = none;
  problem = none;
}

-- The set that `retryableStatusSet` makes of a slice is kept as the slice.
unfoldable pub is_retryable_status : ℕ → List ℕ → Bool
is_retryable_status code statuses = any (λ s. s == code) statuses

module _ (d : ProblemDecoder) (retry_set : List ℕ) where
  -- The error of a status that is not 2xx.
  unfoldable pub status_error : ℕ → Text → RequestError
  unfolding new_problem_error new_retryable_error new_non_retryable_error
  status_error code body = elim (parse_problem d body) [
    | some p ↦ new_problem_error code (is_retryable_status code retry_set) p
    | none ↦
        if is_retryable_status code retry_set
        then new_retryable_error code
        else new_non_retryable_error code
  ]

  unfoldable pub check_status : ℕ → Text → Option SdkError
  unfolding status_error
  check_status code body =
      if leb 200 code && ltb code 300 then none else some (request (status_error code body))

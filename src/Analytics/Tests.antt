-- ===== src/Analytics/Tests.antt =====
-- A query over the thirty-one days of a month.
use custd_sdk_go.Base.{Option, Text, [], codes, if◌then◌else◌, none, some, text_eq, ℕ, ◌↔◌, ◌≡◌}
use custd_sdk_go.Base.Int.{pos}
use custd_sdk_go.Analytics.{EventRangeQuery, validate_range_query}
use custd_sdk_go.Analytics.Range.{IsSendable, validate_range_query_iff}

abbrev january : EventRangeQuery
january = record {
  from = codes "2026-01-01";
  to = codes "2026-01-31";
  event_type = [];
  limit = pos 0;
  source = codes "auto";
  group_by = codes "day";
  label_filters = [];
  severity = [];
  service = [];
  sub_client = [];
  resource = [];
}

-- The two days, as days of some calendar.
abbrev day_of : Text → Option ℕ
day_of s =
    if text_eq s (codes "2026-01-01")
    then some 20454
    else if text_eq s (codes "2026-01-31")
    then some 20484
    else none

validate_range_query_iff_example :
    (validate_range_query day_of january ≡ none) ↔ IsSendable day_of january
validate_range_query_iff_example = validate_range_query_iff day_of january

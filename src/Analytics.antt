-- ===== src/Analytics.antt =====
-- analytics_events.go: the queries on a tenant's events and the checks before a query is sent.
-- `time.Parse` with the layout of a date is a parameter: it gives the day as a number of days.
pub mod Range
mod Tests
use custd_sdk_go.Base.{
  ==_iff, All, Bool, Bool-cases, List, Option, Option-cases, Result, Result-cases, Text, [], all,
  any, ap, ap₂, arith, byte_len, codes, drop, drop-drop, err, fail_if, false, has_prefix,
  has_prefix-append, if◌then◌else◌, inl, inr, insert, is_empty, is_empty_sound, is_none, is_some,
  is_space, leb, leb→le, length, length-append, length-drop, length-take, le→leb, lookup,
  lookup-insert, ltb, ltb→lt, lt→ltb, map, max, min, none, not, ok, refl, reject_if, require,
  reverse, rune_len, some, subst, suc, sym, take, take-append-drop, tests, text_eq, text_eq_sound,
  text_eq_iff, text_eq_refl, trim_left, trim_space, true, zero, ℕ, ◌%◌, ◌&&◌, ◌*◌, ◌++◌, ◌+◌, ◌-◌,
  ◌/◌, ◌<◌, ◌==◌, ◌>>=◌, ◌>>◌, ◌^◌, ◌orelse◌, ◌||◌, ◌↔◌, ◌∙◌, ◌∷◌, ◌≡◌, ◌≢◌, ◌≤◌, ◌⊎◌,
}
use custd_sdk_go.Base.Int.{ℤ}
use custd_sdk_go.DataScope.{one_of}

pub record LabelFilter : Type 0 where
  pub key : Text
  pub value : Text

pub record EventQuery : Type 0 where
  pub date : Text
  pub event_type : Text
  pub limit : ℤ
  pub source : Text
  pub label_filters : List LabelFilter
  pub severity : Text
  pub service : Text
  pub sub_client : Text
  pub resource : Text

pub record EventRangeQuery : Type 0 where
  pub from : Text
  pub to : Text
  pub event_type : Text
  pub limit : ℤ
  pub source : Text
  pub group_by : Text
  pub label_filters : List LabelFilter
  pub severity : Text
  pub service : Text
  pub sub_client : Text
  pub resource : Text

pub data QueryError : Type 0 where
  date_required : QueryError
  too_many_filters : ℕ → QueryError
  range_required from_invalid to_invalid to_before_from : QueryError
  too_many_days : ℕ → QueryError
  bad_group_by bad_source : QueryError

unfoldable pub max_label_filters : ℕ
max_label_filters = 4

unfoldable pub max_range_days : ℕ
max_range_days = 120

unfoldable pub validate_query : EventQuery → Option QueryError
unfolding max_label_filters
validate_query r =
    reject_if (is_empty r.date) date_required
    orelse reject_if (ltb max_label_filters (length r.label_filters))
        (too_many_filters (length r.label_filters))

unfoldable pub check_rest : EventRangeQuery → Option QueryError
unfolding max_label_filters one_of
check_rest r =
    reject_if (ltb max_label_filters (length r.label_filters))
      (too_many_filters (length r.label_filters))
    orelse reject_if (not (is_empty r.group_by) && not (text_eq r.group_by (codes "day")))
        bad_group_by
    orelse reject_if (not (one_of ([] ∷ codes "auto" ∷ codes "duckdb" ∷ []) r.source)) bad_source

-- `days := int(to.Sub(from).Hours()/24) + 1`, after `to.Before(from)` is excluded.
unfoldable pub check_days : ℕ → ℕ → Option QueryError
unfolding max_range_days
check_days from to =
    reject_if (ltb to from) to_before_from
    orelse reject_if (ltb max_range_days (to - from + 1)) (too_many_days (to - from + 1))

unfoldable pub check_window : Option ℕ → Option ℕ → Option QueryError
unfolding check_days
check_window none to = some from_invalid
check_window (some from) none = some to_invalid
check_window (some from) (some to) = check_days from to

unfoldable pub validate_range_query : (Text → Option ℕ) → EventRangeQuery → Option QueryError
unfolding check_window check_rest
validate_range_query parse r =
    reject_if (is_empty r.from || is_empty r.to) range_required
    orelse check_window (parse r.from) (parse r.to)
    orelse check_rest r

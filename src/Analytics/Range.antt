-- ===== src/Analytics/Range.antt =====
-- The range queries that are sent.
use custd_sdk_go.Base.{
  Bool, Option, Text, [], ap, arith, codes, false, is_empty, length, ltb, none, not, refl,
  reject_if, some, text_eq, true, ℕ, ◌&&◌, ◌+◌, ◌-◌, ◌<◌, ◌orelse◌, ◌||◌, ◌↔◌, ◌∷◌, ◌≡◌, ◌≤◌,
}
use custd_sdk_go.DataScope.{one_of}
use custd_sdk_go.Analytics.{
  EventRangeQuery, QueryError, bad_group_by, bad_source, too_many_filters, range_required,
  max_label_filters, max_range_days, check_rest, check_days, check_window, validate_range_query,
}

-- The days from the first to the last, both counted, are at least one and at most 120.
pub record IsSendable (parse : Text → Option ℕ) (r : EventRangeQuery) : Type 0 where
  pub from_given : is_empty r.from ≡ false
  pub to_given : is_empty r.to ≡ false
  pub first : ℕ
  pub days : ℕ
  pub from_day : parse r.from ≡ some first
  pub to_day : parse r.to ≡ some (first + days)
  pub short : days < max_range_days
  pub filters : length r.label_filters ≤ max_label_filters
  pub grouped : (is_empty r.group_by || text_eq r.group_by (codes "day")) ≡ true
  pub sourced : one_of ([] ∷ codes "auto" ∷ codes "duckdb" ∷ []) r.source ≡ true

window :
    (from to : Option ℕ)
    → check_window from to ≡ none
    → (d n : ℕ) × (from ≡ some d) × (to ≡ some (d + n)) × (n < max_range_days)
unfolding check_window check_days
window none to h = cc
window (some d) none h = cc
window (some d) (some e) h = (d, e - d, refl, ap some (ground arith), ground arith)

both_none : {E : Type 0} (d e : Option E) → d orelse e ≡ none → (d ≡ none) × (e ≡ none)
both_none none e h = (refl, h)
both_none (some x) e h = cc

-- What is checked beside the window.
abbrev IsRest : EventRangeQuery → Type 0
IsRest r =
    (length r.label_filters ≤ max_label_filters)
    × ((is_empty r.group_by || text_eq r.group_by (codes "day")) ≡ true)
    × (one_of ([] ∷ codes "auto" ∷ codes "duckdb" ∷ []) r.source ≡ true)

IsRest-sound : (r : EventRangeQuery) → check_rest r ≡ none → IsRest r
unfolding check_rest
IsRest-sound r h =
    let first = both_none _ _ h in
    let second = both_none _ _ first.1 in
    (
      unreject max_label_filters (length r.label_filters)
          (too_many_filters (length r.label_filters)) first.0,
      regroup (is_empty r.group_by) _ bad_group_by second.0,
      unreject_not _ bad_source second.1,
    )
  where
    unreject : (m n : ℕ) (e : QueryError) → reject_if (ltb m n) e ≡ none → n ≤ m
    unreject m n e k = ground arith

    unreject_not : (b : Bool) (e : QueryError) → reject_if (not b) e ≡ none → b ≡ true
    unreject_not b e k = ground arith

    regroup : (a b : Bool) (e : QueryError) → reject_if (not a && not b) e ≡ none → (a || b) ≡ true
    regroup a b e k = ground arith

rest_complete : (r : EventRangeQuery) → IsRest r → check_rest r ≡ none
unfolding check_rest
rest_complete r (f, g, s) = rw (few f, grouped (is_empty r.group_by) _ g, s) refl
  where
    few : {m n : ℕ} → n ≤ m → ltb m n ≡ false
    few k = ground arith

    grouped : (a b : Bool) → (a || b) ≡ true → (not a && not b) ≡ false
    grouped a b k = ground arith

days_fit : (d n : ℕ) → n < max_range_days → check_days d (d + n) ≡ none
unfolding check_days max_range_days
days_fit d n h = ground arith

-- A range query passes the local checks exactly if both dates are given and parse, the second is 0 to
-- 119 days after the first, there are at most four label filters, the grouping is empty or `day`,
-- and the source is empty, `auto` or `duckdb`.
pub validate_range_query_iff :
    (parse : Text → Option ℕ) (r : EventRangeQuery)
    → (validate_range_query parse r ≡ none) ↔ IsSendable parse r
unfolding validate_range_query check_window
validate_range_query_iff parse r = (sound, complete)
  where
    given : (a b : Bool) (e : QueryError) → reject_if (a || b) e ≡ none → (a ≡ false) × (b ≡ false)
    given a b e k = (ground arith, ground arith)

    sound : validate_range_query parse r ≡ none → IsSendable parse r
    sound h =
        let top = both_none _ _ h in
        let below = both_none _ _ top.1 in
        let g = given (is_empty r.from) (is_empty r.to) range_required top.0 in
        let w = window (parse r.from) (parse r.to) below.0 in
        let rest = IsRest-sound r below.1 in
        record {
          from_given = g.0;
          to_given = g.1;
          first = w.0;
          days = w.1;
          from_day = w.2;
          to_day = w.3;
          short = w.4;
          filters = rest.0;
          grouped = rest.1;
          sourced = rest.2;
        }

    complete : IsSendable parse r → validate_range_query parse r ≡ none
    complete s =
        rw
          (
            s.from_given,
            s.to_given,
            s.from_day,
            s.to_day,
            days_fit s.first s.days s.short,
            rest_complete r (s.filters, s.grouped, s.sourced),
          )
          refl

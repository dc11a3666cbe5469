-- ===== src/TimePlan/Cues.antt =====
-- The threshold cues of a time-plan definition that passes the validation.
use custd_sdk_go.Base.{
  text_eq_iff, codes, ◌++◌, All, Bool-cases, List, Option, Option-cases, Text, [], any, ap, arith,
  false, inl, inr, is_none, none, refl, some, subst, sym, text_eq, text_eq_refl, true, ℕ, ◌+◌, ◌∙◌,
  ◌∷◌, ◌≡◌, ◌≢◌, ◌≤◌, ◌⊎◌,
}
use custd_sdk_go.Base.Decimal.{format_int}
use custd_sdk_go.Base.Int.{ℤ, pos, negsuc, is_negative, exceeds}
use custd_sdk_go.TimePlan.{
  ThresholdCue, out_of_range, valid_severity, same_bool, validate_cue, trigger_of, cue_loop,
}

-- Exactly one threshold, within its bounds.
abbrev pub IsThreshold : Option ℤ → Option ℤ → Type 0
IsThreshold ms bps =
    ((n : ℕ) × (ms ≡ some (pos n)) × (n ≤ 2419200000) × (bps ≡ none))
    ⊎ ((n : ℕ) × (bps ≡ some (pos n)) × (n ≤ 10000) × (ms ≡ none))

abbrev pub IsCue : ThresholdCue → Type 0
IsCue c = IsThreshold c.remaining_ms c.remaining_fraction_bps × (valid_severity c.severity ≡ true)

abbrev pub trigger : ThresholdCue → Option Text
trigger c = trigger_of c.remaining_ms c.remaining_fraction_bps

-- No two cues have the same trigger text.
abbrev pub Distinct : List ThresholdCue → Type 0
Distinct [] = Unit {0}
Distinct (c ∷ cs) = All (λ d. trigger d ≢ trigger c) cs × Distinct cs

in_range :
    (bound : ℕ) (x : ℤ) → out_of_range bound (some x) ≡ false → (n : ℕ) × (x ≡ pos n) × (n ≤ bound)
unfolding out_of_range is_negative exceeds
in_range bound (pos n) h = (n, refl, ground arith)
in_range bound (negsuc n) h = cc

threshold :
    (ms bps : Option ℤ)
    → same_bool (is_none ms) (is_none bps) ≡ false
    → out_of_range 2419200000 ms ≡ false
    → out_of_range 10000 bps ≡ false
    → IsThreshold ms bps
unfolding same_bool
threshold none none one m b = cc
threshold none (some y) one m b = let r = in_range 10000 y b in inr (r.0, ap some r.1, r.2, refl)
threshold (some x) none one m b =
    let r = in_range 2419200000 x m in inl (r.0, ap some r.1, r.2, refl)
threshold (some x) (some y) one m b = cc

IsCue-sound : (c : ThresholdCue) → validate_cue c ≡ none → IsCue c
unfolding validate_cue
IsCue-sound c h = (
  threshold c.remaining_ms c.remaining_fraction_bps (ground arith) (ground arith) (ground arith),
  ground arith,
)

-- The trigger of a cue is none of those seen.
abbrev pub Unseen : List Text → ThresholdCue → Type 0
Unseen seen c = (t : Text) → trigger c ≡ some t → any (text_eq t) seen ≡ false

Unseen-tail :
    (t : Text) (seen : List Text) (cs : List ThresholdCue)
    → All (Unseen (t ∷ seen)) cs
    → All (Unseen seen) cs
Unseen-tail t seen [] h = tt
Unseen-tail t seen (c ∷ cs) h =
    (λ u e. let both = h.0 u e in ground arith, Unseen-tail t seen cs h.1)

differ :
    (t : Text) (seen : List Text) (c : ThresholdCue) (cs : List ThresholdCue)
    → trigger c ≡ some t
    → All (Unseen (t ∷ seen)) cs
    → All (λ d. trigger d ≢ trigger c) cs
differ t seen c [] e h = tt
differ t seen c (d ∷ cs) e h = (
  λ same. let hit = h.0 t (same ∙ e) in let self = text_eq_refl t in absurd (ground arith),
  differ t seen c cs e h.1,
)

some_same : {A : Type 0} {x y : A} → some x ≡ some y → x ≡ y
some_same e = cc

pub cue_loop_sound :
    (i : ℕ) (seen : List Text) (cues : List ThresholdCue)
    → cue_loop i seen cues ≡ none
    → All IsCue cues × Distinct cues × All (Unseen seen) cues
unfolding cue_loop
cue_loop_sound i seen [] h = (tt, tt, tt)
cue_loop_sound i seen (c ∷ cs) h = elim (Option-cases (validate_cue c)) [
  | inr (e, bad) ↦ absurd (ground arith)
  | inl fine ↦ elim (Option-cases (trigger c)) [
    | inl missing ↦ absurd (ground arith)
    | inr (t, is) ↦ elim (Bool-cases (any (text_eq t) seen)) [
      | inl hit ↦ absurd (ground arith)
      | inr new ↦
          let rest = cue_loop_sound (i + 1) (t ∷ seen) cs (ground arith) in
          (
            (IsCue-sound c fine, rest.0),
            (differ t seen c cs is rest.2, rest.1),
            (
              λ u e. subst (λ v. any (text_eq v) seen ≡ false) (some_same (sym is ∙ e)) new,
              Unseen-tail t seen cs rest.2,
            ),
          )
    ]
  ]
]

in_range_complete : (bound n : ℕ) → n ≤ bound → out_of_range bound (some (pos n)) ≡ false
unfolding out_of_range is_negative exceeds
in_range_complete bound n h = ground arith

IsCue-complete : (c : ThresholdCue) → IsCue c → validate_cue c ≡ none
unfolding validate_cue same_bool out_of_range
IsCue-complete c (inl (n, ms, h, bps), s) =
    rw (ms, bps, s) (let fits = in_range_complete 2419200000 n h in ground (arith, fits))
IsCue-complete c (inr (n, bps, h, ms), s) =
    rw (ms, bps, s) (let fits = in_range_complete 10000 n h in ground (arith, fits))

Unseen-cons :
    (t : Text) (seen : List Text) (c : ThresholdCue) (cs : List ThresholdCue)
    → trigger c ≡ some t
    → All (λ d. trigger d ≢ trigger c) cs
    → All (Unseen seen) cs
    → All (Unseen (t ∷ seen)) cs
Unseen-cons t seen c [] e ne un = tt
Unseen-cons t seen c (d ∷ ds) e ne un = (
  λ u is. elim (Bool-cases (text_eq u t)) [
    | inl same ↦ absurd (ne.0 (is ∙ ap some ((text_eq_iff u t).0 same) ∙ sym e))
    | inr other ↦ let old = un.0 u is in ground arith
  ],
  Unseen-cons t seen c ds e ne.1 un.1,
)

IsThreshold-trigger :
    (ms bps : Option ℤ) → IsThreshold ms bps → (t : Text) × (trigger_of ms bps ≡ some t)
unfolding trigger_of
IsThreshold-trigger ms bps (inl (n, e, _, _)) = (codes "ms:" ++ format_int (pos n), rw e)
IsThreshold-trigger ms bps (inr (n, e, _, f)) = (codes "bps:" ++ format_int (pos n), rw (f, e))

pub cue_loop_complete :
    (i : ℕ) (seen : List Text) (cues : List ThresholdCue)
    → All IsCue cues
    → Distinct cues
    → All (Unseen seen) cues
    → cue_loop i seen cues ≡ none
unfolding cue_loop
cue_loop_complete i seen [] ok different fresh = refl
cue_loop_complete i seen (c ∷ cs) ok different fresh =
    let (t, is) = IsThreshold-trigger c.remaining_ms c.remaining_fraction_bps ok.0.0 in
    let rest =
      cue_loop_complete (i + 1) (t ∷ seen) cs ok.1 different.1
        (Unseen-cons t seen c cs is different.0 fresh.1) in
    let new = fresh.0 t is in ground (arith, IsCue-complete c ok.0, is, new, rest)

-- ===== src/WorkflowTiming/Keys.antt =====
-- The deterministic idempotency keys of workflow facts: when they tell facts apart.
use mathlib.Core.List.{append_assoc, append_cancel_left}
use custd_sdk_go.Base.{All, List, Text, [], ap₂, codes, refl, sym, ◌++◌, ◌∷◌, ◌≡◌, ◌≢◌}
use custd_sdk_go.WorkflowTiming.{workflow_timing_key, join_colons}

abbrev pub ColonFree : Text → Type 0
ColonFree t = All (λ c. c ≢ b':') t

cons_parts : {A : Type 0} {x y : A} {xs ys : List A} → x ∷ xs ≡ y ∷ ys → (x ≡ y) × (xs ≡ ys)
cons_parts e = (cc, cc)

-- Two texts that end before the first colon.
before_colon :
    (s t x y : Text) → ColonFree s → ColonFree t → s ++ b':' ∷ x ≡ t ++ b':' ∷ y → (s ≡ t) × (x ≡ y)
before_colon [] [] x y f g h = (refl, (cons_parts h).1)
before_colon [] (d ∷ t) x y f g h = absurd (g.0 (sym (cons_parts h).0))
before_colon (c ∷ s) [] x y f g h = absurd (f.0 (cons_parts h).0)
before_colon (c ∷ s) (d ∷ t) x y f g h =
    let rest = before_colon s t x y f.1 g.1 (cons_parts h).1 in
    (ap₂ ◌∷◌ (cons_parts h).0 rest.0, rest.1)

-- Where workflow keys and run ids hold no colon, equal keys come from the same workflow, run and
-- kind of fact.
pub workflow_timing_key-injective :
    (workflow run kind workflow' run' kind' : Text)
    → ColonFree workflow
    → ColonFree run
    → ColonFree workflow'
    → ColonFree run'
    → workflow_timing_key workflow run kind ≡ workflow_timing_key workflow' run' kind'
    → (workflow ≡ workflow') × (run ≡ run') × (kind ≡ kind')
unfolding workflow_timing_key join_colons
workflow_timing_key-injective w r k w' r' k' f g f' g' h =
    let outer =
      before_colon w w' (r ++ b':' ∷ k) (r' ++ b':' ∷ k') f f'
        (cons_parts (append_cancel_left (codes "workflow-timing") _ _ h)).1 in
    let inner = before_colon r r' k k' g g' outer.1 in (outer.0, inner.0, inner.1)

-- Keys with colons are not told apart.
pub workflow_timing_key-collides :
    (a b c kind : Text)
    → workflow_timing_key (a ++ b':' ∷ b) c kind ≡ workflow_timing_key a (b ++ b':' ∷ c) kind
unfolding workflow_timing_key join_colons
workflow_timing_key-collides a b c kind = simp append_assoc

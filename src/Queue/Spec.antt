-- ===== src/Queue/Spec.antt =====
-- What a bounded queue with the policy "drop the oldest" promises: a history of all that was put
-- in, of which the last `capacity` entries are kept.
use custd_sdk_go.Base.{
  ℕ, zero, suc, ◌-◌, ◌≤◌, ◌≡◌, refl, ap, List, [], ◌∷◌, ◌++◌, length, drop, length-append,
  length-drop, arith, drop-drop,
}

module _ {ℓ} {E : Type ℓ} where
  -- The last `n` entries.
  abbrev pub last_n : ℕ → List E → List E
  last_n n es = drop (length es - n) es

  pub drop-append : (k : ℕ) (xs ys : List E) → k ≤ length xs → drop k (xs ++ ys) ≡ drop k xs ++ ys
  drop-append zero xs ys h = refl
  drop-append (suc k) [] ys h = elim h [ ]
  drop-append (suc k) (x ∷ xs) ys h = drop-append k xs ys (omega arith)

  pub drop_all : (k : ℕ) (xs : List E) → length xs ≤ k → drop k xs ≡ []
  drop_all zero [] h = refl
  drop_all zero (x ∷ xs) h = elim h [ ]
  drop_all (suc k) [] h = refl
  drop_all (suc k) (x ∷ xs) h = drop_all k xs (omega arith)

  pub drop-cong : {j k : ℕ} (xs : List E) → j ≡ k → drop j xs ≡ drop k xs
  drop-cong xs e = ap (λ i. drop i xs) e

  pub last_n_all : (n : ℕ) (xs : List E) → length xs ≤ n → last_n n xs ≡ xs
  last_n_all n xs h = drop-cong {k = 0} xs (omega arith)

  pub length-last_n-le : (n : ℕ) (xs : List E) → length (last_n n xs) ≤ n
  length-last_n-le n xs = omega (arith, length-drop (length xs - n) xs)

  -- What was dropped once need not be kept for later.
  pub last_n-append-last_n :
      (n : ℕ) (xs ys : List E) → last_n n (last_n n xs ++ ys) ≡ last_n n (xs ++ ys)
  last_n-append-last_n n xs ys =
      let k = length xs - n in
      let len_kept = length-drop (length xs - n) xs in
      rw (← drop-append (length xs - n) xs ys (omega arith)) (
        rw (drop-drop (length (drop k (xs ++ ys)) - n) k (xs ++ ys))
          (drop-cong (xs ++ ys) (omega (arith, length-append xs ys, length-drop k (xs ++ ys)))))

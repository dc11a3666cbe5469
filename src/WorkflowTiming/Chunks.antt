-- ===== src/WorkflowTiming/Chunks.antt =====
-- The chunks of an import: nothing is lost or reordered, and every request is within its bounds.
use mathlib.Core.List.{append_assoc, append-nil}
use custd_sdk_go.Base.{
  All, Bool-cases, List, Option, Option-cases, [], ap, arith, false, inl, inr, length,
  length-append, ltb, none, ok, refl, some, subst, sym, true, ℕ, ◌++◌, ◌+◌, ◌<◌, ◌==◌, ◌||◌, ◌∙◌,
  ◌∷◌, ◌≡◌, ◌≢◌, ◌≤◌,
}
use custd_sdk_go.WorkflowTiming.{
  max_facts, max_bytes, envelope_bytes, chunk_loop, workflow_timing_chunks,
}

module _ {O : Type 0} where
  abbrev pub concat : List (List O) → List O
  concat [] = []
  concat (c ∷ cs) = c ++ concat cs

  pub concat-append : (xs ys : List (List O)) → concat (xs ++ ys) ≡ concat xs ++ concat ys
  concat-append [] ys = refl
  concat-append (x ∷ xs) ys =
      rw (concat-append xs ys) (sym (append_assoc x (concat xs) (concat ys)))

module _ {O : Type 0} (encode : O → Option ℕ) where
  -- The bytes of an item with its comma.
  abbrev item_bytes : Option ℕ → ℕ
  item_bytes none = 0
  item_bytes (some n) = n + 1

  abbrev pub weight : List O → ℕ
  weight [] = 0
  weight (o ∷ os) = item_bytes (encode o) + weight os

  weight-snoc : (xs : List O) (o : O) → weight (xs ++ o ∷ []) ≡ weight xs + item_bytes (encode o)
  weight-snoc [] o = omega arith
  weight-snoc (x ∷ xs) o = omega (arith, weight-snoc xs o)

  length-snoc : (xs : List O) (o : O) → length (xs ++ o ∷ []) ≡ length xs + 1
  length-snoc xs o = omega (arith, length-append xs (o ∷ []))

  -- A request that the server takes: at least one fact, at most 10,000, and the JSON of the facts
  -- with a comma each within 1 MiB together with the envelope.
  pub record Fits (chunk : List O) : Type 0 where
    pub some_facts : 0 < length chunk
    pub facts : length chunk ≤ max_facts
    pub bytes : envelope_bytes + weight chunk ≤ max_bytes

  -- The chunk that the loop is filling.
  record Fills (size : ℕ) (current : List O) : Type 0 where
    measured : size ≡ envelope_bytes + weight current
    facts : length current ≤ max_facts
    bytes : size ≤ max_bytes

  All-append : (xs : List (List O)) (y : List O) → All Fits xs → Fits y → All Fits (xs ++ y ∷ [])
  All-append [] y h f = (f, tt)
  All-append (x ∷ xs) y h f = (h.0, All-append xs y h.1 f)

  abbrev Splits : List O → List (List O) → Type 0
  Splits input chunks = (concat chunks ≡ input) × All Fits chunks

  max_facts-pos : 0 < max_facts
  unfolding max_facts
  max_facts-pos = omega arith

  closed-Fits :
      {size : ℕ} {current : List O} → Fills size current → 0 < length current → Fits current
  closed-Fits f n = record {
    some_facts = n;
    facts = f.facts;
    bytes = omega (arith, f.measured, f.bytes);
  }

  -- A chunk is closed only when it holds something.
  full-pos :
      {size : ℕ} {current : List O} (n : ℕ)
      → Fills size current
      → envelope_bytes + (n + 1) ≤ max_bytes
      → (ltb max_bytes (size + (n + 1)) || length current == max_facts) ≡ true
      → 0 < length current
  full-pos {current = []} n f small full = absurd (ground (arith, f.measured, max_facts-pos))
  full-pos {current = x ∷ xs} n f small full = omega arith

  regroup :
      (chunks : List (List O)) (current : List O) (o : O) (os : List O)
      → concat (chunks ++ current ∷ []) ++ (o ∷ []) ++ os ≡ concat chunks ++ current ++ o ∷ os
  regroup chunks current o os = simp (concat-append, append_assoc, append-nil)

  -- One round of the loop that opens a new chunk, and one that extends the current one.
  round_opens :
      (o : O) (os : List O) (index size k : ℕ) (current : List O) (chunks : List (List O))
      → encode o ≡ some k
      → ltb max_bytes (envelope_bytes + (k + 1)) ≡ false
      → (ltb max_bytes (size + (k + 1)) || length current == max_facts) ≡ true
      → chunk_loop encode index size current chunks (o ∷ os)
        ≡ chunk_loop encode
            (index + 1)
            (envelope_bytes + (k + 1))
            (o ∷ [])
            (chunks ++ current ∷ [])
            os
  unfolding chunk_loop
  round_opens o os index size k current chunks q small full = rw (q, chunk_loop, small, full)

  round_extends :
      (o : O) (os : List O) (index size k : ℕ) (current : List O) (chunks : List (List O))
      → encode o ≡ some k
      → ltb max_bytes (envelope_bytes + (k + 1)) ≡ false
      → (ltb max_bytes (size + (k + 1)) || length current == max_facts) ≡ false
      → chunk_loop encode index size current chunks (o ∷ os)
        ≡ chunk_loop encode (index + 1) (size + (k + 1)) (current ++ o ∷ []) chunks os
  unfolding chunk_loop
  round_extends o os index size k current chunks q small room = rw (q, chunk_loop, small, room)

  opened-Fills :
      (o : O) (k : ℕ)
      → encode o ≡ some k
      → ltb max_bytes (envelope_bytes + (k + 1)) ≡ false
      → Fills (envelope_bytes + (k + 1)) (o ∷ [])
  opened-Fills o k q small = record {
    measured = rw q (omega arith);
    facts = omega (arith, max_facts-pos);
    bytes = ground arith;
  }

  extended-Fills :
      (o : O) (size k : ℕ) (current : List O)
      → encode o ≡ some k
      → Fills size current
      → (ltb max_bytes (size + (k + 1)) || length current == max_facts) ≡ false
      → Fills (size + (k + 1)) (current ++ o ∷ [])
  extended-Fills o size k current q f room = record {
    measured = omega (arith, f.measured, weight-snoc current o, ap item_bytes q);
    facts = ground (arith, f.facts, length-snoc current o);
    bytes = ground arith;
  }

  chunk_loop-Splits :
      (os : List O) (index size : ℕ) (current : List O) (chunks : List (List O))
      {out : List (List O)}
      → Fills size current
      → All Fits chunks
      → 0 < length current + length os
      → chunk_loop encode index size current chunks os ≡ ok out
      → Splits (concat chunks ++ current ++ os) out
  chunk_loop-Splits [] index size current chunks {out} f a n e =
      let made : chunks ++ current ∷ [] ≡ out = unfold chunk_loop in cc in
      subst (Splits (concat chunks ++ current ++ [])) made (
        simp (concat-append, append-nil),
        All-append chunks current a (closed-Fits f (omega arith)),
      )
  chunk_loop-Splits (o ∷ os) index size current chunks f a n e = elim (Option-cases (encode o)) [
    | inl q ↦ absurd (unfold chunk_loop in ground arith)
    | inr (k, q) ↦ elim (Bool-cases (ltb max_bytes (envelope_bytes + (k + 1)))) [
      | inl big ↦ absurd (unfold chunk_loop in ground arith)
      | inr small ↦
          elim (Bool-cases (ltb max_bytes (size + (k + 1)) || length current == max_facts)) [
            | inl full ↦
                let closed = closed-Fits f (full-pos k f (ground arith) full) in
                let (same, each) =
                  chunk_loop-Splits os (index + 1) (envelope_bytes + (k + 1)) (o ∷ [])
                    (chunks ++ current ∷ []) (opened-Fills o k q small)
                    (All-append chunks current a closed) (omega arith)
                    (sym (round_opens o os index size k current chunks q small full) ∙ e) in
                (same ∙ regroup chunks current o os, each)
            | inr room ↦
                let (same, each) =
                  chunk_loop-Splits os (index + 1) (size + (k + 1)) (current ++ o ∷ []) chunks
                    (extended-Fills o size k current q f room) a
                    (omega (arith, length-snoc current o))
                    (sym (round_extends o os index size k current chunks q small room) ∙ e) in
                (same ∙ simp append_assoc, each)
          ]
    ]
  ]

  -- When the split succeeds, the chunks hold the observations in their order, each once, and every
  -- chunk has between 1 and 10,000 observations and at most 1 MiB of JSON, commas and envelope
  -- included.
  pub workflow_timing_chunks-Splits :
      (os : List O) {out : List (List O)}
      → workflow_timing_chunks encode os ≡ ok out
      → (concat out ≡ os) × All Fits out
  unfolding workflow_timing_chunks
  workflow_timing_chunks-Splits [] e = cc
  workflow_timing_chunks-Splits (o ∷ os) e =
      chunk_loop-Splits (o ∷ os) 0 envelope_bytes [] []
        (record {
          measured = omega arith;
          facts = omega arith;
          bytes = unfold envelope_bytes max_bytes in omega arith;
        })
        tt (omega arith) e

  -- An observation that encodes and fits into a request of its own.
  abbrev pub Sendable : O → Type 0
  Sendable o = (k : ℕ) × (encode o ≡ some k) × (envelope_bytes + (k + 1) ≤ max_bytes)

  chunk_loop_total :
      (os : List O) (index size : ℕ) (current : List O) (chunks : List (List O))
      → All Sendable os
      → (out : List (List O)) × (chunk_loop encode index size current chunks os ≡ ok out)
  chunk_loop_total [] index size current chunks a =
      (chunks ++ current ∷ [], unfold chunk_loop in refl)
  chunk_loop_total (o ∷ os) index size current chunks ((k, q, fits), a) =
      let small : ltb max_bytes (envelope_bytes + (k + 1)) ≡ false = ground arith in
      elim (Bool-cases (ltb max_bytes (size + (k + 1)) || length current == max_facts)) [
        | inl full ↦
            let (out, e) =
              chunk_loop_total os (index + 1) (envelope_bytes + (k + 1)) (o ∷ [])
                (chunks ++ current ∷ []) a in
            (out, round_opens o os index size k current chunks q small full ∙ e)
        | inr room ↦
            let (out, e) =
              chunk_loop_total os (index + 1) (size + (k + 1)) (current ++ o ∷ []) chunks a in
            (out, round_extends o os index size k current chunks q small room ∙ e)
      ]

  -- The split succeeds on every import that is not empty and whose observations are sendable.
  pub workflow_timing_chunks_total :
      (os : List O)
      → os ≢ []
      → All Sendable os
      → (out : List (List O)) × (workflow_timing_chunks encode os ≡ ok out)
  unfolding workflow_timing_chunks
  workflow_timing_chunks_total [] ne a = absurd (ne refl)
  workflow_timing_chunks_total (o ∷ os) ne a = chunk_loop_total (o ∷ os) 0 envelope_bytes [] [] a

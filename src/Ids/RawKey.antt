-- ===== src/Ids/RawKey.antt =====
-- Keys that the SDK mints pass its own check.
use custd_sdk_go.Base.{
  Text, [], all, arith, false, leb, not, refl, some, true, ℕ, ◌&&◌, ◌++◌, ◌<◌, ◌==◌, ◌^◌, ◌∷◌, ◌≡◌,
}
use custd_sdk_go.Base.Int.{pos}
use custd_sdk_go.Base.Decimal.{itoa, parse_digits, parse_digits-itoa, itoa-all}
use custd_sdk_go.Ids.{
  Bytes16, random_uuid, new_raw_request_idempotency_key, cut, parse_int64, parse_unsigned, in_range,
  is_positive, raw_key_is_valid,
}
use custd_sdk_go.Ids.Uuid.{IsBytes, raw_key_matches-random_uuid}

-- A text without the separator is what `cut` finds before it.
cut-append :
    (sep : ℕ) (s t : Text)
    → all (λ c. not (c == sep)) s ≡ true
    → cut sep (s ++ sep ∷ t) ≡ some (s, t)
unfolding cut
cut-append sep [] t h = ground arith
cut-append sep (c ∷ s) t h =
    let ih = cut-append sep s t (ground arith) in
    let ne : (c == sep) ≡ false = ground arith in rw (ne, ih)

digits-no_colon :
    (s : Text) → all (λ c. leb 48 c && leb c 57) s ≡ true → all (λ c. not (c == b':')) s ≡ true
digits-no_colon [] h = refl
digits-no_colon (c ∷ s) h = ground (arith, digits-no_colon s)

parse_unsigned-digits :
    (s : Text) (n : ℕ)
    → parse_digits s ≡ some n
    → n < 2 ^ 63
    → parse_unsigned false s ≡ some (pos n)
unfolding parse_unsigned in_range
parse_unsigned-digits s n e lt = rw (e, parse_unsigned) (ground arith)

parse_int64-digits :
    (s : Text) (n : ℕ)
    → all (λ c. leb 48 c && leb c 57) s ≡ true
    → parse_digits s ≡ some n
    → n < 2 ^ 63
    → parse_int64 s ≡ some (pos n)
unfolding parse_int64 parse_digits
parse_int64-digits [] n h e lt = absurd (ground arith)
parse_int64-digits (c ∷ s) n h e lt =
    let minus : (c == b'-') ≡ false = ground arith in
    let plus : (c == b'+') ≡ false = ground arith in
    rw (minus, plus) (parse_unsigned-digits (c ∷ s) n e lt)

-- A key minted at a positive time that an `int64` holds is accepted by `Validate`.
pub raw_key_is_valid-new :
    (millis : ℕ) (b : Bytes16)
    → 0 < millis
    → millis < 2 ^ 63
    → IsBytes b
    → raw_key_is_valid (new_raw_request_idempotency_key millis b) ≡ true
unfolding raw_key_is_valid new_raw_request_idempotency_key is_positive
raw_key_is_valid-new millis b p lt v =
    let found =
      cut-append b':' (itoa millis) (random_uuid b)
        (digits-no_colon (itoa millis) (itoa-all millis)) in
    let time =
      parse_int64-digits (itoa millis) millis (itoa-all millis) (parse_digits-itoa millis) lt in
    rw (found, raw_key_is_valid, time, raw_key_matches-random_uuid b v) (ground arith)

-- ===== src/Base64/Encode.antt =====
-- The encoder stays within the buffer that it allocates.
use native.Mathlib.Nat.{add-div_right}
use rpm.Base.{
  ℕ, zero, suc, ◌+◌, ◌-◌, ◌*◌, ◌/◌, ◌<◌, ◌≤◌, ◌≡◌, refl, ◌∙◌, true, ◌&&◌, some, [], ◌∷◌, ◌++◌, ltb,
  Bytes, length, take, drop, arith, length-append, length-take, length-drop, Bool-cases,
  Option-cases, inl, inr,
}
use rpm.Base.Int.{ℤ}
use rpm.Base64.{
  encode_block, encode_lines, newline, or_nil, quads_per_line, base64_encode, encoded_len,
}

length-encode_block : (d : Bytes) → length (encode_block d) ≡ (length d + 2) / 3 * 4
unfolding encode_block
length-encode_block [] = refl
length-encode_block (a ∷ []) = refl
length-encode_block (a ∷ b ∷ []) = refl
length-encode_block (a ∷ b ∷ c ∷ d) = omega (arith, length-encode_block d)

lt→ltb : (a b : ℕ) → a < b → ltb a b ≡ true
lt→ltb a b h = ground arith

length-newline : (quads : ℕ) → length (newline quads) ≤ 1
length-newline quads = ground arith

-- A full line takes its four characters a group and a line feed, and the rest of the buffer is
-- large enough for the rest.
encoded_len-line :
    (quads n : ℕ)
    → 0 < quads
    → quads * 3 ≤ n
    → encoded_len quads (n - quads * 3) + (quads * 4 + 1) ≡ encoded_len quads n
unfolding encoded_len
encoded_len-line quads n h k =
    let m = n - quads * 3 in
    let q = quads * 4 in
    let more : (n + 2) / 3 * 4 ≡ (m + 2) / 3 * 4 + q = omega arith in
    let divided : ((m + 2) / 3 * 4 + q) / q ≡ (m + 2) / 3 * 4 / q + 1 =
      add-div_right ((m + 2) / 3 * 4) (omega arith) ∙ omega arith in
    rw (more, divided, lt→ltb 0 quads h) (omega arith)

encoded_len-last :
    (quads n : ℕ) → (n + 2) / 3 * 4 + length (newline quads) + 1 ≤ encoded_len quads n
unfolding encoded_len
encoded_len-last quads n = ground arith

line_facts :
    (quads len : ℕ) → (ltb 0 quads && ltb (quads * 3) len) ≡ true → (0 < quads) × (quads * 3 ≤ len)
line_facts quads len h = ground arith

length-line :
    (quads : ℕ) (d e : Bytes)
    → length (encode_block d ++ (newline quads ++ e)) ≤ (length d + 2) / 3 * 4 + 1 + length e
length-line quads d e = omega (
  arith,
  length-append (encode_block d) (newline quads ++ e),
  length-append (newline quads) e,
  length-encode_block d,
  length-newline quads,
)

length-full_line :
    (quads : ℕ) (all rest : Bytes)
    → 0 < quads
    → quads * 3 ≤ length all
    → length rest + 1 ≤ encoded_len quads (length all - quads * 3)
    → length (encode_block (take (quads * 3) all) ++ (newline quads ++ rest)) + 1
      ≤ encoded_len quads (length all)
length-full_line quads all rest h k r = omega (
  arith,
  length-line quads (take (quads * 3) all) rest,
  length-take (quads * 3) all k,
  encoded_len-line quads (length all) h k,
)

length-last_line :
    (quads : ℕ) (d : Bytes)
    → length (encode_block d ++ newline quads) + 1 ≤ encoded_len quads (length d)
length-last_line quads d = omega (
  arith,
  length-append (encode_block d) (newline quads),
  length-encode_block d,
  encoded_len-last quads (length d),
)

encoded_len_pos : (quads n : ℕ) → 1 ≤ encoded_len quads n
encoded_len_pos quads n = omega (arith, encoded_len-last quads n)

encode_lines-length :
    (fuel quads : ℕ) (bytes : Bytes)
    → length (or_nil (encode_lines fuel quads bytes)) + 1 ≤ encoded_len quads (length bytes)
unfolding encode_lines
encode_lines-length fuel quads [] = encoded_len_pos quads 0
encode_lines-length zero quads (x ∷ xs) = encoded_len_pos quads (length (x ∷ xs))
encode_lines-length (suc fuel) quads (x ∷ xs) =
    elim (Bool-cases (ltb 0 quads && ltb (quads * 3) (length (x ∷ xs)))) [
      | inl e ↦
          let all = x ∷ xs in
          let (positive, fits) = line_facts quads (length all) e in
          let others = encode_lines-length fuel quads (drop (quads * 3) all) in
          elim (Option-cases (encode_lines fuel quads (drop (quads * 3) all))) [
            | inl none_left ↦ rw (e, none_left, encode_lines) (encoded_len_pos quads (length all))
            | inr (rest, found) ↦
                rw (e, found, encode_lines)
                  (length-full_line quads all rest positive fits
                    (rw (found, length-drop (quads * 3) all) at others))
          ]
      | inr e ↦ rw (e, encode_lines) (length-last_line quads (x ∷ xs))
    ]

-- The text and its terminating NUL fit into `encodedlen`.
pub base64_encode-length :
    (bytes text : Bytes) (linelen : ℤ)
    → base64_encode (some bytes) linelen ≡ some text
    → length text + 1 ≤ encoded_len (quads_per_line linelen) (length bytes)
unfolding base64_encode
base64_encode-length bytes text linelen h =
    let q = quads_per_line linelen in
    let same : or_nil (encode_lines (length bytes) q bytes) ≡ text = cc in
    rw same at (encode_lines-length (length bytes) q bytes)

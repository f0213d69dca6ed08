-- ===== src/Base64/RoundTrip.antt =====
-- Decoding undoes encoding, whatever the line length, and the encoder stays within its buffer.
use rpm.Base.{
  ℕ, zero, suc, ◌+◌, ◌*◌, ◌/◌, ◌%◌, ◌<◌, ◌≤◌, ◌≡◌, refl, ap, ◌∙◌, true, ◌&&◌, some, [], ◌∷◌, ◌++◌,
  ◌==◌, ltb, Bytes, length, take, drop, arith, All-take, All-drop, take-append-drop, length-take,
  length-drop, Bool-cases, inl, inr,
}
use rpm.Base.Int.{ℤ}
use rpm.Base64.{
  encode_value, encode_block, encode_lines, newline, quads_per_line, base64_encode, decode_value,
  first, decode_block, count_chars, base64_decode, decoded, decode_counted,
}
use rpm.Base64.Bits.{top_6, low_2, low_4, low_6, decode_value-encode_value, encode_value-visible}
use rpm.Base64.Groups.{
  AllBytes, second_value, third_value, decode_block-newline, decode_block-encode_block,
  decode_block-encode_block_end,
}

-- A character of the alphabet is counted.
count_chars-value :
    (n v : ℕ) (s : Bytes) → v < 64 → count_chars n (encode_value v ∷ s) ≡ count_chars (n + 1) s
unfolding count_chars
count_chars-value n v s h =
    rw (encode_value-visible v h, count_chars, decode_value-encode_value v h)

count_chars-equals : (n : ℕ) (s : Bytes) → count_chars n (b'=' ∷ s) ≡ count_chars (n + 1) s
unfolding count_chars decode_value
count_chars-equals n s = refl

-- A block counts four characters for three bytes or fewer.
count_chars-encode_block :
    (n : ℕ) (d rest : Bytes)
    → AllBytes d
    → count_chars n (encode_block d ++ rest) ≡ count_chars (n + (length d + 2) / 3 * 4) rest
unfolding encode_block
count_chars-encode_block n [] rest h = ap (λ k. count_chars k rest) (omega arith)
count_chars-encode_block n (a ∷ []) rest (ha, h) =
    rw (top_6 a ha, low_2 a ha)
      (count_chars-value n (a / 4) _ (omega arith)
        ∙ count_chars-value (n + 1) (a % 4 * 16) _ (omega arith)
        ∙ count_chars-equals (n + 1 + 1) _
        ∙ count_chars-equals (n + 1 + 1 + 1) rest
        ∙ ap (λ k. count_chars k rest) (omega arith))
count_chars-encode_block n (a ∷ b ∷ []) rest (ha, (hb, h)) =
    rw (top_6 a ha, second_value a b ha hb, low_4 b hb)
      (count_chars-value n (a / 4) _ (omega arith)
        ∙ count_chars-value (n + 1) (a % 4 * 16 + b / 16) _ (omega arith)
        ∙ count_chars-value (n + 1 + 1) (b % 16 * 4) _ (omega arith)
        ∙ count_chars-equals (n + 1 + 1 + 1) rest
        ∙ ap (λ k. count_chars k rest) (omega arith))
count_chars-encode_block n (a ∷ b ∷ c ∷ d) rest (ha, (hb, (hc, h))) =
    rw (top_6 a ha, second_value a b ha hb, third_value b c hb hc, low_6 c hc)
      (count_chars-value n (a / 4) _ (omega arith)
        ∙ count_chars-value (n + 1) (a % 4 * 16 + b / 16) _ (omega arith)
        ∙ count_chars-value (n + 1 + 1) (b % 16 * 4 + c / 64) _ (omega arith)
        ∙ count_chars-value (n + 1 + 1 + 1) (c % 64) _ (omega arith)
        ∙ count_chars-encode_block (n + 1 + 1 + 1 + 1) d rest h
        ∙ ap (λ k. count_chars k rest) (omega arith))

count_chars-newline :
    (n quads : ℕ) (s : Bytes) → count_chars n (newline quads ++ s) ≡ count_chars n s
unfolding count_chars
count_chars-newline n quads s = ground arith

count_chars-end : (n quads : ℕ) → count_chars n (newline quads) ≡ some n
unfolding count_chars
count_chars-end n quads = ground arith

decode_block-newlines :
    (quads : ℕ) (s : Bytes) → decode_block first (newline quads ++ s) ≡ decode_block first s
decode_block-newlines quads s = elim (Bool-cases (ltb 0 quads)) [
  | inl e ↦ rw e (decode_block-newline first s)
  | inr e ↦ rw e
]

-- The text of some bytes: it decodes to them, and the characters that count make whole groups.
record IsText (bytes : Bytes) (text : Bytes) : Type 0 where
  decodes : decode_block first text ≡ bytes
  groups : ℕ
  counts : (n : ℕ) → count_chars n text ≡ some (n + groups * 4)

nil-IsText : IsText [] []
nil-IsText = record {
  decodes = unfold decode_block in refl;
  groups = 0;
  counts = λ n. unfold count_chars in ap some (omega arith);
}

last-IsText : (quads : ℕ) (d : Bytes) → AllBytes d → IsText d (encode_block d ++ newline quads)
last-IsText quads d h = record {
  decodes = decode_block-encode_block_end d quads h;
  groups = (length d + 2) / 3;
  counts = λ n. count_chars-encode_block n d (newline quads) h ∙ count_chars-end _ quads;
}

line-IsText :
    (quads : ℕ) (d e s : Bytes)
    → AllBytes d
    → length d % 3 ≡ 0
    → IsText e s
    → IsText (d ++ e) (encode_block d ++ (newline quads ++ s))
line-IsText quads d e s h m t = record {
  decodes =
      decode_block-encode_block d (newline quads ++ s) h m
      ∙ ap (◌++◌ d) (decode_block-newlines quads s ∙ t.decodes);
  groups = (length d + 2) / 3 + t.groups;
  counts = λ n.
      count_chars-encode_block n d (newline quads ++ s) h
      ∙ count_chars-newline _ quads s
      ∙ t.counts _
      ∙ ap some (omega arith);
}

line_facts :
    (quads len : ℕ) → (ltb 0 quads && ltb (quads * 3) len) ≡ true → (0 < quads) × (quads * 3 ≤ len)
line_facts quads len h = ground arith

triple : (n : ℕ) → n * 3 % 3 ≡ 0
triple n = omega arith

-- The loop ends, with a text of the bytes that are left.
encode_lines-IsText :
    (fuel quads : ℕ) (bytes : Bytes)
    → AllBytes bytes
    → length bytes ≤ fuel
    → (text : Bytes) × (encode_lines fuel quads bytes ≡ some text) × IsText bytes text
unfolding encode_lines
encode_lines-IsText fuel quads [] h f = ([], refl, nil-IsText)
encode_lines-IsText zero quads (x ∷ xs) h f = absurd (omega arith)
encode_lines-IsText (suc fuel) quads (x ∷ xs) h f =
    elim (Bool-cases (ltb 0 quads && ltb (quads * 3) (length (x ∷ xs)))) [
      | inl e ↦
          let all = x ∷ xs in
          let n = quads * 3 in
          let (positive, fits) = line_facts quads (length all) e in
          let shorter : length (drop n all) ≤ fuel = omega (arith, length-drop n all) in
          let (text, found, is) =
            encode_lines-IsText fuel quads (drop n all) (All-drop _ n all h) shorter in
          let whole : length (take n all) % 3 ≡ 0 = rw (length-take n all fits) (triple quads) in
          (
            encode_block (take n all) ++ (newline quads ++ text),
            rw (e, found, encode_lines),
            rw (take-append-drop n all) at
                (line-IsText quads (take n all) (drop n all) text (All-take _ n all h) whole is),
          )
      | inr e ↦ (
        encode_block (x ∷ xs) ++ newline quads,
        rw (e, encode_lines),
        last-IsText quads (x ∷ xs) h,
      )
    ]

whole_groups : (n : ℕ) → ((0 + n * 4) % 4 == 0) ≡ true
whole_groups n = ground arith

base64_decode-IsText :
    (bytes text : Bytes) → IsText bytes text → base64_decode (some text) ≡ decoded bytes
unfolding base64_decode decode_counted
base64_decode-IsText bytes text is =
    rw (is.counts 0, decode_counted, whole_groups is.groups) (ap decoded is.decodes)

-- For bytes below 256 and whatever the line length, the loop of the encoder ends within its fuel,
-- and what it writes decodes to the bytes that it was given.
pub base64_decode-encode :
    (bytes : Bytes) (linelen : ℤ)
    → AllBytes bytes
    → (text : Bytes) × (encode_lines (length bytes) (quads_per_line linelen) bytes ≡ some text)
      × (base64_encode (some bytes) linelen ≡ some text)
      × (base64_decode (base64_encode (some bytes) linelen) ≡ decoded bytes)
unfolding base64_encode
base64_decode-encode bytes linelen h =
    let (text, found, is) =
      encode_lines-IsText (length bytes) (quads_per_line linelen) bytes h (omega arith) in
    (
      text,
      found,
      rw (base64_encode, found),
      rw (base64_encode, found) (base64_decode-IsText bytes text is),
    )

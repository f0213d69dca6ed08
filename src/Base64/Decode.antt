-- ===== src/Base64/Decode.antt =====
-- The decoder stays within the buffer that it allocates, on every text that it accepts.
use rpm.Base.{
  ℕ, ◌+◌, ◌*◌, ◌/◌, ◌%◌, ◌<◌, ◌≤◌, ◌≡◌, refl, Bool, true, false, not, ◌||◌, Option, none, some, [],
  ◌∷◌, if◌then◌else◌, Bytes, length, length-append, arith, inl, inr,
}
use rpm.Base.Bits.{all_below, all_below_sound}
use rpm.Base.Int.{ℤ, ℤ-cases, pos, negsuc}
use rpm.Base64.{
  Phase, first, second, third, fourth, decode_value, decode_char, decode_block, count_chars,
  is_visible, base64_decode, decode_counted, decoded, decoded_len,
}
use rpm.Base64.Groups.{AllBytes}

abbrev has_value : ℤ → Bool
has_value (pos n) = true
has_value (negsuc n) = false

-- How many characters of a text have a value.
abbrev valued : Bytes → ℕ
valued [] = 0
valued (c ∷ s) = (if has_value (decode_value c) then 1 else 0) + valued s

-- How many characters of the group have been read.
abbrev place : Phase → ℕ
place first = 0
place (second cur) = 1
place (third cur) = 2
place (fourth cur) = 3

decode_char-length :
    (phase : Phase) (f n : ℕ)
    → length (decode_char phase f).0
        + (place (decode_char phase f).1 + n) * 3 / 4
        + place phase * 3 / 4
      ≡ (place phase + (1 + n)) * 3 / 4 + place (decode_char phase f).1 * 3 / 4
unfolding decode_char
decode_char-length first f n = omega arith
decode_char-length (second cur) f n = omega arith
decode_char-length (third cur) f n = omega arith
decode_char-length (fourth cur) f n = omega arith

visible_table : all_below 256 (λ c. not (has_value (decode_value c)) || is_visible c) ≡ true
unfolding decode_value
visible_table = refl

value_visible : (c : ℕ) → c < 256 → (not (has_value (decode_value c)) || is_visible c) ≡ true
value_visible c h =
    all_below_sound 256 (λ x. not (has_value (decode_value x)) || is_visible x) c visible_table h

-- Every character that has a value is counted.
valued-le-count_chars :
    (s : Bytes) (n m : ℕ) → AllBytes s → count_chars n s ≡ some m → n + valued s ≤ m
unfolding count_chars
valued-le-count_chars [] n m h e = ground arith
valued-le-count_chars (c ∷ s) n m h e = ground (
  arith,
  value_visible c h.0,
  valued-le-count_chars s n m h.1,
  valued-le-count_chars s (n + 1) m h.1,
)

-- Four characters that have a value make three bytes.
decode_block-length :
    (phase : Phase) (s : Bytes)
    → length (decode_block phase s) + place phase * 3 / 4 ≡ (place phase + valued s) * 3 / 4
unfolding decode_block
decode_block-length phase [] = omega arith
decode_block-length phase (c ∷ s) = elim (ℤ-cases (decode_value c)) [
  | inl (f, e) ↦
      rw (e, decode_block)
        (omega (
          arith,
          length-append (decode_char phase f).0 (decode_block (decode_char phase f).1 s),
          decode_block-length (decode_char phase f).1 s,
          decode_char-length phase f (valued s),
        ))
  | inr (n, e) ↦ rw (e, decode_block) (omega (arith, decode_block-length phase s))
]

decoded_len-enough : (n outcnt : ℕ) → n ≤ outcnt → outcnt % 4 ≡ 0 → n * 3 / 4 ≤ decoded_len outcnt
unfolding decoded_len
decoded_len-enough n outcnt h k = omega arith

decode_counted-decoded :
    (counted : Option ℕ) (s bytes : Bytes)
    → decode_counted counted s ≡ decoded bytes
    → (outcnt : ℕ) × (counted ≡ some outcnt) × (outcnt % 4 ≡ 0) × (decode_block first s ≡ bytes)
unfolding decode_counted
decode_counted-decoded none s bytes e = cc
decode_counted-decoded (some outcnt) s bytes e = (outcnt, refl, ground arith, ground arith)

-- A text of bytes below 256 is decoded only if the first loop counts its characters and the count is
-- a multiple of four, and then the decoded bytes are no more than three quarters of the count.
base64_decode-length :
    (s bytes : Bytes)
    → AllBytes s
    → base64_decode (some s) ≡ decoded bytes
    → (outcnt : ℕ) × (count_chars 0 s ≡ some outcnt)
      × (outcnt % 4 ≡ 0)
      × (length bytes ≤ decoded_len outcnt)
unfolding base64_decode
base64_decode-length s bytes h e =
    let (outcnt, counted, whole, same) = decode_counted-decoded (count_chars 0 s) s bytes e in
    let size = rw same at (decode_block-length first s) in
    let all = valued-le-count_chars s 0 outcnt h counted in
    let enough = decoded_len-enough (valued s) outcnt (omega (arith, all)) whole in
    (outcnt, counted, whole, omega (arith, size, enough))

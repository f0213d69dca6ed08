-- ===== src/Base64/Groups.antt =====
-- Groups of four characters: what the decoder makes of the characters of one to three bytes.
use Prim.Native.Nat.{bit_and, bit_or}
use rpm.Base.{
  ℕ, ◌+◌, ◌*◌, ◌/◌, ◌%◌, ◌<◌, ◌≡◌, refl, ap, ◌∙◌, [], ◌∷◌, ◌++◌, ltb, Bytes, length, arith, All,
  Bool-cases, inl, inr,
}
use rpm.Base.Bits.{bit_or_add_4, bit_or_add_16, bit_or_add_64}
use rpm.Base64.{
  encode_value, encode_block, newline, decode_value, Phase, first, second, third, fourth,
  decode_char, decode_block,
}
use rpm.Base64.Bits.{
  top_6, low_2, top_4, low_4, top_2, low_6, middle_2, middle_4, decode_value-encode_value,
}

abbrev pub AllBytes : Bytes → Type 0
AllBytes = All (λ b. b < 256)

-- The four values of three bytes.
module _ (a b : ℕ) (ha : a < 256) (hb : b < 256) where
  pub second_value : bit_or (bit_and a 0x03 * 16) (bit_and b 0xf0 / 16) ≡ a % 4 * 16 + b / 16
  second_value =
      rw (low_2 a ha, top_4 b hb) (bit_or_add_16 (a % 4) (b / 16) (omega arith) (omega arith))

  pub third_value : bit_or (bit_and a 0x0f * 4) (bit_and b 0xc0 / 64) ≡ a % 16 * 4 + b / 64
  third_value =
      rw (low_4 a ha, top_2 b hb) (bit_or_add_4 (a % 16) (b / 64) (omega arith) (omega arith))

-- One character, at each place of a group of four.
module _ (v : ℕ) (h : v < 64) (s : Bytes) where
  at_first : decode_block first (encode_value v ∷ s) ≡ decode_block (second (v * 4)) s
  unfolding decode_block decode_char
  at_first =
      let same : v % 64 * 4 % 256 ≡ v * 4 = omega arith in
      rw (decode_value-encode_value v h, decode_block, low_6 v (omega arith), same)

  at_second :
      (cur : ℕ)
      → decode_block (second cur) (encode_value v ∷ s)
        ≡ bit_or cur (v / 16) ∷ decode_block (third (v % 16 * 16)) s
  unfolding decode_block decode_char
  at_second cur =
      let same : v % 16 * 16 % 256 ≡ v % 16 * 16 = omega arith in
      rw (decode_value-encode_value v h, decode_block, low_4 v (omega arith), middle_2 v h, same)

  at_third :
      (cur : ℕ)
      → decode_block (third cur) (encode_value v ∷ s)
        ≡ bit_or cur (v / 4) ∷ decode_block (fourth (v % 4 * 64)) s
  unfolding decode_block decode_char
  at_third cur =
      let same : v % 4 * 64 % 256 ≡ v % 4 * 64 = omega arith in
      rw (decode_value-encode_value v h, decode_block, low_2 v (omega arith), middle_4 v h, same)

  at_fourth :
      (cur : ℕ)
      → decode_block (fourth cur) (encode_value v ∷ s) ≡ bit_or cur v ∷ decode_block first s
  unfolding decode_block decode_char
  at_fourth cur =
      let same : v % 64 ≡ v = omega arith in
      rw (decode_value-encode_value v h, decode_block, low_6 v (omega arith), same)

-- The three bytes of a group, put together again.
module _ (a b c : ℕ) (ha : a < 256) (hb : b < 256) (hc : c < 256) where
  byte_1 : bit_or (a / 4 * 4) ((a % 4 * 16 + b / 16) / 16) ≡ a
  byte_1 =
      let low : (a % 4 * 16 + b / 16) / 16 ≡ a % 4 = omega arith in
      rw low (bit_or_add_4 (a / 4) (a % 4) (omega arith) (omega arith) ∙ omega arith)

  byte_2 : bit_or ((a % 4 * 16 + b / 16) % 16 * 16) ((b % 16 * 4 + c / 64) / 4) ≡ b
  byte_2 =
      let high : (a % 4 * 16 + b / 16) % 16 ≡ b / 16 = omega arith in
      let low : (b % 16 * 4 + c / 64) / 4 ≡ b % 16 = omega arith in
      rw (high, low) (bit_or_add_16 (b / 16) (b % 16) (omega arith) (omega arith) ∙ omega arith)

  byte_3 : bit_or ((b % 16 * 4 + c / 64) % 4 * 64) (c % 64) ≡ c
  byte_3 =
      let high : (b % 16 * 4 + c / 64) % 4 ≡ c / 64 = omega arith in
      rw high (bit_or_add_64 (c / 64) (c % 64) (omega arith) (omega arith) ∙ omega arith)

-- The decoder on the characters of the values of three bytes, which need not all be there.
module _ (a b c : ℕ) (ha : a < 256) (hb : b < 256) (hc : c < 256) (s : Bytes) where
  pub one_byte :
      decode_block first (encode_value (a / 4) ∷ encode_value (a % 4 * 16 + b / 16) ∷ s)
      ≡ a ∷ decode_block (third ((a % 4 * 16 + b / 16) % 16 * 16)) s
  one_byte = rw (
    at_first (a / 4) (omega arith),
    at_second (a % 4 * 16 + b / 16) (omega arith),
    byte_1 a b c ha hb hc,
  )

  pub two_bytes :
      decode_block
        (third ((a % 4 * 16 + b / 16) % 16 * 16))
        (encode_value (b % 16 * 4 + c / 64) ∷ s)
      ≡ b ∷ decode_block (fourth ((b % 16 * 4 + c / 64) % 4 * 64)) s
  two_bytes = rw (at_third (b % 16 * 4 + c / 64) (omega arith), byte_2 a b c ha hb hc)

  pub three_bytes :
      decode_block (fourth ((b % 16 * 4 + c / 64) % 4 * 64)) (encode_value (c % 64) ∷ s)
      ≡ c ∷ decode_block first s
  three_bytes = rw (at_fourth (c % 64) (omega arith), byte_3 a b c ha hb hc)

-- `=` and a line feed complete nothing.
pub decode_block-equals :
    (phase : Phase) (s : Bytes) → decode_block phase (b'=' ∷ s) ≡ decode_block phase s
unfolding decode_block decode_value
decode_block-equals phase s = refl

pub decode_block-newline :
    (phase : Phase) (s : Bytes) → decode_block phase (b'\n' ∷ s) ≡ decode_block phase s
unfolding decode_block decode_value
decode_block-newline phase s = refl

-- What is left at the end of a text whatever the phase.
pub decode_block-end : (phase : Phase) (quads : ℕ) → decode_block phase (newline quads) ≡ []
decode_block-end phase quads = elim (Bool-cases (ltb 0 quads)) [
  | inl e ↦ rw e (decode_block-newline phase [] ∙ unfold decode_block in refl)
  | inr e ↦ rw e (unfold decode_block in refl)
]

-- Three bytes.
group :
    (a b c : ℕ) (s : Bytes)
    → a < 256
    → b < 256
    → c < 256
    → decode_block first (encode_block (a ∷ b ∷ c ∷ []) ++ s) ≡ a ∷ b ∷ c ∷ decode_block first s
unfolding encode_block
group a b c s ha hb hc =
    rw (top_6 a ha, second_value a b ha hb, third_value b c hb hc, low_6 c hc)
      (one_byte a b c ha hb hc _
        ∙ ap (◌∷◌ a) (two_bytes a b c ha hb hc _ ∙ ap (◌∷◌ b) (three_bytes a b c ha hb hc s)))

-- Of a row of whole groups nothing is left over.
pub decode_block-encode_block :
    (d rest : Bytes)
    → AllBytes d
    → length d % 3 ≡ 0
    → decode_block first (encode_block d ++ rest) ≡ d ++ decode_block first rest
unfolding encode_block
decode_block-encode_block [] rest h m = refl
decode_block-encode_block (a ∷ []) rest h m = absurd (omega arith)
decode_block-encode_block (a ∷ b ∷ []) rest h m = absurd (omega arith)
decode_block-encode_block (a ∷ b ∷ c ∷ d) rest (ha, (hb, (hc, h))) m =
    group a b c (encode_block d ++ rest) ha hb hc
    ∙ ap (λ x. a ∷ b ∷ c ∷ x) (decode_block-encode_block d rest h (omega arith))

-- The last block may end within a group.
pub decode_block-encode_block_end :
    (d : Bytes) (quads : ℕ) → AllBytes d → decode_block first (encode_block d ++ newline quads) ≡ d
unfolding encode_block
decode_block-encode_block_end [] quads h = decode_block-end first quads
decode_block-encode_block_end (a ∷ []) quads (ha, h) =
    let none_behind : bit_and a 0x03 * 16 ≡ a % 4 * 16 + 0 / 16 = omega (arith, low_2 a ha) in
    rw (top_6 a ha, none_behind)
      (one_byte a 0 0 ha (omega arith) (omega arith) (b'=' ∷ b'=' ∷ newline quads)
        ∙ ap (◌∷◌ a) (rw (decode_block-equals, decode_block-equals) (decode_block-end _ quads)))
decode_block-encode_block_end (a ∷ b ∷ []) quads (ha, (hb, h)) =
    let none_behind : bit_and b 0x0f * 4 ≡ b % 16 * 4 + 0 / 64 = omega (arith, low_4 b hb) in
    rw (top_6 a ha, second_value a b ha hb, none_behind)
      (one_byte a b 0 ha hb (omega arith) _
        ∙ ap (◌∷◌ a) (
            two_bytes a b 0 ha hb (omega arith) (b'=' ∷ newline quads)
            ∙ ap (◌∷◌ b) (rw decode_block-equals (decode_block-end _ quads))))
decode_block-encode_block_end (a ∷ b ∷ c ∷ d) quads (ha, (hb, (hc, h))) =
    group a b c (encode_block d ++ newline quads) ha hb hc
    ∙ ap (λ x. a ∷ b ∷ c ∷ x) (decode_block-encode_block_end d quads h)

-- ===== src/Base64/Bits.antt =====
-- The bit fields that the encoder cuts out of a byte and the decoder out of a value below 64, and
-- the two alphabets.
use Prim.Native.Nat.{bit_and}
use rpm.Base.{ℕ, ◌/◌, ◌%◌, ◌<◌, ◌≡◌, refl, true, ◌==◌, arith}
use rpm.Base.Bits.{agree_below, all_below, all_below_sound}
use rpm.Base.Int.{ℤ, pos, negsuc}
use rpm.Base64.{encode_value, decode_value, is_visible}

module _ (a : ℕ) (h : a < 256) where
  pub top_6 : bit_and a 0xfc / 4 ≡ a / 4
  top_6 = agree_below 256 (λ x. bit_and x 0xfc / 4) (λ x. x / 4) refl a h

  pub low_2 : bit_and a 0x03 ≡ a % 4
  low_2 = agree_below 256 (λ x. bit_and x 0x03) (λ x. x % 4) refl a h

  pub top_4 : bit_and a 0xf0 / 16 ≡ a / 16
  top_4 = agree_below 256 (λ x. bit_and x 0xf0 / 16) (λ x. x / 16) refl a h

  pub low_4 : bit_and a 0x0f ≡ a % 16
  low_4 = agree_below 256 (λ x. bit_and x 0x0f) (λ x. x % 16) refl a h

  pub top_2 : bit_and a 0xc0 / 64 ≡ a / 64
  top_2 = agree_below 256 (λ x. bit_and x 0xc0 / 64) (λ x. x / 64) refl a h

  pub low_6 : bit_and a 0x3f ≡ a % 64
  low_6 = agree_below 256 (λ x. bit_and x 0x3f) (λ x. x % 64) refl a h

module _ (f : ℕ) (h : f < 64) where
  pub middle_2 : bit_and f 0x30 / 16 ≡ f / 16
  middle_2 = agree_below 64 (λ x. bit_and x 0x30 / 16) (λ x. x / 16) refl f h

  pub middle_4 : bit_and f 0x3c / 4 ≡ f / 4
  middle_4 = agree_below 64 (λ x. bit_and x 0x3c / 4) (λ x. x / 4) refl f h

-- The value, or 64 for a character that has none.
value_or_64 : ℤ → ℕ
value_or_64 (pos n) = n
value_or_64 (negsuc n) = 64

decode_encode_table : all_below 64 (λ v. value_or_64 (decode_value (encode_value v)) == v) ≡ true
unfolding decode_value encode_value value_or_64
decode_encode_table = refl

value_or_64-pos : (z : ℤ) (v : ℕ) → value_or_64 z ≡ v → v < 64 → z ≡ pos v
unfolding value_or_64
value_or_64-pos (pos n) v h k = ground arith
value_or_64-pos (negsuc n) v h k = absurd (omega arith)

-- The decoder reads every character of the encoder's alphabet back.
pub decode_value-encode_value : (v : ℕ) → v < 64 → decode_value (encode_value v) ≡ pos v
decode_value-encode_value v h =
    value_or_64-pos (decode_value (encode_value v)) v
      (agree_below 64 (λ x. value_or_64 (decode_value (encode_value x))) (λ x. x)
        decode_encode_table v h)
      h

visible_table : all_below 64 (λ v. is_visible (encode_value v)) ≡ true
unfolding encode_value
visible_table = refl

pub encode_value-visible : (v : ℕ) → v < 64 → is_visible (encode_value v) ≡ true
encode_value-visible v h = all_below_sound 64 (λ x. is_visible (encode_value x)) v visible_table h

-- ===== src/Base64.antt =====
-- rpmio/base64.cc: base64 with line breaks. Bytes and characters are numbers below 256; the
-- results of `malloc` are not modelled (it is taken to succeed), nor are the buffers, whose sizes
-- are functions here.
pub mod Bits
pub mod Encode
pub mod Decode
pub mod Groups
pub mod RoundTrip
mod Examples
use Prim.Native.Nat.{bit_and, bit_or}
use rpm.Base.{
  ℕ, zero, suc, ◌+◌, ◌-◌, ◌*◌, ◌/◌, ◌%◌, Bool, true, false, ◌&&◌, Option, none, some, List, [], ◌∷◌,
  ◌++◌, ◌==◌, leb, ltb, if◌then◌else◌, Bytes, codes, length, take, drop,
}
use rpm.Base.Int.{ℤ, pos, negsuc}

-- `base64_encode_value`
abbrev alphabet : Bytes
alphabet = codes "ABCDEFGHIJKLMNOPQRSTUVWXYZabcdefghijklmnopqrstuvwxyz0123456789+/"

abbrev pub nth {ℓ} : {A : Type ℓ} → List A → ℕ → A → A
nth [] i d = d
nth (x ∷ xs) zero d = x
nth (x ∷ xs) (suc i) d = nth xs i d

pub encode_value : ℕ → ℕ
encode_value v = if ltb 63 v then b'=' else nth alphabet v b'='

-- `base64_encode_block`
pub encode_block : Bytes → Bytes
unfolding encode_value
encode_block [] = []
encode_block (a ∷ []) =
    encode_value (bit_and a 0xfc / 4) ∷ encode_value (bit_and a 0x03 * 16) ∷ b'=' ∷ b'=' ∷ []
encode_block (a ∷ b ∷ []) =
    encode_value (bit_and a 0xfc / 4)
    ∷ encode_value (bit_or (bit_and a 0x03 * 16) (bit_and b 0xf0 / 16))
    ∷ encode_value (bit_and b 0x0f * 4)
    ∷ b'='
    ∷ []
encode_block (a ∷ b ∷ c ∷ rest) =
    encode_value (bit_and a 0xfc / 4)
    ∷ encode_value (bit_or (bit_and a 0x03 * 16) (bit_and b 0xf0 / 16))
    ∷ encode_value (bit_or (bit_and b 0x0f * 4) (bit_and c 0xc0 / 64))
    ∷ encode_value (bit_and c 0x3f)
    ∷ encode_block rest

-- `if (linelen < 0) linelen = BASE64_DEFAULT_LINE_LENGTH; linelen /= 4;`
pub quads_per_line : ℤ → ℕ
quads_per_line (pos n) = n / 4
quads_per_line (negsuc n) = 64 / 4

-- `encodedlen`, the size of the buffer.
pub encoded_len : ℕ → ℕ → ℕ
encoded_len quads len =
    let quad_bytes = (len + 2) / 3 * 4 in
    (if ltb 0 quads then quad_bytes + (quad_bytes / (quads * 4) + 1) else quad_bytes) + 1

abbrev newline : ℕ → Bytes
newline quads = if ltb 0 quads then b'\n' ∷ [] else []

-- `while (len > 0)` on fuel. `none` means that the fuel ran out.
pub encode_lines : ℕ → ℕ → Bytes → Option Bytes
encode_lines fuel quads [] = some []
encode_lines zero quads (x ∷ xs) = none
encode_lines (suc fuel) quads (x ∷ xs) = elim (ltb 0 quads && ltb (quads * 3) (length (x ∷ xs))) [
  | true ↦ elim (encode_lines fuel quads (drop (quads * 3) (x ∷ xs))) [
    | none ↦ none
    | some rest ↦ some (encode_block (take (quads * 3) (x ∷ xs)) ++ (newline quads ++ rest))
  ]
  | false ↦ some (encode_block (x ∷ xs) ++ newline quads)
]

abbrev or_nil : Option Bytes → Bytes
or_nil none = []
or_nil (some s) = s

-- `rpmBase64Encode`. A round consumes at least one byte, so the length is enough fuel.
pub base64_encode : Option Bytes → ℤ → Option Bytes
unfolding encode_lines encode_block quads_per_line
base64_encode none linelen = none
base64_encode (some bytes) linelen =
    some (or_nil (encode_lines (length bytes) (quads_per_line linelen) bytes))

-- The table of `base64_decode_value`, from '+' to 'z': -1 for what stands in no text, -2 for '='.
abbrev values_from : ℕ → ℕ → List ℤ
values_from zero start = []
values_from (suc n) start = pos start ∷ values_from n (start + 1)

abbrev bad : ℤ
bad = negsuc 0

abbrev decoding : List ℤ
decoding =
    pos 62
    ∷ bad
    ∷ bad
    ∷ bad
    ∷ pos 63
    ∷ (values_from 10 52
        ++ (bad ∷ bad ∷ bad ∷ negsuc 1 ∷ bad ∷ bad ∷ bad ∷ values_from 26 0)
        ++ (bad ∷ bad ∷ bad ∷ bad ∷ bad ∷ bad ∷ values_from 26 26))

-- `base64_decode_value`: `value_in -= 43` wraps around.
pub decode_value : ℕ → ℤ
decode_value c =
    let i = (c + 256 - 43) % 256 in if leb (length decoding) i then negsuc 0 else nth decoding i bad

-- Where the loop of `base64_decode_block` stands: at the first character of a group of four, or
-- at a later one with the byte that it has begun.
pub data Phase : Type 0 where
  first : Phase
  second third fourth : ℕ → Phase

-- The bytes that a character completes, and what comes then.
pub decode_char : Phase → ℕ → Bytes × Phase
decode_char first f = ([], second (bit_and f 0x3f * 4 % 256))
decode_char (second cur) f =
    (bit_or cur (bit_and f 0x30 / 16) ∷ [], third (bit_and f 0x0f * 16 % 256))
decode_char (third cur) f =
    (bit_or cur (bit_and f 0x3c / 4) ∷ [], fourth (bit_and f 0x03 * 64 % 256))
decode_char (fourth cur) f = (bit_or cur (bit_and f 0x3f) ∷ [], first)

-- `base64_decode_block`: the bytes that count. Characters of a negative value are passed over.
pub decode_block : Phase → Bytes → Bytes
decode_block phase [] = []
decode_block phase (c ∷ s) = elim (decode_value c) [
  | negsuc n ↦ decode_block phase s
  | pos f ↦ (decode_char phase f).0 ++ decode_block (decode_char phase f).1 s
]

-- `if (*inptr > 32)`, where `char` is signed.
abbrev pub is_visible : ℕ → Bool
is_visible c = ltb 32 c && ltb c 128

-- The first loop of `rpmBase64Decode`: `outcnt`, or nothing at a character that does not belong.
pub count_chars : ℕ → Bytes → Option ℕ
count_chars outcnt [] = some outcnt
count_chars outcnt (c ∷ s) = elim (is_visible c) [
  | false ↦ count_chars outcnt s
  | true ↦ elim (decode_value c) [
    | pos f ↦ count_chars (outcnt + 1) s
    | negsuc zero ↦ none
    | negsuc (suc n) ↦ count_chars (outcnt + 1) s
  ]
]

pub data Decoded : Type 0 where
  fails : ℕ → Decoded
  decoded : Bytes → Decoded

-- The size of the buffer but for the one extra byte.
pub decoded_len : ℕ → ℕ
decoded_len outcnt = outcnt / 4 * 3

-- `rpmBase64Decode`
pub decode_counted : Option ℕ → Bytes → Decoded
decode_counted none s = fails 3
decode_counted (some outcnt) s = if outcnt % 4 == 0 then decoded (decode_block first s) else fails 2

pub base64_decode : Option Bytes → Decoded
unfolding decode_counted count_chars decode_block decode_char decode_value
base64_decode none = fails 1
base64_decode (some s) = decode_counted (count_chars 0 s) s

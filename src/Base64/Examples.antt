-- ===== src/Base64/Examples.antt =====
-- Base64 at concrete texts.
use rpm.Base.{◌+◌, ◌≤◌, ◌≡◌, refl, none, some, Bytes, codes, length, arith}
use rpm.Base.Int.{pos, negsuc}
use rpm.Base64.{
  encode_lines, quads_per_line, encoded_len, base64_encode, base64_decode, decoded, fails,
}
use rpm.Base64.Encode.{base64_encode-length}
use rpm.Base64.RoundTrip.{base64_decode-encode}

abbrev hello : Bytes
hello = codes "hello"

encoded : base64_encode (some hello) (pos 4) ≡ some (codes "aGVs\nbG8=\n")
unfolding base64_encode
encoded = refl

read_back : base64_decode (some (codes "aGVs\nbG8=\n")) ≡ decoded hello
unfolding base64_decode
read_back = refl

errors :
    (base64_decode none ≡ fails 1)
    × (base64_decode (some (codes "aGV")) ≡ fails 2)
    × (base64_decode (some (codes "aG-s")) ≡ fails 3)
unfolding base64_decode
errors = (refl, refl, refl)

base64_decode-encode_example :
    (text : Bytes) × (encode_lines (length hello) (quads_per_line (negsuc 0)) hello ≡ some text)
    × (base64_encode (some hello) (negsuc 0) ≡ some text)
    × (base64_decode (base64_encode (some hello) (negsuc 0)) ≡ decoded hello)
base64_decode-encode_example = base64_decode-encode hello (negsuc 0) (omega arith)

base64_encode-length_example :
    length (codes "aGVs\nbG8=\n") + 1 ≤ encoded_len (quads_per_line (pos 4)) (length hello)
base64_encode-length_example = base64_encode-length hello (codes "aGVs\nbG8=\n") (pos 4) encoded

-- ===== src/Cpio/Reading/Examples.antt =====
-- A stream that is the list of its bytes, and the header of a file "a" of three bytes.
use rpm.Base.{
  ◌⊎◌, ◌≤◌, ◌<◌, leb, ◌≤◌, ℕ, zero, suc, ◌+◌, ◌-◌, ◌*◌, ◌/◌, ◌%◌, ◌^◌, ◌<◌, ◌≡◌, ◌≢◌, refl, sym, ap,
  false, [], ◌∷◌, ◌++◌, append-nil, ltb, length, length-append, take, drop, All, All-append, Bytes,
  arith, if◌then◌else◌, strcmp,
}
use rpm.Cpio.{
  fewer, bytes_left, Io, Cpio, rdonly, wronly, Stat, done, trailer, is_same, num_field,
  physical_header, newc_magic, write_header, write_all, rpmcpio_write_pad, pad_size, zeros,
  set_fileend, and_then, is_wronly, rpmcpio_header_write,
}
use rpm.Cpio.Streams.{IsReliable}
use rpm.Cpio.Reading.{named, rpmcpio_header_read, named_entry, skip_size, skip_data}
use rpm.Cpio.Reading.Fields.{IsHex}
use rpm.Cpio.Reading.Written.{rpmcpio_header_write-done}
use rpm.Cpio.Reading.Skip.{on_stream, skip_data-named_entry}
use rpm.Cpio.Reading.RoundTrip.{rpmcpio_header_read-header_write}

hex_digit : ℕ → ℕ
hex_digit d = if ltb d 10 then 48 + d else 87 + d

digit_value : ℕ → ℕ
digit_value c = if ltb c 58 then c - 48 else c - 87

hex_digits : ℕ → ℕ → Bytes
hex_digits zero n = []
hex_digits (suc k) n = hex_digits k (n / 16) ++ hex_digit (n % 16) ∷ []

hex_value : ℕ → Bytes → ℕ
hex_value acc [] = acc
hex_value acc (c ∷ s) = hex_value (acc * 16 + digit_value c) s

abbrev list_io : Io Bytes
list_io = record {
  fwrite = λ fd b. (fd ++ b, length b);
  fread = λ fd n. (drop n fd, take n fd);
  print_hex = hex_digits 8;
  strtoul = λ s. (hex_value 0 s, length s);
  major = λ dev. dev / 256;
  minor = λ dev. dev % 256;
  chunk = 65536;
}

take_prefix : (b rest : Bytes) → take (length b) (b ++ rest) ≡ b
take_prefix [] rest = refl
take_prefix (c ∷ b) rest = ap (λ x. c ∷ x) (take_prefix b rest)

drop_prefix : (b rest : Bytes) → drop (length b) (b ++ rest) ≡ rest
drop_prefix [] rest = refl
drop_prefix (c ∷ b) rest = drop_prefix b rest

list_io-IsReliable : IsReliable list_io (λ fd. fd)
list_io-IsReliable = record {
  writes = λ fd b. refl;
  written = λ fd b. refl;
  reads = λ fd b rest e. rw e (take_prefix b rest);
  left = λ fd b rest e. rw e (drop_prefix b rest);
}

power : ℕ → ℕ
power zero = 1
power (suc k) = 16 * power k

digit_value-hex_digit : (d : ℕ) → d < 16 → digit_value (hex_digit d) ≡ d
unfolding digit_value hex_digit
digit_value-hex_digit d h = ground arith

hex_value-append : (acc : ℕ) (s t : Bytes) → hex_value acc (s ++ t) ≡ hex_value (hex_value acc s) t
unfolding hex_value
hex_value-append acc [] t = refl
hex_value-append acc (c ∷ s) t = hex_value-append (acc * 16 + digit_value c) s t

hex_value-hex_digits : (k n : ℕ) → n < power k → hex_value 0 (hex_digits k n) ≡ n
unfolding hex_value hex_digits power
hex_value-hex_digits zero n h = omega arith
hex_value-hex_digits (suc k) n h = omega (
  arith,
  hex_value-append 0 (hex_digits k (n / 16)) (hex_digit (n % 16) ∷ []),
  hex_value-hex_digits k (n / 16) (omega arith),
  digit_value-hex_digit (n % 16) (omega arith),
)

length-hex_digits : (k n : ℕ) → length (hex_digits k n) ≡ k
unfolding hex_digits
length-hex_digits zero n = refl
length-hex_digits (suc k) n = omega (
  arith,
  length-append (hex_digits k (n / 16)) (hex_digit (n % 16) ∷ []),
  length-hex_digits k (n / 16),
)

hex_digits-All : (k n : ℕ) → All (λ c. c ≢ 0) (hex_digits k n)
unfolding hex_digits hex_digit
hex_digits-All zero n = tt
hex_digits-All (suc k) n =
    All-append (λ c. c ≢ 0) (hex_digits k (n / 16)) (hex_digit (n % 16) ∷ [])
      (hex_digits-All k (n / 16)) (λ e. ground arith, tt)

list_io-IsHex : IsHex list_io
unfolding power
list_io-IsHex = record {
  wide = λ n. omega (arith, length-hex_digits 8 n);
  eight = λ n h. length-hex_digits 8 n;
  digits = λ n h. hex_digits-All 8 n;
  value = λ n h. ground (arith, hex_value-hex_digits 8 n (omega arith), length-hex_digits 8 n);
}

abbrev file_stat : Stat
file_stat = record {
  ino = 7;
  mode_bits = 33188;
  uid = 0;
  gid = 0;
  nlink = 1;
  mtime = 1700000000;
  size = 3;
  dev = 2049;
  rdev = 0;
}

abbrev new_archive : Cpio Bytes
new_archive = record { fd = []; mode = wronly; offset = 0; fileend = 0 }

abbrev header_text : Bytes
header_text = newc_magic ++ (physical_header list_io file_stat 2 ++ 97 ∷ 0 ∷ [])

abbrev with_header : Cpio Bytes
with_header = record { fd = header_text; mode = wronly; offset = 112; fileend = 115 }

header_written : rpmcpio_header_write list_io new_archive (97 ∷ []) file_stat ≡ done with_header
unfolding rpmcpio_header_write write_header write_all rpmcpio_write_pad pad_size zeros set_fileend
    and_then is_wronly physical_header num_field hex_digits hex_digit
header_written = refl

abbrev reading_archive : Cpio Bytes
reading_archive = record { fd = header_text; mode = rdonly; offset = 0; fileend = 0 }

name_differs : is_same (97 ∷ []) trailer ≡ false
unfolding is_same strcmp
name_differs = refl

rpmcpio_header_read-header_write_example :
    (next : Cpio Bytes) × (rpmcpio_header_read list_io reading_archive
      ≡ done (next, named (97 ∷ [])))
    × (next.fd ≡ [])
    × (next.offset ≡ 112)
    × (next.fileend ≡ 115)
rpmcpio_header_read-header_write_example =
    rpmcpio_header_read-header_write list_io (λ fd. fd) new_archive with_header reading_archive
      (97 ∷ []) header_text [] file_stat list_io-IsReliable list_io-IsHex header_written refl
      (omega arith) (λ e. omega arith, tt) name_differs refl refl refl (omega arith)
      (sym (append-nil header_text))

rpmcpio_header_write-done_example :
    (to : Cpio Bytes) × (rpmcpio_header_write list_io new_archive (97 ∷ []) file_stat ≡ done to)
    × (to.offset % 4 ≡ 0)
    × (to.fileend ≡ (to.offset + 3) % 2 ^ 64)
rpmcpio_header_write-done_example =
    rpmcpio_header_write-done list_io (λ fd. fd) new_archive (97 ∷ []) file_stat list_io-IsReliable
      list_io-IsHex refl refl (omega arith)

-- The size "-0000001".
abbrev minus_one : Cpio Bytes
minus_one = record { fd = []; mode = rdonly; offset = 112; fileend = 111 }

entry_minus_one :
    named_entry list_io (2 ^ 64 - 1) (97 ∷ []) (record minus_one { fileend = 0 })
    ≡ done (minus_one, named (97 ∷ []))
unfolding named_entry is_same strcmp
entry_minus_one = refl

-- A stream that gives nothing for requests of more than 65536 bytes.
abbrev careful : Bytes → ℕ → Bytes × Bytes
careful fd n = if leb n 65536 then list_io.fread fd n else (fd, [])

careful-same : (fd : Bytes) (n : ℕ) → n ≤ 65536 → careful fd n ≡ list_io.fread fd n
careful-same fd n h = ground arith

skip_data-named_entry_example :
    ((2 ^ 64 - 1 < 2 ^ 63)
      × (skip_data (on_stream list_io careful) 1 minus_one ≡ skip_data list_io 1 minus_one))
    ⊎ ((2 ^ 63 ≤ 2 ^ 64 - 1)
        × (65536 < fewer list_io (skip_size list_io minus_one) (bytes_left list_io minus_one)))
skip_data-named_entry_example =
    skip_data-named_entry list_io (record minus_one { fileend = 0 }) minus_one (named (97 ∷ []))
      (2 ^ 64 - 1) (97 ∷ []) careful 1 (omega arith) (omega arith) (omega arith) careful-same
      entry_minus_one

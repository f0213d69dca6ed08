-- ===== src/Cpio/Session/Examples.antt =====
-- A stream that counts its bytes, a file of three bytes written in two parts, and the next header.
use rpm.Base.{ℕ, ◌+◌, ◌≡◌, refl, [], ◌∷◌, length}
use rpm.Cpio.{
  Io, Cpio, wronly, Stat, done, no_field, and_then, rpmcpio_header_write, write_header, write_all,
  rpmcpio_write_pad, pad_size, zeros, set_fileend, is_wronly, physical_header, num_field,
  rpmcpio_write, bytes_left, fewer,
}
use rpm.Cpio.Session.{write_buffers}

abbrev counting : Io ℕ
counting = record {
  fwrite = λ fd b. (fd + length b, length b);
  fread = λ fd n. (fd, []);
  print_hex = λ n. no_field;
  strtoul = λ s. (0, length s);
  major = λ dev. dev;
  minor = λ dev. dev;
  chunk = 65536;
}

abbrev sized : ℕ → Stat
sized n = record {
  ino = 0;
  mode_bits = 0;
  uid = 0;
  gid = 0;
  nlink = 0;
  mtime = 0;
  size = n;
  dev = 0;
  rdev = 0;
}

abbrev at_offset : ℕ → ℕ → Cpio ℕ
at_offset offset fileend = record { fd = offset; mode = wronly; offset = offset; fileend = fileend }

-- The second buffer is cut at the end of the file.
data_written :
    write_buffers counting (at_offset 112 115) ((1 ∷ 2 ∷ []) ∷ (3 ∷ 4 ∷ []) ∷ [])
    ≡ done (at_offset 115 115)
unfolding write_buffers rpmcpio_write bytes_left fewer and_then is_wronly
data_written = refl

second_header :
    rpmcpio_header_write counting (at_offset 115 115) (98 ∷ []) (sized 0) ≡ done (at_offset 228 228)
unfolding rpmcpio_header_write write_header write_all rpmcpio_write_pad pad_size zeros set_fileend
    and_then is_wronly physical_header num_field
second_header = refl

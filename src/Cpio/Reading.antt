-- ===== src/Cpio/Reading.antt =====
-- `rpmcpioHeaderRead`: the next file of an archive.
pub mod Fields
pub mod Written
pub mod Named
pub mod RoundTrip
pub mod Skip
mod Examples
use rpm.Base.{
  ℕ, zero, suc, ◌+◌, ◌*◌, ◌-◌, ◌%◌, ◌^◌, Bool, true, false, not, ◌&&◌, ◌||◌, List, [], ◌∷◌, ◌++◌,
  ◌==◌, ltb, leb, length, take, drop, take_while, Bytes, if◌then◌else◌,
}
use rpm.Cpio.{
  Io, Cpio, Result, done, failed, and_then, bad_magic, bad_header, read_failed, iter_end, is_same,
  is_rdonly, newc_magic, crc_magic, stripped_magic, trailer, bytes_left, rpmcpio_read, read_all,
  rpmcpio_read_pad,
}

-- What a header is for: a file with its name, or the number of a file of the package.
pub data Entry : Type 0 where
  named : Bytes → Entry
  numbered : ℕ → Entry

pub c_text : Bytes → Bytes
c_text b = take_while (λ c. not (c == 0)) b

pub field : ℕ → Bytes → Bytes
field zero hdr = take 8 hdr
field (suc i) hdr = field i (drop 8 hdr)

module _ {Fd : Type 0} (io : Io Fd) where
  -- `strntoul` with the base 16: the value, and the number of bytes up to `*endptr`.
  pub strntoul : Bytes → ℕ × ℕ
  strntoul str =
      let (ret, end) = io.strtoul (c_text str) in
      (ret, if ltb end (length (c_text str)) then end else length str)

  -- `GET_NUM_FIELD`
  pub get_num_field : Bytes → Result ℕ
  get_num_field phys =
      let (log, end) = strntoul phys in if end == 8 then done log else failed bad_header

  -- What the loop asks for: the difference is a signed number there, and where the end of the file is
  -- before the offset it is not cut to the size of the buffer.
  pub skip_size : Cpio Fd → ℕ
  skip_size cpio =
      if ltb io.chunk (bytes_left io cpio) && ltb (bytes_left io cpio) (2 ^ 63)
      then io.chunk
      else bytes_left io cpio

  -- The loop over the data of the last file, with fuel for each of its bytes.
  pub skip_data : ℕ → Cpio Fd → Result (Cpio Fd)
  skip_data zero cpio = done cpio
  skip_data (suc fuel) cpio =
      if cpio.fileend == cpio.offset
      then done cpio
      else and_then (rpmcpio_read io cpio (skip_size cpio))
          (λ r. if length r.1 == skip_size cpio then skip_data fuel r.0 else failed read_failed)

  pub numbered_entry : ℕ → Cpio Fd → Result (Cpio Fd × Entry)
  numbered_entry fx cpio = if fx == 2 ^ 32 - 1 then failed iter_end else done (cpio, numbered fx)

  pub read_stripped : Cpio Fd → Result (Cpio Fd × Entry)
  read_stripped cpio = and_then (read_all io cpio 8 bad_header) (λ r.
      and_then (get_num_field (field 0 r.1))
        (λ fx. and_then (rpmcpio_read_pad io r.0) (numbered_entry (fx % 2 ^ 32))))

  pub named_entry : ℕ → Bytes → Cpio Fd → Result (Cpio Fd × Entry)
  named_entry fsize name cpio =
      if is_same name trailer
      then failed iter_end
      else done (record cpio { fileend = (cpio.offset + fsize) % 2 ^ 64 }, named name)

  -- The name with its padding.
  pub read_name : Cpio Fd → ℕ → ℕ → Result (Cpio Fd × Entry)
  read_name cpio fsize name_size =
      if name_size == 0 || ltb 4096 name_size
      then failed bad_header
      else and_then (read_all io cpio name_size bad_header)
          (λ r. and_then (rpmcpio_read_pad io r.0) (named_entry fsize (c_text r.1)))

  pub read_physical : Cpio Fd → Result (Cpio Fd × Entry)
  read_physical cpio = and_then (read_all io cpio 104 bad_header) (λ r.
      and_then (get_num_field (field 6 r.1)) (λ fsize.
        and_then (get_num_field (field 11 r.1))
          (λ name_size. read_name r.0 fsize (name_size % 2 ^ 32))))

  pub read_behind_magic : Cpio Fd → Bytes → Result (Cpio Fd × Entry)
  read_behind_magic cpio magic =
      if is_same stripped_magic magic
      then read_stripped cpio
      else if not (is_same crc_magic magic) && not (is_same newc_magic magic)
      then failed bad_magic
      else read_physical cpio

  -- `rpmcpioHeaderRead`
  pub rpmcpio_header_read : Cpio Fd → Result (Cpio Fd × Entry)
  rpmcpio_header_read cpio =
      if not (is_rdonly cpio.mode)
      then failed read_failed
      else and_then (skip_data (bytes_left io cpio) cpio) (λ c.
        and_then (rpmcpio_read_pad io c)
          (λ c. and_then (read_all io c 6 bad_magic) (λ r. read_behind_magic r.0 r.1)))

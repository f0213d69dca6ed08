-- ===== src/Cpio/Reading/Named.antt =====
-- `rpmcpioHeaderRead`: the steps over a header whose bytes are ahead.
use rpm.Base.{
  ℕ, ◌+◌, ◌%◌, ◌^◌, ◌<◌, ◌≡◌, ◌≢◌, refl, sym, ap, ◌∙◌, true, false, [], ◌∷◌, ◌++◌, ◌==◌, ltb,
  length, length-append, All, Bytes, arith, ◌||◌, strcmp,
}
use rpm.Cpio.{
  Io, Cpio, rdonly, is_rdonly, Stat, bad_magic, bad_header, Result, done, and_then, read_all,
  rpmcpio_read_pad, pad_size, zeros, newc_magic, crc_magic, stripped_magic, trailer, is_same,
  physical_header, bytes_left,
}
use rpm.Cpio.Streams.{IsReliable, read_all-done, rpmcpio_read_pad-done}
use rpm.Cpio.Reading.{
  Entry, named, field, get_num_field, skip_data, named_entry, read_name, read_physical,
  read_behind_magic, rpmcpio_header_read,
}
use rpm.Cpio.Reading.Fields.{
  IsHex, c_text-nul, get_num_field-num_field, length-physical_header, field-size, field-name_size,
}

not_stripped : is_same stripped_magic newc_magic ≡ false
unfolding is_same strcmp
not_stripped = refl

is_newc : is_same newc_magic newc_magic ≡ true
unfolding is_same strcmp
is_newc = refl

not_crc : is_same crc_magic newc_magic ≡ false
unfolding is_same strcmp
not_crc = refl

module _ {Fd : Type 0} (io : Io Fd) (contents : Fd → Bytes) (ok : IsReliable io contents)
    (hex : IsHex io) where
  pub read_behind_magic-newc :
      (cpio : Cpio Fd) → read_behind_magic io cpio newc_magic ≡ read_physical io cpio
  unfolding read_behind_magic
  read_behind_magic-newc cpio = rw (not_stripped, not_crc, is_newc) refl

  pub rpmcpio_header_read-behind_magic :
      (reader a b : Cpio Fd) (magic : Bytes)
      → reader.mode ≡ rdonly
      → bytes_left io reader ≡ 0
      → rpmcpio_read_pad io reader ≡ done a
      → read_all io a 6 bad_magic ≡ done (b, magic)
      → rpmcpio_header_read io reader ≡ read_behind_magic io b magic
  unfolding rpmcpio_header_read skip_data and_then is_rdonly
  rpmcpio_header_read-behind_magic reader a b magic m n e f = rw (ap is_rdonly m, n, e, f) refl

  -- What is left when a name with its padding, or a header with them, has been read.
  pub record IsNamed (start : ℕ) (path : Bytes) (size : ℕ) (rest : Bytes)
      (got : Result (Cpio Fd × Entry)) (next : Cpio Fd) : Type 0 where
    pub returned : got ≡ done (next, named path)
    pub ahead : contents next.fd ≡ rest
    pub moved : next.offset ≡ start + pad_size start
    pub ends : next.fileend ≡ (next.offset + size) % 2 ^ 64

  read_name-IsNamed :
      (c : Cpio Fd) (path rest : Bytes) (size start : ℕ)
      → c.offset + (length path + 1) ≡ start
      → contents c.fd ≡ (path ++ 0 ∷ []) ++ (zeros (pad_size start) ++ rest)
      → length path < 4096
      → All (λ c. c ≢ 0) path
      → is_same path trailer ≡ false
      → (next : Cpio Fd) × IsNamed start path size rest (read_name io c size (length path + 1)) next
  unfolding read_name and_then named_entry
  read_name-IsNamed c path rest size start at t short text not_trailer =
      let pn : Bytes = path ++ 0 ∷ [] in
      let (d, ed, hd) =
        read_all-done io contents ok c pn (zeros (pad_size start) ++ rest) (length path + 1)
          bad_header t (sym (length-append path (0 ∷ []))) in
      let here : d.offset ≡ start = hd.moved ∙ at in
      let ahead : contents d.fd ≡ zeros (pad_size d.offset) ++ rest =
        hd.ahead ∙ ap (λ x. zeros (pad_size x) ++ rest) (sym here) in
      let (e, ee, he) = rpmcpio_read_pad-done io contents ok d rest ahead in
      let fits : ((length path + 1) == 0 || ltb 4096 (length path + 1)) ≡ false = ground arith in
      (
        record e { fileend = (e.offset + size) % 2 ^ 64 },
        record {
          returned = rw (fits, ed, ee, c_text-nul path [] text, not_trailer) refl;
          ahead = he.ahead;
          moved = he.moved ∙ ap (λ x. x + pad_size x) here;
          ends = refl;
        },
      )

  read_physical-read_name :
      (b c : Cpio Fd) (hdr : Bytes) (size len : ℕ)
      → read_all io b 104 bad_header ≡ done (c, hdr)
      → get_num_field io (field 6 hdr) ≡ done size
      → get_num_field io (field 11 hdr) ≡ done len
      → len < 2 ^ 32
      → read_physical io b ≡ read_name io c size len
  unfolding read_physical and_then
  read_physical-read_name b c hdr size len e f g h =
      let n : len % 2 ^ 32 ≡ len = omega arith in rw (e, f, g, n) refl

  pub read_physical-IsNamed :
      (b : Cpio Fd) (path rest : Bytes) (st : Stat) (start : ℕ)
      → b.offset + 104 + (length path + 1) ≡ start
      → contents b.fd
        ≡ physical_header io st (length path + 1)
          ++ ((path ++ 0 ∷ []) ++ (zeros (pad_size start) ++ rest))
      → length path < 4096
      → All (λ c. c ≢ 0) path
      → is_same path trailer ≡ false
      → st.size < 2 ^ 32
      → (next : Cpio Fd) × IsNamed start path st.size rest (read_physical io b) next
  read_physical-IsNamed b path rest st start at t short text not_trailer size =
      let len = length path + 1 in
      let hdr = physical_header io st len in
      let (c, ec, hc) =
        read_all-done io contents ok b hdr ((path ++ 0 ∷ []) ++ (zeros (pad_size start) ++ rest))
          104 bad_header t (sym (length-physical_header io hex st len)) in
      let fsize =
        ap (get_num_field io) (field-size io hex st len)
        ∙ get_num_field-num_field io hex st.size size in
      let name_size =
        ap (get_num_field io) (field-name_size io hex st len)
        ∙ get_num_field-num_field io hex len (omega arith) in
      let (next, r) =
        read_name-IsNamed c path rest st.size start (omega (arith, hc.moved)) hc.ahead short text
          not_trailer in
      (
        next,
        record {
          returned =
              read_physical-read_name b c hdr st.size len ec fsize name_size (omega arith)
              ∙ r.returned;
          ahead = r.ahead;
          moved = r.moved;
          ends = r.ends;
        },
      )

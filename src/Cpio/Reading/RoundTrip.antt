-- ===== src/Cpio/Reading/RoundTrip.antt =====
-- A header that `rpmcpioHeaderWrite` has written is read by `rpmcpioHeaderRead`.
use rpm.Base.{
  ◌+◌, ◌-◌, ◌%◌, ◌^◌, ◌<◌, ◌≡◌, ◌≢◌, refl, sym, ap, ◌∙◌, false, not, [], ◌∷◌, ◌++◌, append_assoc,
  ◌==◌, leb, length, drop, All, Bool-cases, inl, inr, Bytes, arith, ◌||◌,
}
use rpm.Cpio.{
  Io, Cpio, rdonly, is_wronly, Stat, bad_magic, done, pad_size, zeros, newc_magic, trailer, is_same,
  physical_header, write_header, rpmcpio_header_write, bytes_left,
}
use rpm.Cpio.Streams.{IsReliable, read_all-done, rpmcpio_read_pad-done}
use rpm.Cpio.Reading.{named, rpmcpio_header_read}
use rpm.Cpio.Reading.Fields.{IsHex}
use rpm.Cpio.Reading.Written.{behind_name, entry_text, IsWritten, write_header-IsWritten}
use rpm.Cpio.Reading.Named.{
  read_behind_magic-newc, rpmcpio_header_read-behind_magic, IsNamed, read_physical-IsNamed,
}

disassemble :
    (a b c d e rest : Bytes)
    → a ++ (b ++ (c ++ (d ++ e))) ++ rest ≡ a ++ (b ++ (c ++ (d ++ (e ++ rest))))
disassemble a b c d e rest = simp append_assoc

append_cancel : (a b c : Bytes) → a ++ b ≡ a ++ c → b ≡ c
append_cancel [] b c h = h
append_cancel (x ∷ a) b c h = append_cancel a b c (ap (drop 1) h)

module _ {Fd : Type 0} (io : Io Fd) (contents : Fd → Bytes) (ok : IsReliable io contents)
    (hex : IsHex io) where
  -- A header at the offset of the stream is read.
  read_written :
      (reader : Cpio Fd) (path rest : Bytes) (st : Stat)
      → reader.mode ≡ rdonly
      → reader.fileend ≡ reader.offset
      → reader.offset < 2 ^ 63
      → contents reader.fd ≡ entry_text io reader.offset path st ++ rest
      → length path < 4096
      → All (λ c. c ≢ 0) path
      → is_same path trailer ≡ false
      → st.size < 2 ^ 32
      → (next : Cpio Fd) × IsNamed io contents ok hex
          (behind_name reader.offset path)
          path
          st.size
          rest
          (rpmcpio_header_read io reader)
          next
  unfolding bytes_left entry_text behind_name
  read_written reader path rest st m fe small t short text not_trailer size =
      let len = length path + 1 in
      let hdr = physical_header io st len in
      let pn : Bytes = path ++ 0 ∷ [] in
      let z2 = zeros (pad_size (behind_name reader.offset path)) in
      let tail = hdr ++ (pn ++ (z2 ++ rest)) in
      let t' : contents reader.fd ≡ zeros (pad_size reader.offset) ++ (newc_magic ++ tail) =
        t ∙ disassemble (zeros (pad_size reader.offset)) newc_magic hdr pn z2 rest in
      let none_left : (reader.fileend + 2 ^ 64 - reader.offset) % 2 ^ 64 ≡ 0 = omega arith in
      let (a, ea, ha) = rpmcpio_read_pad-done io contents ok reader (newc_magic ++ tail) t' in
      let (b, eb, hb) = read_all-done io contents ok a newc_magic tail 6 bad_magic ha.ahead refl in
      let (next, r) =
        read_physical-IsNamed io contents ok hex b path rest st (behind_name reader.offset path)
          (omega (arith, ha.moved, hb.moved)) hb.ahead short text not_trailer size in
      (
        next,
        record {
          returned =
              rpmcpio_header_read-behind_magic io contents ok hex reader a b newc_magic m none_left
                ea eb
              ∙ (read_behind_magic-newc io contents ok hex b ∙ r.returned);
          ahead = r.ahead;
          moved = r.moved;
          ends = r.ends;
        },
      )

-- On streams that write and read what they are asked, with digits that are read as the number that
-- was printed: the text that a successful `rpmcpioHeaderWrite` has added for a path of less than 4096
-- bytes without NUL, other than "TRAILER!!!", is read back by `rpmcpioHeaderRead` from an archive at
-- the same offset below 2^63 whose last file has been read in full. It gives the path, and the stream,
-- the offset and the end of the file are then those behind the header as it was written.
pub rpmcpio_header_read-header_write :
    {Fd : Type 0} (io : Io Fd) (contents : Fd → Bytes) (writer to reader : Cpio Fd)
    (path text rest : Bytes) (st : Stat)
    → IsReliable io contents
    → IsHex io
    → rpmcpio_header_write io writer path st ≡ done to
    → contents to.fd ≡ contents writer.fd ++ text
    → length path < 4096
    → All (λ c. c ≢ 0) path
    → is_same path trailer ≡ false
    → reader.mode ≡ rdonly
    → reader.offset ≡ writer.offset
    → reader.fileend ≡ reader.offset
    → reader.offset < 2 ^ 63
    → contents reader.fd ≡ text ++ rest
    → (next : Cpio Fd) × (rpmcpio_header_read io reader ≡ done (next, named path))
      × (contents next.fd ≡ rest)
      × (next.offset ≡ to.offset)
      × (next.fileend ≡ to.fileend)
unfolding rpmcpio_header_write
rpmcpio_header_read-header_write io contents writer to reader path text rest st ok hex e holds short
      name not_trailer m at fe small t =
    let (made, w) = write_header-IsWritten io contents ok hex writer path st in
    elim (Bool-cases (not (is_wronly writer.mode) || not (writer.fileend == writer.offset))) [
      | inl x ↦ absurd (ground arith)
      | inr x ↦ elim (Bool-cases (leb (2 ^ 32 - 1) st.size)) [
        | inl y ↦ absurd (ground arith)
        | inr y ↦
            let written : write_header io writer path st ≡ done to = rw (x, y) at e in
            let q : made ≡ to = ground (arith, w.returned, written) in
            let v : IsWritten io contents ok hex writer path st to = rw q at w in
            let text' : text ≡ entry_text io writer.offset path st =
              append_cancel (contents writer.fd) text (entry_text io writer.offset path st)
                (sym holds ∙ v.holds) in
            let t' : contents reader.fd ≡ entry_text io reader.offset path st ++ rest =
              t ∙ ap (λ x. x ++ rest) (text' ∙ ap (λ o. entry_text io o path st) (sym at)) in
            let (next, r) =
              read_written io contents ok hex reader path rest st m fe small t' short name
                not_trailer (ground arith) in
            let offsets : next.offset ≡ to.offset =
              r.moved
              ∙ (ap (λ o. behind_name o path + pad_size (behind_name o path)) at ∙ sym v.moved) in
            (
              next,
              r.returned,
              r.ahead,
              offsets,
              r.ends ∙ (ap (λ o. (o + st.size) % 2 ^ 64) offsets ∙ sym v.ends),
            )
      ]
    ]

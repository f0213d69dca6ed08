-- ===== src/Cpio/Reading/Written.antt =====
-- `rpmcpioHeaderWrite`: the bytes that it writes, and where it leaves the archive.
use rpm.Base.{
  ℕ, ◌+◌, ◌-◌, ◌%◌, ◌^◌, ◌<◌, ◌≡◌, refl, ap, ◌∙◌, false, not, [], ◌∷◌, ◌++◌, append_assoc, ◌==◌,
  leb, length, length-append, Bytes, arith, ◌||◌,
}
use rpm.Cpio.{
  Io, Cpio, wronly, is_wronly, Stat, done, and_then, pad_size, zeros, newc_magic, physical_header,
  set_fileend, write_header, rpmcpio_header_write,
}
use rpm.Cpio.Streams.{IsReliable, HasWritten, length-zeros, write_all-done, rpmcpio_write_pad-done}
use rpm.Cpio.Reading.Fields.{IsHex, length-physical_header}

-- The offset behind a name that starts at `offset`.
unfoldable pub behind_name : ℕ → Bytes → ℕ
behind_name offset path = offset + pad_size offset + 6 + 104 + (length path + 1)

-- The bytes of a header that is written at `offset`.
unfoldable pub entry_text : {Fd : Type 0} → Io Fd → ℕ → Bytes → Stat → Bytes
entry_text io offset path st =
    zeros (pad_size offset)
    ++ (newc_magic
        ++ (physical_header io st (length path + 1)
            ++ ((path ++ 0 ∷ []) ++ zeros (pad_size (behind_name offset path)))))

assemble : (x a b c d e : Bytes) → x ++ a ++ b ++ c ++ d ++ e ≡ x ++ (a ++ (b ++ (c ++ (d ++ e))))
assemble x a b c d e = simp append_assoc

module _ {Fd : Type 0} (io : Io Fd) (contents : Fd → Bytes) (ok : IsReliable io contents)
    (hex : IsHex io) where
  -- What `write_header` has done.
  pub record IsWritten (cpio : Cpio Fd) (path : Bytes) (st : Stat) (to : Cpio Fd) : Type 0 where
    pub returned : write_header io cpio path st ≡ done to
    pub holds : contents to.fd ≡ contents cpio.fd ++ entry_text io cpio.offset path st
    pub moved : to.offset ≡ behind_name cpio.offset path + pad_size (behind_name cpio.offset path)
    pub ends : to.fileend ≡ (to.offset + st.size) % 2 ^ 64

  pub write_header-IsWritten :
      (cpio : Cpio Fd) (path : Bytes) (st : Stat) → (to : Cpio Fd) × IsWritten cpio path st to
  unfolding write_header and_then set_fileend HasWritten entry_text behind_name
  write_header-IsWritten cpio path st =
      let hdr = physical_header io st (length path + 1) in
      let (a, ea, (ta, oa)) = rpmcpio_write_pad-done io contents ok cpio in
      let (b, eb, (tb, ob)) = write_all-done io contents ok a newc_magic in
      let (c, ec, (tc, oc)) = write_all-done io contents ok b hdr in
      let (d, ed, (td, od)) = write_all-done io contents ok c (path ++ 0 ∷ []) in
      let (e, ee, (te, oe)) = rpmcpio_write_pad-done io contents ok d in
      let at : d.offset ≡ behind_name cpio.offset path = omega (
        arith,
        oa,
        ob,
        oc,
        od,
        length-zeros (pad_size cpio.offset),
        length-physical_header io hex st (length path + 1),
        length-append path (0 ∷ []),
      ) in
      (
        record e { fileend = (e.offset + st.size) % 2 ^ 64 },
        record {
          returned = rw (ea, eb, ec, ed, ee) refl;
          holds =
              te
              ∙ (ap (λ x. x ++ zeros (pad_size d.offset))
                    (td
                      ∙ ap (λ x. x ++ (path ++ 0 ∷ []))
                          (tc ∙ ap (λ x. x ++ hdr) (tb ∙ ap (λ x. x ++ newc_magic) ta)))
                  ∙ (assemble (contents cpio.fd) (zeros (pad_size cpio.offset)) newc_magic hdr
                        (path ++ 0 ∷ []) (zeros (pad_size d.offset))
                      ∙ ap
                          (λ x.
                            contents cpio.fd
                            ++ (zeros (pad_size cpio.offset)
                                ++ (newc_magic
                                    ++ (hdr ++ ((path ++ 0 ∷ []) ++ zeros (pad_size x))))))
                          at));
          moved =
              oe
              ∙ (ap (λ x. d.offset + x) (length-zeros (pad_size d.offset))
                  ∙ ap (λ x. x + pad_size x) at);
          ends = refl;
        },
      )

-- On streams that write what they are asked, with digits that are read as the number that was
-- printed: `rpmcpioHeaderWrite` succeeds on an archive that is open for
-- writing and whose last file is complete, for a file of less than 2^32 - 1 bytes. The offset is then a
-- multiple of four, and the file's end is as far behind it as the file is long, modulo 2^64.
pub rpmcpio_header_write-done :
    {Fd : Type 0} (io : Io Fd) (contents : Fd → Bytes) (cpio : Cpio Fd) (path : Bytes) (st : Stat)
    → IsReliable io contents
    → IsHex io
    → cpio.mode ≡ wronly
    → cpio.fileend ≡ cpio.offset
    → st.size < 2 ^ 32 - 1
    → (to : Cpio Fd) × (rpmcpio_header_write io cpio path st ≡ done to)
      × (to.offset % 4 ≡ 0)
      × (to.fileend ≡ (to.offset + st.size) % 2 ^ 64)
unfolding rpmcpio_header_write pad_size is_wronly
rpmcpio_header_write-done io contents cpio path st ok hex m fe size =
    let (to, w) = write_header-IsWritten io contents ok hex cpio path st in
    let open_for_it : (not (is_wronly cpio.mode) || not (cpio.fileend == cpio.offset)) ≡ false =
      rw (ap is_wronly m) (ground (arith, fe)) in
    let fits : leb (2 ^ 32 - 1) st.size ≡ false = ground (arith, size) in
    (to, rw (open_for_it, fits) w.returned, omega (arith, w.moved), w.ends)

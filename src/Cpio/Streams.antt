-- ===== src/Cpio/Streams.antt =====
-- A stream that does what it is asked: what the calls on it write and read.
use rpm.Base.{
  ℕ, zero, suc, ◌+◌, ◌≡◌, refl, sym, ap, ◌++◌, append-nil, ◌==◌, length, Bool-cases, inl, inr,
  Bytes, arith,
}
use rpm.Cpio.{
  Io, Cpio, Code, done, and_then, write_all, read_all, rpmcpio_write_pad, rpmcpio_read_pad,
  pad_size, zeros, read_failed,
}

-- The stream holds `contents`: what is written goes behind it, what is read is taken from it. Digits
-- of a number below 2^32 are eight bytes other than NUL, which are read as the number.
pub record IsReliable {Fd : Type 0} (io : Io Fd) (contents : Fd → Bytes) : Type 0 where
  pub writes : (fd : Fd) (b : Bytes) → (io.fwrite fd b).1 ≡ length b
  pub written : (fd : Fd) (b : Bytes) → contents (io.fwrite fd b).0 ≡ contents fd ++ b
  pub reads : (fd : Fd) (b rest : Bytes) → contents fd ≡ b ++ rest → (io.fread fd (length b)).1 ≡ b
  pub left :
      (fd : Fd) (b rest : Bytes)
      → contents fd ≡ b ++ rest
      → contents (io.fread fd (length b)).0 ≡ rest

-- `to` is `cpio` with `b` behind what it holds.
unfoldable pub HasWritten : {Fd : Type 0} → (Fd → Bytes) → Cpio Fd → Bytes → Cpio Fd → Type 0
HasWritten contents cpio b to =
    (contents to.fd ≡ contents cpio.fd ++ b) × (to.offset ≡ cpio.offset + length b)

-- `to` is `cpio` with `rest` ahead.
pub record HasRead {Fd : Type 0} (contents : Fd → Bytes) (cpio : Cpio Fd) (n : ℕ) (rest : Bytes)
    (to : Cpio Fd) : Type 0 where
  pub ahead : contents to.fd ≡ rest
  pub moved : to.offset ≡ cpio.offset + n
  pub same_mode : to.mode ≡ cpio.mode
  pub same_end : to.fileend ≡ cpio.fileend

pub length-zeros : (n : ℕ) → length (zeros n) ≡ n
unfolding zeros
length-zeros zero = refl
length-zeros (suc n) = omega (arith, length-zeros n)

module _ {Fd : Type 0} (io : Io Fd) (contents : Fd → Bytes) (ok : IsReliable io contents) where
  pub write_all-done :
      (cpio : Cpio Fd) (b : Bytes)
      → (to : Cpio Fd) × (write_all io cpio b ≡ done to) × HasWritten contents cpio b to
  unfolding write_all HasWritten
  write_all-done cpio b =
      let n = ok.writes cpio.fd b in
      (
        record cpio {
          fd = (io.fwrite cpio.fd b).0;
          offset = cpio.offset + (io.fwrite cpio.fd b).1;
        },
        ground (arith, n),
        (ok.written cpio.fd b, ap (λ x. cpio.offset + x) n),
      )

  pub rpmcpio_write_pad-done :
      (cpio : Cpio Fd)
      → (to : Cpio Fd) × (rpmcpio_write_pad io cpio ≡ done to)
        × HasWritten contents cpio (zeros (pad_size cpio.offset)) to
  unfolding rpmcpio_write_pad HasWritten zeros
  rpmcpio_write_pad-done cpio = elim (Bool-cases (pad_size cpio.offset == 0)) [
    | inl z ↦
        let none_left : pad_size cpio.offset ≡ 0 = ground arith in
        (cpio, rw z refl, rw none_left (sym (append-nil (contents cpio.fd)), omega arith))
    | inr z ↦ let (to, e, h) = write_all-done cpio (zeros (pad_size cpio.offset)) in (to, rw z e, h)
  ]

  pub read_all-done :
      (cpio : Cpio Fd) (b rest : Bytes) (n : ℕ) (code : Code)
      → contents cpio.fd ≡ b ++ rest
      → n ≡ length b
      → (to : Cpio Fd) × (read_all io cpio n code ≡ done (to, b)) × HasRead contents cpio n rest to
  unfolding read_all
  read_all-done cpio b rest n code c e =
      let r : (io.fread cpio.fd n).1 ≡ b = rw e (ok.reads cpio.fd b rest c) in
      let l : contents (io.fread cpio.fd n).0 ≡ rest = rw e (ok.left cpio.fd b rest c) in
      (
        record cpio { fd = (io.fread cpio.fd n).0; offset = cpio.offset + n },
        ground (arith, r, ap length r),
        record { ahead = l; moved = refl; same_mode = refl; same_end = refl },
      )

  pub rpmcpio_read_pad-done :
      (cpio : Cpio Fd) (rest : Bytes)
      → contents cpio.fd ≡ zeros (pad_size cpio.offset) ++ rest
      → (to : Cpio Fd) × (rpmcpio_read_pad io cpio ≡ done to)
        × HasRead contents cpio (pad_size cpio.offset) rest to
  unfolding rpmcpio_read_pad zeros and_then
  rpmcpio_read_pad-done cpio rest c = elim (Bool-cases (pad_size cpio.offset == 0)) [
    | inl z ↦
        let none_left : pad_size cpio.offset ≡ 0 = ground arith in
        (
          cpio,
          rw z refl,
          record {
            ahead = rw none_left at c;
            moved = omega arith;
            same_mode = refl;
            same_end = refl;
          },
        )
    | inr z ↦
        let (to, e, h) =
          read_all-done cpio (zeros (pad_size cpio.offset)) rest (pad_size cpio.offset) read_failed
            c (sym (length-zeros (pad_size cpio.offset))) in
        (to, rw (z, e) refl, h)
  ]

-- ===== src/Cpio/Reading/Skip.antt =====
-- The size of a file that `rpmcpioHeaderRead` has read, and the buffer that its data are skipped with.
use rpm.Base.{
  zero, suc, ◌-◌, ◌==◌, refl, ◌⊎◌, ltb, length, ℕ, ◌+◌, ◌%◌, ◌^◌, ◌≤◌, ◌<◌, ◌≡◌, sym, ap, ◌∙◌,
  Bool-cases, inl, inr, Bytes, arith,
}
use rpm.Cpio.{
  Io, Cpio, Result, done, failed, and_then, rpmcpio_read, fewer, is_same, trailer, bytes_left,
  is_rdonly,
}
use rpm.Cpio.Reading.{Entry, named_entry, skip_size, skip_data}

left_is :
    {Fd : Type 0} (io : Io Fd) (cpio : Cpio Fd) (fsize : ℕ)
    → fsize < 2 ^ 64
    → cpio.offset < 2 ^ 63
    → bytes_left io (record cpio { fileend = (cpio.offset + fsize) % 2 ^ 64 }) ≡ fsize
unfolding bytes_left
left_is io cpio fsize f o = omega arith

and_then-same :
    {A B : Type 0} (r : Result A) (f g : A → Result B)
    → ((a : A) → r ≡ done a → f a ≡ g a)
    → and_then r f ≡ and_then r g
unfolding and_then
and_then-same (done a) f g h = h a refl
and_then-same (failed code) f g h = refl

read_moves :
    {Fd : Type 0} (io : Io Fd) (cpio : Cpio Fd) (n : ℕ) (r : Cpio Fd × Bytes)
    → rpmcpio_read io cpio n ≡ done r
    → (r.0.offset ≡ cpio.offset + length r.1) × (r.0.fileend ≡ cpio.fileend)
unfolding rpmcpio_read
read_moves io cpio n r e = elim (Bool-cases (is_rdonly cpio.mode)) [
  | inl h ↦
      let ran = io.fread cpio.fd (fewer io n (bytes_left io cpio)) in
      let q : (record cpio { fd = ran.0; offset = cpio.offset + length ran.1 }, ran.1) ≡ r =
        ground arith in
      rw (sym q) (refl, refl)
  | inr h ↦ absurd (ground arith)
]

-- The same archive on another stream.
abbrev pub on_stream : {Fd : Type 0} → Io Fd → (Fd → ℕ → Fd × Bytes) → Io Fd
on_stream io fread = record io { fread = fread }

module _ {Fd : Type 0} (io : Io Fd) (fread : Fd → ℕ → Fd × Bytes)
    (same : (fd : Fd) (n : ℕ) → n ≤ io.chunk → fread fd n ≡ io.fread fd n) where
  read-same :
      (cpio : Cpio Fd) (n : ℕ)
      → n ≤ io.chunk
      → rpmcpio_read (on_stream io fread) cpio n ≡ rpmcpio_read io cpio n
  unfolding rpmcpio_read bytes_left fewer
  read-same cpio n h =
      let agreed = same cpio.fd (fewer io n (bytes_left io cpio)) (ground arith) in rw agreed refl

  skip_size-fits :
      (cpio : Cpio Fd)
      → cpio.offset ≤ cpio.fileend
      → cpio.fileend < 2 ^ 64
      → cpio.fileend - cpio.offset < 2 ^ 63
      → (skip_size io cpio ≤ io.chunk) × (skip_size io cpio ≤ cpio.fileend - cpio.offset)
  unfolding skip_size bytes_left
  skip_size-fits cpio h k l = (ground arith, ground arith)

  skip_size-same : (cpio : Cpio Fd) → skip_size (on_stream io fread) cpio ≡ skip_size io cpio
  unfolding skip_size bytes_left
  skip_size-same cpio = refl

  skip_data-same :
      (fuel : ℕ) (cpio : Cpio Fd)
      → cpio.offset ≤ cpio.fileend
      → cpio.fileend < 2 ^ 64
      → cpio.fileend - cpio.offset < 2 ^ 63
      → skip_data (on_stream io fread) fuel cpio ≡ skip_data io fuel cpio
  unfolding skip_data
  skip_data-same zero cpio h k l = refl
  skip_data-same (suc fuel) cpio h k l =
      let (fits, inside) = skip_size-fits cpio h k l in
      elim (Bool-cases (cpio.fileend == cpio.offset)) [
        | inl e ↦ rw e refl
        | inr e ↦
            rw (e, skip_size-same cpio, read-same cpio (skip_size io cpio) fits)
              (and_then-same (rpmcpio_read io cpio (skip_size io cpio)) _ _ (λ r q.
                let (moved, ends) = read_moves io cpio (skip_size io cpio) r q in
                elim (Bool-cases (length r.1 == skip_size io cpio)) [
                  | inl f ↦
                      let all : length r.1 ≡ skip_size io cpio = ground arith in
                      rw f (skip_data-same fuel r.0 (omega arith) (omega arith) (omega arith))
                  | inr f ↦ rw f refl
                ]))
      ]

-- For a header whose size field was read as `fsize`, at an offset below 2^63: either `fsize` is below
-- 2^63, and no round of the loop over the file's data asks for more than the loop's buffer holds, in
-- that the loop does the same on every stream that agrees with the archive's on such requests; or
-- it is not, and the first round asks `Fread` for more than that.
pub skip_data-named_entry :
    {Fd : Type 0} (io : Io Fd) (cpio to : Cpio Fd) (entry : Entry) (fsize : ℕ) (name : Bytes)
    (fread : Fd → ℕ → Fd × Bytes) (fuel : ℕ)
    → fsize < 2 ^ 64
    → cpio.offset < 2 ^ 63
    → io.chunk < 2 ^ 63
    → ((fd : Fd) (n : ℕ) → n ≤ io.chunk → fread fd n ≡ io.fread fd n)
    → named_entry io fsize name cpio ≡ done (to, entry)
    → ((fsize < 2 ^ 63) × (skip_data (on_stream io fread) fuel to ≡ skip_data io fuel to))
      ⊎ ((2 ^ 63 ≤ fsize) × (io.chunk < fewer io (skip_size io to) (bytes_left io to)))
unfolding named_entry
skip_data-named_entry io cpio to entry fsize name fread fuel f o c same e =
    elim (Bool-cases (is_same name trailer)) [
      | inl t ↦ absurd (ground arith)
      | inr t ↦
          let q : record cpio { fileend = (cpio.offset + fsize) % 2 ^ 64 } ≡ to = ground arith in
          let left : bytes_left io to ≡ fsize =
            ap (bytes_left io) (sym q) ∙ left_is io cpio fsize f o in
          elim (Bool-cases (ltb fsize (2 ^ 63))) [
            | inl h ↦
                let ends : (cpio.offset + fsize) % 2 ^ 64 ≡ to.fileend = ap Cpio.fileend q in
                let starts : cpio.offset ≡ to.offset = ap Cpio.offset q in
                let small : fsize < 2 ^ 63 = ground arith in
                inl (
                  small,
                  skip_data-same io fread same fuel to (omega arith) (omega arith) (omega arith),
                )
            | inr h ↦ inr (ground arith, rw left (unfold skip_size fewer in rw left (ground arith)))
          ]
    ]

-- ===== src/Cpio.antt =====
-- lib/cpio.cc: the archive of a package's files. `Io` stands for the calls of rpmio and of the C
-- library. A call that fails ends with its code alone: what the stream or the offset are after it is
-- not modelled. Sizes, times and offsets are not negative.
pub mod Reading
pub mod Streams
pub mod Session
use rpm.Base.{
  ℕ, zero, suc, ◌+◌, ◌-◌, ◌%◌, ◌^◌, Bool, true, false, not, ◌&&◌, ◌||◌, Option, none, some, List,
  [], ◌∷◌, ◌++◌, ◌==◌, ltb, leb, length, take, drop, take_while, Bytes, strcmp, Ordering,
  if◌then◌else◌,
}

-- `Fwrite`, `Fread`, `sprintf` with "%8.8lx", `strtoul` with the base 16 (the value, and the number
-- of bytes it has read), `major`, `minor` and `8 * BUFSIZ`.
pub record Io (Fd : Type 0) : Type 0 where
  pub fwrite : Fd → Bytes → Fd × ℕ
  pub fread : Fd → ℕ → Fd × Bytes
  pub print_hex : ℕ → Bytes
  pub strtoul : Bytes → ℕ × ℕ
  pub major : ℕ → ℕ
  pub minor : ℕ → ℕ
  pub chunk : ℕ

-- `mode & O_ACCMODE`
pub data Mode : Type 0 where
  rdonly : Mode
  wronly : Mode
  rdwr : Mode

-- The codes of `rpmfilesErrorCodes` that cpio.cc returns.
pub data Code : Type 0 where
  iter_end : Code
  bad_magic : Code
  bad_header : Code
  file_size : Code
  write_failed : Code
  read_failed : Code

pub data Result (A : Type 0) : Type 0 where
  done : A → Result A
  failed : Code → Result A

pub and_then : {A B : Type 0} → Result A → (A → Result B) → Result B
and_then (done a) f = f a
and_then (failed code) f = failed code

-- `struct rpmcpio_s`
pub record Cpio (Fd : Type 0) : Type 0 where
  pub fd : Fd
  pub mode : Mode
  pub offset : ℕ
  pub fileend : ℕ

-- The members of `struct stat` that a header has.
pub record Stat : Type 0 where
  pub ino : ℕ
  pub mode_bits : ℕ
  pub uid : ℕ
  pub gid : ℕ
  pub nlink : ℕ
  pub mtime : ℕ
  pub size : ℕ
  pub dev : ℕ
  pub rdev : ℕ

pub is_rdonly : Mode → Bool
is_rdonly rdonly = true
is_rdonly _ = false

pub is_wronly : Mode → Bool
is_wronly wronly = true
is_wronly _ = false

-- `rpmcpioOpen`
pub rpmcpio_open : {Fd : Type 0} → Fd → Mode → Option (Cpio Fd)
rpmcpio_open fd rdwr = none
rpmcpio_open fd rdonly = some (record { fd = fd; mode = rdonly; offset = 0; fileend = 0 })
rpmcpio_open fd wronly = some (record { fd = fd; mode = wronly; offset = 0; fileend = 0 })

abbrev pub newc_magic : Bytes
newc_magic = 48 ∷ 55 ∷ 48 ∷ 55 ∷ 48 ∷ 49 ∷ []

abbrev pub crc_magic : Bytes
crc_magic = 48 ∷ 55 ∷ 48 ∷ 55 ∷ 48 ∷ 50 ∷ []

abbrev pub stripped_magic : Bytes
stripped_magic = 48 ∷ 55 ∷ 48 ∷ 55 ∷ 48 ∷ 88 ∷ []

-- "TRAILER!!!"
abbrev pub trailer : Bytes
trailer = 84 ∷ 82 ∷ 65 ∷ 73 ∷ 76 ∷ 69 ∷ 82 ∷ 33 ∷ 33 ∷ 33 ∷ []

pub is_same : Bytes → Bytes → Bool
is_same a b = elim (strcmp a b) [ Ordering.eq ↦ true | _ ↦ false ]

pub pad_size : ℕ → ℕ
pad_size offset = (4 - offset % 4) % 4

pub zeros : ℕ → Bytes
zeros zero = []
zeros (suc n) = 0 ∷ zeros n

-- The eight digits "00000000" of the fields that are not set.
abbrev pub no_field : Bytes
no_field = 48 ∷ 48 ∷ 48 ∷ 48 ∷ 48 ∷ 48 ∷ 48 ∷ 48 ∷ []

module _ {Fd : Type 0} (io : Io Fd) where
  -- `Fwrite`, the offset and the test of what was written.
  pub write_all : Cpio Fd → Bytes → Result (Cpio Fd)
  write_all cpio b =
      let (fd, written) = io.fwrite cpio.fd b in
      if written == length b
      then done (record cpio { fd = fd; offset = cpio.offset + written })
      else failed write_failed

  -- `rpmcpioWritePad`
  pub rpmcpio_write_pad : Cpio Fd → Result (Cpio Fd)
  rpmcpio_write_pad cpio =
      if pad_size cpio.offset == 0 then done cpio else write_all cpio (zeros (pad_size cpio.offset))

  -- `SET_NUM_FIELD`
  pub num_field : ℕ → Bytes
  num_field val = take 8 (io.print_hex val)

  -- `struct cpioCrcPhysicalHeader`, as `rpmcpioHeaderWrite` fills it.
  pub physical_header : Stat → ℕ → Bytes
  physical_header st len =
      num_field st.ino
      ++ (num_field st.mode_bits
          ++ (num_field st.uid
              ++ (num_field st.gid
                  ++ (num_field st.nlink
                      ++ (num_field st.mtime
                          ++ (num_field st.size
                              ++ (num_field (io.major st.dev)
                                  ++ (num_field (io.minor st.dev)
                                      ++ (num_field (io.major st.rdev)
                                          ++ (num_field (io.minor st.rdev)
                                              ++ (num_field len ++ no_field)))))))))))

  pub set_fileend : ℕ → Cpio Fd → Result (Cpio Fd)
  set_fileend size cpio = done (record cpio { fileend = (cpio.offset + size) % 2 ^ 64 })

  -- The writes of `rpmcpioHeaderWrite`.
  pub write_header : Cpio Fd → Bytes → Stat → Result (Cpio Fd)
  write_header cpio path st = and_then (rpmcpio_write_pad cpio) (λ c.
      and_then (write_all c newc_magic) (λ c.
        and_then (write_all c (physical_header st (length path + 1))) (λ c.
          and_then (write_all c (path ++ 0 ∷ []))
            (λ c. and_then (rpmcpio_write_pad c) (set_fileend st.size)))))

  -- `rpmcpioHeaderWrite`
  pub rpmcpio_header_write : Cpio Fd → Bytes → Stat → Result (Cpio Fd)
  rpmcpio_header_write cpio path st =
      if not (is_wronly cpio.mode) || not (cpio.fileend == cpio.offset)
      then failed write_failed
      else if leb (2 ^ 32 - 1) st.size
      then failed file_size
      else write_header cpio path st

  -- The trailer's header: all digits 0 but the number of links and the size of the name.
  pub trailer_header : Bytes
  trailer_header =
      no_field
      ++ (no_field
          ++ (no_field
              ++ (no_field
                  ++ ((48 ∷ 48 ∷ 48 ∷ 48 ∷ 48 ∷ 48 ∷ 48 ∷ 49 ∷ [])
                      ++ (no_field
                          ++ (no_field
                              ++ (no_field
                                  ++ (no_field
                                      ++ (no_field
                                          ++ (no_field
                                              ++ ((48 ∷ 48 ∷ 48 ∷ 48 ∷ 48 ∷ 48 ∷ 48 ∷ 98 ∷ [])
                                                  ++ no_field)))))))))))

  -- `rpmcpioTrailerWrite`
  pub rpmcpio_trailer_write : Cpio Fd → Result (Cpio Fd)
  rpmcpio_trailer_write cpio =
      if not (cpio.fileend == cpio.offset)
      then failed write_failed
      else and_then (rpmcpio_write_pad cpio) (λ c. and_then (write_all c newc_magic) (λ c.
        and_then (write_all c trailer_header)
          (λ c. and_then (write_all c (trailer ++ 0 ∷ [])) rpmcpio_write_pad)))

  -- `rpmcpioStrippedHeaderWrite`, with `fx` as it is after its conversion to unsigned long.
  pub rpmcpio_stripped_header_write : Cpio Fd → ℕ → ℕ → Result (Cpio Fd)
  rpmcpio_stripped_header_write cpio fx fsize =
      if not (is_wronly cpio.mode) || not (cpio.fileend == cpio.offset)
      then failed write_failed
      else and_then (rpmcpio_write_pad cpio) (λ c. and_then (write_all c stripped_magic) (λ c.
        and_then (write_all c (num_field fx))
          (λ c. and_then (rpmcpio_write_pad c) (set_fileend fsize))))

  -- `rpmcpioClose`, without the release of the stream.
  pub rpmcpio_close : Cpio Fd → Result (Cpio Fd)
  rpmcpio_close cpio = if is_wronly cpio.mode then rpmcpio_trailer_write cpio else done cpio

  -- `fileend - offset`
  pub bytes_left : Cpio Fd → ℕ
  bytes_left cpio = (cpio.fileend + 2 ^ 64 - cpio.offset) % 2 ^ 64

  pub fewer : ℕ → ℕ → ℕ
  fewer size left = if ltb left size then left else size

  -- `rpmcpioWrite`
  pub rpmcpio_write : Cpio Fd → Bytes → Result (Cpio Fd × ℕ)
  rpmcpio_write cpio buf =
      if not (is_wronly cpio.mode)
      then failed write_failed
      else let (fd, written) =
          io.fwrite cpio.fd (take (fewer (length buf) (bytes_left cpio)) buf) in
        done (record cpio { fd = fd; offset = cpio.offset + written }, written)

  -- `rpmcpioRead`
  pub rpmcpio_read : Cpio Fd → ℕ → Result (Cpio Fd × Bytes)
  rpmcpio_read cpio size =
      if not (is_rdonly cpio.mode)
      then failed read_failed
      else let (fd, bytes) = io.fread cpio.fd (fewer size (bytes_left cpio)) in
        done (record cpio { fd = fd; offset = cpio.offset + length bytes }, bytes)

  -- `Fread`, the offset and the test of what was read.
  pub read_all : Cpio Fd → ℕ → Code → Result (Cpio Fd × Bytes)
  read_all cpio n code =
      let (fd, bytes) = io.fread cpio.fd n in
      if length bytes == n
      then done (record cpio { fd = fd; offset = cpio.offset + n }, bytes)
      else failed code

  -- `rpmcpioReadPad`
  pub rpmcpio_read_pad : Cpio Fd → Result (Cpio Fd)
  rpmcpio_read_pad cpio =
      if pad_size cpio.offset == 0
      then done cpio
      else and_then (read_all cpio (pad_size cpio.offset) read_failed) (λ r. done r.0)

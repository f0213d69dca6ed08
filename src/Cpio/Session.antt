-- ===== src/Cpio/Session.antt =====
-- A file of an archive from its header to the next one: the calls of `rpmcpioWrite` between them.
mod Examples
use rpm.Base.{◌≤◌, ◌≢◌, Bool, true, false, List, [], ◌∷◌, length, length-take, Bytes, if◌then◌else◌}
use rpm.Cpio.{Io, Cpio, Mode, Code, Result, done, and_then, rpmcpio_write}

-- One call of `rpmcpioWrite` after the other, whatever they return.
pub write_buffers : {Fd : Type 0} → Io Fd → Cpio Fd → List Bytes → Result (Cpio Fd)
write_buffers io cpio [] = done cpio
write_buffers io cpio (buf ∷ bufs) =
    and_then (rpmcpio_write io cpio buf) (λ r. write_buffers io r.0 bufs)

-- `Fwrite` does not write more than it is given.
unfoldable pub IsShort : {Fd : Type 0} → Io Fd → Type 0
IsShort {Fd} io = (fd : Fd) (b : Bytes) → (io.fwrite fd b).1 ≤ length b

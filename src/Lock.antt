-- ===== src/Lock.antt =====
-- lib/rpmlock.cc: a file lock with nested use. The kernel is a parameter: `grants n type` is the
-- answer to the n-th call of fcntl, for a lock of this type or for giving it up; a lock that is
-- granted is held until another call changes it. Of `open` and `dup` the results are arguments.
pub mod Counting
mod Examples
use Prim.Native.Nat.{bit_and, bit_or}
use rpm.Base.{
  ℕ, ◌+◌, ◌-◌, Bool, true, false, not, ◌&&◌, Option, none, some, List, [], ◌∷◌, ◌==◌, ltb, leb,
  if◌then◌else◌,
}

-- `l_type` of `struct flock`
pub data FlockType : Type 0 where
  read_lock write_lock unlocked : FlockType

abbrev pub lock_read : ℕ
lock_read = 1

abbrev pub lock_write : ℕ
lock_write = 2

abbrev pub lock_wait : ℕ
lock_wait = 4

-- `struct rpmlock_s` without the texts, what the kernel has granted, and how often it was asked.
pub record Lock : Type 0 where
  pub openmode : ℕ
  pub fdrefs : ℕ
  pub held : FlockType
  pub calls : ℕ

-- What `open` for reading and writing gives.
pub data OpenResult : Type 0 where
  opened access_denied read_only_fs other_error : OpenResult

pub new_lock : ℕ → Lock
new_lock openmode = record { openmode = openmode; fdrefs = 1; held = unlocked; calls = 0 }

-- `rpmlock_new`; the second argument says whether the `open` for reading or the `dup` succeeds.
pub rpmlock_new : OpenResult → Bool → Option Lock
unfolding new_lock
rpmlock_new opened fallback = some (new_lock (bit_or lock_write lock_read))
rpmlock_new access_denied fallback = if fallback then some (new_lock lock_read) else none
rpmlock_new read_only_fs fallback = if fallback then some (new_lock lock_read) else none
rpmlock_new other_error fallback = none

pub has_mode : ℕ → ℕ → Bool
has_mode mode bit = not (bit_and mode bit == 0)

-- The type of lock that a mode asks for.
pub wanted_type : ℕ → FlockType
unfolding has_mode
wanted_type mode = if has_mode mode lock_read then read_lock else write_lock

-- A caller's use of the lock.
pub data Use : Type 0 where
  acquires : Bool → ℕ → Use
  releases : Use

module _ (grants : ℕ → FlockType → Bool) where
  -- One call of fcntl.
  pub fcntl : FlockType → Lock → Lock × Bool
  fcntl type l =
      let answer = grants l.calls type in
      (record l { held = if answer then type else l.held; calls = l.calls + 1 }, answer)

  pub add_ref : Lock × Bool → Lock × Bool
  add_ref (l, res) = (record l { fdrefs = l.fdrefs + (if res then 1 else 0) }, res)

  -- `rpmlock_acquire`
  pub rpmlock_acquire : Lock → ℕ → Lock × Bool
  unfolding fcntl add_ref
  rpmlock_acquire l mode =
      if not (has_mode mode l.openmode)
      then (l, false)
      else if ltb 1 l.fdrefs
      then add_ref (l, true)
      else add_ref (fcntl (wanted_type mode) l)

  -- `rpmlock_release`
  pub rpmlock_release : Lock → Lock
  unfolding fcntl
  rpmlock_release l =
      if leb l.fdrefs 1
      then l
      else if l.fdrefs - 1 == 1
      then (fcntl unlocked (record l { fdrefs = l.fdrefs - 1 })).0
      else record l { fdrefs = l.fdrefs - 1 }

  -- `rpmlock_free`: nothing is left where the last reference is dropped.
  pub rpmlock_free : Lock → Option Lock
  rpmlock_free l = if l.fdrefs == 1 then none else some (record l { fdrefs = l.fdrefs - 1 })

  -- `rpmlockAcquire` on a lock that is there; the second argument is `isatty(STDIN_FILENO)`.
  pub lock_acquire : Bool → Lock → ℕ → Lock × Bool
  lock_acquire maywait l mode =
      let (l', locked) = rpmlock_acquire l mode in
      if not locked && (has_mode l'.openmode mode && maywait)
      then rpmlock_acquire l' (bit_or mode lock_wait)
      else (l', locked)

  -- `rpmlockFree` on a lock that is there.
  pub lock_free : Lock → Option Lock
  unfolding rpmlock_release rpmlock_free
  lock_free l = rpmlock_free (rpmlock_release l)

  pub keep_locked : Lock × Bool → Option Lock
  unfolding lock_free
  keep_locked (l, locked) = if locked then some l else lock_free l

  -- `rpmlockNewAcquire`
  pub lock_new_acquire : OpenResult → Bool → Bool → Option Lock
  unfolding rpmlock_new lock_acquire keep_locked
  lock_new_acquire result fallback maywait = elim (rpmlock_new result fallback) [
    | none ↦ none
    | some l ↦ keep_locked (lock_acquire maywait l lock_write)
  ]

  pub use_lock : Lock → Use → Lock
  unfolding lock_acquire rpmlock_release
  use_lock l (acquires maywait mode) = (lock_acquire maywait l mode).0
  use_lock l releases = rpmlock_release l

  pub run : Lock → List Use → Lock
  unfolding use_lock
  run l [] = l
  run l (u ∷ us) = run (use_lock l u) us

-- ===== src/Lock/Counting.antt =====
-- The count of references and the lock of the kernel agree through any history of calls.
use Prim.Native.Nat.{bit_or}
use rpm.Base.{
  some, ℕ, ◌+◌, ◌<◌, ◌≤◌, ◌≡◌, ◌≢◌, ap, Bool, true, false, List, [], ◌∷◌, arith, Bool-cases, inl,
  inr,
}
use rpm.Lock.{
  OpenResult, opened, access_denied, read_only_fs, other_error, rpmlock_new, lock_new_acquire,
  lock_free, rpmlock_free, write_lock, new_lock, keep_locked, add_ref, FlockType, unlocked, Lock,
  fcntl, wanted_type, has_mode, rpmlock_acquire, rpmlock_release, lock_acquire, lock_wait, Use,
  acquires, releases, use_lock, run,
}

-- Either one reference and no lock, or more and a lock.
pub record IsCounted (l : Lock) : Type 0 where
  pub referenced : 1 ≤ l.fdrefs
  pub free : l.fdrefs ≡ 1 → l.held ≡ unlocked
  pub taken : 1 < l.fdrefs → l.held ≢ unlocked

wanted_type-ne : (mode : ℕ) → wanted_type mode ≢ unlocked
unfolding wanted_type
wanted_type-ne mode e = ground arith

module _ (grants : ℕ → FlockType → Bool) where
  rpmlock_acquire-IsCounted :
      (l : Lock) (mode : ℕ) → IsCounted l → IsCounted (rpmlock_acquire grants l mode).0
  unfolding rpmlock_acquire fcntl
  rpmlock_acquire-IsCounted l mode h = ground (arith, wanted_type-ne mode)

  lock_acquire-IsCounted :
      (l : Lock) (maywait : Bool) (mode : ℕ)
      → IsCounted l
      → IsCounted (lock_acquire grants maywait l mode).0
  unfolding lock_acquire
  lock_acquire-IsCounted l maywait mode h =
      let first = rpmlock_acquire-IsCounted l mode h in
      elim (Bool-cases (rpmlock_acquire grants l mode).1) [
        | inl e ↦ ground (arith, first)
        | inr e ↦ ground (
          arith,
          first,
          rpmlock_acquire-IsCounted (rpmlock_acquire grants l mode).0 (bit_or mode lock_wait) first,
        )
      ]

  -- The kernel gives a lock up when it is asked to.
  abbrev pub Unlocks : Type 0
  Unlocks = (n : ℕ) → grants n unlocked ≡ true

  rpmlock_release-IsCounted :
      (l : Lock) → Unlocks → IsCounted l → IsCounted (rpmlock_release grants l)
  unfolding rpmlock_release fcntl
  rpmlock_release-IsCounted l u h = ground (arith, u l.calls)

  use_lock-IsCounted :
      (l : Lock) (call : Use) → Unlocks → IsCounted l → IsCounted (use_lock grants l call)
  unfolding use_lock
  use_lock-IsCounted l (acquires maywait mode) u h = lock_acquire-IsCounted l maywait mode h
  use_lock-IsCounted l releases u h = rpmlock_release-IsCounted l u h

  -- Through any history the kernel's lock is held exactly while there is more than one reference,
  -- if the kernel gives up the lock whenever it is asked to.
  pub run-IsCounted :
      (l : Lock) (history : List Use) → Unlocks → IsCounted l → IsCounted (run grants l history)
  unfolding run
  run-IsCounted l [] u h = h
  run-IsCounted l (call ∷ history) u h =
      run-IsCounted (use_lock grants l call) history u (use_lock-IsCounted l call u h)

  -- What an acquisition that succeeds leaves as it was, and what it adds.
  record Acquired (l l' : Lock) : Type 0 where
    refs : l'.fdrefs ≡ l.fdrefs + 1
    mode_kept : l'.openmode ≡ l.openmode
    held_kept : 1 < l.fdrefs → l'.held ≡ l.held

  rpmlock_acquire-Acquired :
      (l : Lock) (mode : ℕ)
      → (rpmlock_acquire grants l mode).1 ≡ true
      → Acquired l (rpmlock_acquire grants l mode).0
  unfolding rpmlock_acquire fcntl
  rpmlock_acquire-Acquired l mode e = ground arith

  rpmlock_acquire-failed :
      (l : Lock) (mode : ℕ)
      → (rpmlock_acquire grants l mode).1 ≡ false
      → ((rpmlock_acquire grants l mode).0.fdrefs ≡ l.fdrefs)
        × ((rpmlock_acquire grants l mode).0.openmode ≡ l.openmode)
        × ((rpmlock_acquire grants l mode).0.held ≡ l.held)
  unfolding rpmlock_acquire fcntl
  rpmlock_acquire-failed l mode e = ground arith

  lock_acquire-Acquired :
      (l : Lock) (maywait : Bool) (mode : ℕ)
      → (lock_acquire grants maywait l mode).1 ≡ true
      → Acquired l (lock_acquire grants maywait l mode).0
  unfolding lock_acquire
  lock_acquire-Acquired l maywait mode e = elim (Bool-cases (rpmlock_acquire grants l mode).1) [
    | inl f ↦ ground (arith, rpmlock_acquire-Acquired l mode f)
    | inr f ↦ ground (
      arith,
      rpmlock_acquire-failed l mode f,
      rpmlock_acquire-Acquired (rpmlock_acquire grants l mode).0 (bit_or mode lock_wait),
    )
  ]

  -- A release undoes an acquisition that succeeded: the references and the kernel's lock are those
  -- from before it, if the kernel gives up the lock whenever it is asked to.
  rpmlock_release-lock_acquire :
      (l l' : Lock) (maywait : Bool) (mode : ℕ)
      → Unlocks
      → IsCounted l
      → lock_acquire grants maywait l mode ≡ (l', true)
      → ((rpmlock_release grants l').fdrefs ≡ l.fdrefs)
        × ((rpmlock_release grants l').held ≡ l.held)
        × ((rpmlock_release grants l').openmode ≡ l.openmode)
  unfolding rpmlock_release fcntl
  rpmlock_release-lock_acquire l l' maywait mode u h e =
      let got = lock_acquire-Acquired l maywait mode (ap (λ p. p.1) e) in
      let same = ap (λ p. p.0) e in ground (arith, got, same, u l'.calls)

  -- Where rpmlockNewAcquire gives a lock, its file was opened for writing, it has two references
  -- and holds the kernel's lock for writing.
  lock_new_acquire_held :
      (result : OpenResult) (fallback maywait : Bool) (l : Lock)
      → lock_new_acquire grants result fallback maywait ≡ some l
      → (result ≡ opened) × (l.fdrefs ≡ 2) × (l.held ≡ write_lock)
  unfolding lock_new_acquire rpmlock_new new_lock lock_acquire rpmlock_acquire fcntl add_ref
      wanted_type has_mode keep_locked lock_free rpmlock_release rpmlock_free
  lock_new_acquire_held opened fallback true l e = ground arith
  lock_new_acquire_held opened fallback false l e = ground arith
  lock_new_acquire_held access_denied true maywait l e = absurd (ground arith)
  lock_new_acquire_held access_denied false maywait l e = absurd (ground arith)
  lock_new_acquire_held read_only_fs true maywait l e = absurd (ground arith)
  lock_new_acquire_held read_only_fs false maywait l e = absurd (ground arith)
  lock_new_acquire_held other_error fallback maywait l e = absurd (ground arith)

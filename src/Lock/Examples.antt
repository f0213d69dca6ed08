-- ===== src/Lock/Examples.antt =====
-- A run of the lock's functions on small histories.
use rpm.Base.{ℕ, ◌≡◌, zero, suc, refl, Bool, true, false, none, some, List, [], ◌∷◌, arith}
use rpm.Lock.{
  FlockType, read_lock, write_lock, unlocked, lock_read, lock_write, Lock, opened, access_denied,
  rpmlock_new, has_mode, fcntl, wanted_type, rpmlock_acquire, rpmlock_release, lock_acquire,
  lock_free, lock_new_acquire, acquires, releases, use_lock, run, Use,
}
use rpm.Lock.Counting.{IsCounted, run-IsCounted}

-- A kernel that grants all but the second call's lock for writing.
abbrev kernel : ℕ → FlockType → Bool
kernel n read_lock = true
kernel n unlocked = true
kernel zero write_lock = true
kernel (suc zero) write_lock = false
kernel (suc (suc n)) write_lock = true

abbrev fresh : Lock
fresh = record { openmode = 3; fdrefs = 1; held = unlocked; calls = 0 }

abbrev history : List Use
history = acquires false lock_write ∷ acquires true lock_read ∷ releases ∷ releases ∷ []

new_fresh : rpmlock_new opened false ≡ some fresh
unfolding rpmlock_new
new_fresh = refl

new_acquire_denied : lock_new_acquire kernel access_denied true false ≡ none
unfolding lock_new_acquire rpmlock_new lock_acquire rpmlock_acquire has_mode lock_free
    rpmlock_release
new_acquire_denied = refl

run-history :
    run kernel fresh history ≡ record { openmode = 3; fdrefs = 1; held = unlocked; calls = 2 }
unfolding run use_lock lock_acquire rpmlock_acquire rpmlock_release fcntl wanted_type has_mode
run-history = refl

acquired_lem :
    lock_acquire kernel false fresh lock_write
    ≡ ((lock_acquire kernel false fresh lock_write).0, true)
unfolding lock_acquire rpmlock_acquire fcntl wanted_type has_mode
acquired_lem = refl

fresh-IsCounted : IsCounted fresh
fresh-IsCounted = record { referenced = ground arith; free = λ e. refl; taken = λ h. ground arith }

run-IsCounted_example : IsCounted (run kernel fresh history)
run-IsCounted_example = run-IsCounted kernel fresh history (λ n. refl) fresh-IsCounted

abbrev held_lock : Lock
held_lock = record { openmode = 3; fdrefs = 2; held = write_lock; calls = 1 }

new_acquired : lock_new_acquire kernel opened false false ≡ some held_lock
unfolding lock_new_acquire rpmlock_new lock_acquire rpmlock_acquire fcntl wanted_type has_mode
new_acquired = refl

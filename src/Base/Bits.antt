-- ===== src/Base/Bits.antt =====
-- Bit operations at numerals, and facts about them by evaluation over a small range.
use Prim.Native.Nat.{ℕ, zero, suc, ◌+◌, ◌*◌, ◌/◌, ◌%◌, ◌<◌, bit_or}
use mathlib.Core.Path.{◌≡◌, refl}
use mathlib.Core.Bool.{Bool, true, ◌&&◌}
use native.Mathlib.Omega.{arith}
use rpm.Base.Tests.{◌==◌, ==_iff}

-- The test holds of every number below the bound.
abbrev pub all_below : ℕ → (ℕ → Bool) → Bool
all_below zero p = true
all_below (suc n) p = p n && all_below n p

pub all_below_sound : (n : ℕ) (p : ℕ → Bool) (x : ℕ) → all_below n p ≡ true → x < n → p x ≡ true
all_below_sound zero p x h lt = absurd (omega arith)
all_below_sound (suc n) p x h lt = ground (arith, all_below_sound n p x)

-- Two functions that agree below the bound.
pub agree_below :
    (n : ℕ) (f g : ℕ → ℕ) → all_below n (λ x. f x == g x) ≡ true → (x : ℕ) → x < n → f x ≡ g x
agree_below n f g h x lt = (==_iff (f x) (g x)).0 (all_below_sound n (λ y. f y == g y) x h lt)

-- Where the bits of two numbers do not meet, `|` adds them.

pub bit_or_add_4 : (x y : ℕ) → x < 64 → y < 4 → bit_or (x * 4) y ≡ x * 4 + y
bit_or_add_4 x y h k =
    let n = x * 4 + y in
    let high : n / 4 * 4 ≡ x * 4 = omega arith in
    let low : n % 4 ≡ y = omega arith in
    let joined : bit_or (n / 4 * 4) (n % 4) ≡ n =
      agree_below 256 (λ k. bit_or (k / 4 * 4) (k % 4)) (λ k. k) refl n (omega arith) in
    rw (high, low) at joined

pub bit_or_add_16 : (x y : ℕ) → x < 16 → y < 16 → bit_or (x * 16) y ≡ x * 16 + y
bit_or_add_16 x y h k =
    let n = x * 16 + y in
    let high : n / 16 * 16 ≡ x * 16 = omega arith in
    let low : n % 16 ≡ y = omega arith in
    let joined : bit_or (n / 16 * 16) (n % 16) ≡ n =
      agree_below 256 (λ k. bit_or (k / 16 * 16) (k % 16)) (λ k. k) refl n (omega arith) in
    rw (high, low) at joined

pub bit_or_add_64 : (x y : ℕ) → x < 4 → y < 64 → bit_or (x * 64) y ≡ x * 64 + y
bit_or_add_64 x y h k =
    let n = x * 64 + y in
    let high : n / 64 * 64 ≡ x * 64 = omega arith in
    let low : n % 64 ≡ y = omega arith in
    let joined : bit_or (n / 64 * 64) (n % 64) ≡ n =
      agree_below 256 (λ k. bit_or (k / 64 * 64) (k % 64)) (λ k. k) refl n (omega arith) in
    rw (high, low) at joined

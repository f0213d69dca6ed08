-- ===== src/Expr/Compare.antt =====
-- `valueCmpInteger` of rpmio/expression.cc, which subtracts the integers, and their order.
use rpm.Base.{ℕ, ◌+◌, ◌%◌, ◌^◌, ◌<◌, ◌≡◌, ◌&&◌, ◌==◌, ltb, leb, Ordering, arith, if◌then◌else◌}
use rpm.Expr.{integer, value_cmp, is_negative}

-- The int of a number below 2^32, moved up by 2^31.
unfoldable pub biased : ℕ → ℕ
biased i = (i + 2 ^ 31) % 2 ^ 32

unfoldable pub order : ℕ → ℕ → Ordering
order a b = if a == b then Ordering.eq else if ltb a b then Ordering.lt else Ordering.gt

-- Two ints are compared rightly where their difference is an int, and the other way around where it is
-- not.
pub value_cmp-signed :
    (i1 i2 : ℕ)
    → i1 < 2 ^ 32
    → i2 < 2 ^ 32
    → value_cmp (integer i1) (integer i2) ≡ (
        if ltb (biased i1) (biased i2 + 2 ^ 31) && leb (biased i2) (biased i1 + 2 ^ 31)
        then order (biased i1) (biased i2)
        else order (biased i2) (biased i1))
unfolding value_cmp is_negative biased order
value_cmp-signed i1 i2 h1 h2 = ground arith

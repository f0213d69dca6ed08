-- ===== src/Version/Evr.antt =====
-- rpmio/rpmver.cc: `[epoch:]version[-release]` triples. A C string that may be NULL is an
-- `Option Bytes`; the one block of memory that holds the three strings is not modelled.
pub mod Parse
pub mod Print
pub mod Order
pub mod Overlap
pub mod Ranges
mod Examples
use Prim.Native.Nat.{bit_and}
use rpm.Base.{
  ℕ, zero, suc, ◌+◌, ◌-◌, ◌*◌, ◌^◌, Bool, true, false, not, ◌&&◌, ◌||◌, Option, none, some, [], ◌∷◌,
  ◌++◌, Ordering, ◌==◌, leb, ltb, if◌then◌else◌, Bytes, codes, is_empty, take_while, drop_while,
  is_digit, and_then,
}
use rpm.Base.Int.{ℤ, pos, negsuc, is_positive, negate, to_u32}
use rpm.Version.Compare.{at, tail, rpmvercmp}

-- `struct rpmver_s`
pub record Evr : Type 0 where
  pub epoch : Option Bytes
  pub version : Bytes
  pub release : Option Bytes

-- `strrchr(s, c)`: what stands before and after the last `c`.
pub split_last : ℕ → Bytes → Option (Bytes × Bytes)
split_last c [] = none
split_last c (x ∷ s) = elim (split_last c s) [
  | some (before, after) ↦ some (x ∷ before, after)
  | none ↦ if x == c then some ([], s) else none
]

-- The text before the last dash, or all of it, and the text after.
pub before_dash : Bytes → Bytes
before_dash s = elim (split_last b'-' s) [ none ↦ s | some (before, after) ↦ before ]

pub after_dash : Bytes → Option Bytes
after_dash s = elim (split_last b'-' s) [ none ↦ none | some (before, after) ↦ some after ]

-- `parseEVR`, from the leading digits and the rest behind them, in which the last dash is looked for.
pub parse_behind : Bytes → Bytes → Evr
unfolding split_last before_dash after_dash
parse_behind digits s =
    if at b':' s
    then record {
      epoch = some (if is_empty digits then b'0' ∷ [] else digits);
      version = tail (before_dash s);
      release = after_dash s;
    }
    else record { epoch = none; version = digits ++ before_dash s; release = after_dash s }

pub parse_evr : Bytes → Evr
unfolding parse_behind
parse_evr evr = parse_behind (take_while is_digit evr) (drop_while is_digit evr)

-- `rpmverParse`: nothing for NULL and for the empty string.
unfoldable pub rpmver_parse : Option Bytes → Option Evr
unfolding parse_evr
rpmver_parse none = none
rpmver_parse (some []) = none
rpmver_parse (some (c ∷ s)) = some (parse_evr (c ∷ s))

-- `rpmverNew`: nothing without a version.
pub rpmver_new : Option Bytes → Option Bytes → Option Bytes → Option Evr
rpmver_new e none r = none
rpmver_new e (some []) r = none
rpmver_new e (some (c ∷ s)) r = some (record { epoch = e; version = c ∷ s; release = r })

abbrev pub coloned : Option Bytes → Bytes
coloned none = []
coloned (some e) = e ++ b':' ∷ []

abbrev pub dashed : Option Bytes → Bytes
dashed none = []
dashed (some r) = b'-' ∷ r

-- `rpmverEVR`
pub rpmver_evr : Evr → Bytes
rpmver_evr rv = coloned rv.epoch ++ (rv.version ++ dashed rv.release)

-- `atol` of the C library in base 10: white space, a sign, digits; out of range it is the limit.
abbrev is_space : ℕ → Bool
is_space c = c == 32 || leb 9 c && leb c 13

abbrev pub digits_value : ℕ → Bytes → ℕ
digits_value acc [] = acc
digits_value acc (c ∷ s) =
    let rest = digits_value (acc * 10 + (c - b'0')) s in if is_digit c then rest else acc

abbrev long_max : ℕ
long_max = 2 ^ 63 - 1

abbrev clamp : ℕ → ℕ → ℕ
clamp limit n = if leb n limit then n else limit

atol_signed : Bytes → ℤ
atol_signed [] = pos 0
atol_signed (c ∷ s) =
    if c == b'-'
    then negate (clamp (long_max + 1) (digits_value 0 s))
    else pos (clamp long_max (digits_value 0 (if c == b'+' then s else c ∷ s)))

pub atol : Bytes → ℤ
unfolding atol_signed
atol s = atol_signed (drop_while is_space s)

-- `rpmverEVal`
pub rpmver_e_val : Option Evr → ℕ
unfolding atol
rpmver_e_val none = 0
rpmver_e_val (some rv) = elim rv.epoch [ none ↦ 0 | some e ↦ to_u32 (atol e) ]

-- `s && *s`
abbrev pub is_given : Option Bytes → Bool
is_given none = false
is_given (some s) = not (is_empty s)

abbrev pub text : Option Bytes → Bytes
text none = []
text (some s) = s

-- `RPMSENSE_LESS`, `RPMSENSE_GREATER`, `RPMSENSE_EQUAL`, and the test of a bit.
abbrev pub sense_less : ℕ
sense_less = 2

abbrev pub sense_greater : ℕ
sense_greater = 4

abbrev pub sense_equal : ℕ
sense_equal = 8

pub has : ℕ → ℕ → Bool
has flags bit = not (bit_and flags bit == 0)

-- `v1->e && *v1->e && atol(v1->e) > 0`
pub has_positive_epoch : Evr → Bool
has_positive_epoch v = is_given v.epoch && is_positive (atol (text v.epoch))

pub epoch_sense : Evr → Evr → Ordering
epoch_sense v1 v2 =
    if is_given v1.epoch && is_given v2.epoch
    then rpmvercmp (text v1.epoch) (text v2.epoch)
    else if has_positive_epoch v1
    then Ordering.gt
    else if has_positive_epoch v2
    then Ordering.lt
    else Ordering.eq

-- Where epochs and versions agree. Nothing means that the ranges match without more ado.
pub release_sense : Evr → ℕ → Evr → ℕ → Option Ordering
release_sense v1 f1 v2 f2 =
    if is_given v1.release && is_given v2.release
    then some (rpmvercmp (text v1.release) (text v2.release))
    else if is_given v1.release && has f2 sense_equal || is_given v2.release && has f1 sense_equal
    then none
    else some Ordering.eq

-- The ranges to the sides that the flags name overlap.
pub ranges_overlap : Ordering → ℕ → ℕ → Bool
unfolding has
ranges_overlap Ordering.lt f1 f2 = has f1 sense_greater || has f2 sense_less
ranges_overlap Ordering.gt f1 f2 = has f1 sense_less || has f2 sense_greater
ranges_overlap Ordering.eq f1 f2 =
    has f1 sense_equal && has f2 sense_equal
    || has f1 sense_less && has f2 sense_less
    || has f1 sense_greater && has f2 sense_greater

-- The tests of `rpmverOverlap` behind that of the epochs.
pub version_sense : Evr → ℕ → Evr → ℕ → Option Ordering
version_sense v1 f1 v2 f2 = elim (rpmvercmp v1.version v2.version) [
  | Ordering.eq ↦ release_sense v1 f1 v2 f2
  | Ordering.lt ↦ some Ordering.lt
  | Ordering.gt ↦ some Ordering.gt
]

pub sense : Evr → ℕ → Evr → ℕ → Option Ordering
sense v1 f1 v2 f2 = elim (epoch_sense v1 v2) [
  | Ordering.eq ↦ version_sense v1 f1 v2 f2
  | Ordering.lt ↦ some Ordering.lt
  | Ordering.gt ↦ some Ordering.gt
]

-- `rpmverOverlap`
pub rpmver_overlap : Evr → ℕ → Evr → ℕ → Bool
rpmver_overlap v1 f1 v2 f2 = elim (sense v1 f1 v2 f2) [
  | none ↦ true
  | some o ↦ ranges_overlap o f1 f2
]

-- `compare_values`
pub compare_values : Option Bytes → Option Bytes → Ordering
compare_values none none = Ordering.eq
compare_values (some a) none = Ordering.gt
compare_values none (some b) = Ordering.lt
compare_values (some a) (some b) = rpmvercmp a b

abbrev pub epoch_or_zero : Evr → Bytes
epoch_or_zero v = elim v.epoch [ none ↦ b'0' ∷ [] | some e ↦ e ]

-- `rpmverCmp`
pub rpmver_cmp : Evr → Evr → Ordering
unfolding compare_values
rpmver_cmp v1 v2 = and_then (compare_values (some (epoch_or_zero v1)) (some (epoch_or_zero v2))) (
    and_then (compare_values (some v1.version) (some v2.version))
      (compare_values v1.release v2.release))

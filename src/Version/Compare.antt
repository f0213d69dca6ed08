-- ===== src/Version/Compare.antt =====
-- rpmio/rpmvercmp.cc: `rpmvercmp`. The results 1, 0 and -1 are `gt`, `eq` and `lt`. The two
-- cursors are the rests of the strings; the segment ends `str1` and `str2` split each of them.
pub mod Tokens
pub mod Refines
pub mod Order
pub mod Numbers
pub mod Separators
mod Examples
use rpm.Base.{
  ℕ, zero, suc, Bool, true, false, not, ◌&&◌, ◌||◌, Option, none, some, [], ◌∷◌, compare, Ordering,
  ◌==◌, if◌then◌else◌, Bytes, is_empty, length, take_while, drop_while, is_alpha, is_digit,
  is_alnum, strcmp,
}

-- `*s == c`, for a character that is not NUL.
abbrev pub at : ℕ → Bytes → Bool
at c [] = false
at c (x ∷ xs) = x == c

abbrev pub tail : Bytes → Bytes
tail [] = []
tail (x ∷ xs) = xs

-- A character that the comparison looks at: all others separate segments.
pub is_wanted : ℕ → Bool
unfolding is_alnum
is_wanted c = is_alnum c || (c == b'~') || (c == b'^')

-- `while (*one && !risalnum(*one) && *one != '~' && *one != '^') one++;`
pub skip : Bytes → Bytes
unfolding is_wanted
skip s = drop_while (λ c. not (is_wanted c)) s

-- One round of the loop returns from the function, goes round again, or leaves the loop.
pub data Round : Type 0 where
  ret : Ordering → Round
  again : Bytes → Bytes → Round
  leave : Bytes → Bytes → Round

pub tilde_round : Bytes → Bytes → Round
tilde_round one two =
    if not (at b'~' one)
    then ret Ordering.gt
    else if not (at b'~' two)
    then ret Ordering.lt
    else again (tail one) (tail two)

pub caret_round : Bytes → Bytes → Round
caret_round one two =
    if is_empty one
    then ret Ordering.lt
    else if is_empty two
    then ret Ordering.gt
    else if not (at b'^' one)
    then ret Ordering.gt
    else if not (at b'^' two)
    then ret Ordering.lt
    else again (tail one) (tail two)

-- `while (*one == '0') one++;`
pub strip_zeros : Bytes → Bytes
strip_zeros s = drop_while (λ c. c == b'0') s

-- `rc = strcmp(one, two); if (rc) return …;`, else on from the ends of the segments.
pub strcmp_round : Ordering → Bytes → Bytes → Round
strcmp_round Ordering.eq rest1 rest2 = again rest1 rest2
strcmp_round rc rest1 rest2 = ret rc

-- Two numeric segments without their leading zeros: more digits win, then `strcmp`.
pub compare_digits : Bytes → Bytes → Ordering
compare_digits one two = elim (compare (length one) (length two)) [
  | Ordering.gt ↦ Ordering.gt
  | Ordering.lt ↦ Ordering.lt
  | Ordering.eq ↦ strcmp one two
]

-- The segments of both strings, and what follows each.
pub segment_round : Bool → Bytes → Bytes → Bytes → Bytes → Round
unfolding strcmp_round compare_digits strip_zeros
segment_round isnum seg1 rest1 seg2 rest2 =
    if is_empty seg1
    then ret Ordering.lt
    else if is_empty seg2
    then ret (if isnum then Ordering.gt else Ordering.lt)
    else if isnum
    then strcmp_round (compare_digits (strip_zeros seg1) (strip_zeros seg2)) rest1 rest2
    else strcmp_round (strcmp seg1 seg2) rest1 rest2

abbrev pub starts_number : Bytes → Bool
starts_number [] = false
starts_number (c ∷ s) = is_digit c

-- The body of the loop from where both cursors stand on a wanted character or at the end.
pub wanted_round : Bytes → Bytes → Round
unfolding tilde_round caret_round segment_round
wanted_round one two =
    let isnum = starts_number one in
    let part = if isnum then is_digit else is_alpha in
    if at b'~' one || at b'~' two
    then tilde_round one two
    else if at b'^' one || at b'^' two
    then caret_round one two
    else if is_empty one || is_empty two
    then leave one two
    else segment_round isnum (take_while part one) (drop_while part one) (take_while part two)
        (drop_while part two)

pub round : Bytes → Bytes → Round
unfolding wanted_round skip
round one two = wanted_round (skip one) (skip two)

-- After the loop: whichever version still has characters left over wins.
pub left_over : Bytes → Bytes → Ordering
left_over [] [] = Ordering.eq
left_over [] (y ∷ ys) = Ordering.lt
left_over (x ∷ xs) two = Ordering.gt

-- What a round's result leads to, with the rest of the loop as an argument.
pub go_on : (Bytes → Bytes → Option Ordering) → Round → Option Ordering
unfolding left_over
go_on rest (ret o) = some o
go_on rest (leave one two) = some (left_over one two)
go_on rest (again one two) = rest one two

-- `while (*one || *two)`, on fuel. `none` means that the fuel ran out.
pub loop : ℕ → Bytes → Bytes → Option Ordering
unfolding go_on
loop zero one two = none
loop (suc fuel) one two = elim (is_empty one && is_empty two) [
  | true ↦ some (left_over one two)
  | false ↦ go_on (loop fuel) (round one two)
]

-- `rstreq`
pub same_text : Bytes → Bytes → Bool
same_text a b = elim (strcmp a b) [ Ordering.eq ↦ true | _ ↦ false ]

-- Each round that goes on consumes a character of the first string, so one round more than its
-- length is enough fuel: see `loop_enough` below Tokens.
pub rpmvercmp_fuel : Bytes → Bytes → Option Ordering
unfolding loop round same_text
rpmvercmp_fuel a b = if same_text a b then some Ordering.eq else loop (suc (length a)) a b

abbrev or_eq : Option Ordering → Ordering
or_eq none = Ordering.eq
or_eq (some o) = o

unfoldable pub rpmvercmp : Bytes → Bytes → Ordering
unfolding rpmvercmp_fuel
rpmvercmp a b = or_eq (rpmvercmp_fuel a b)

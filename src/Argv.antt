-- ===== src/Argv.antt =====
-- rpmio/argv.cc: arrays of strings and of integers. An array is the list of what stands before its
-- end, a pointer that may be NULL is an option. The loops of argvSplitString run over the copy in
-- which each separator is a NUL.
mod Fields
pub mod Split
pub mod Join
pub mod Numbers
mod Examples
use rpm.Base.{
  ℕ, zero, suc, ◌+◌, ◌-◌, Bool, true, false, not, ◌&&◌, ◌||◌, Option, none, some, List, [], ◌∷◌,
  ◌++◌, ◌==◌, leb, length, take, drop, take_while, is_empty, Bytes, if◌then◌else◌,
}
use rpm.Base.Int.{ℤ, pos, negsuc}

-- `argv` or no strings.
pub strings : Option (List Bytes) → List Bytes
strings none = []
strings (some argv) = argv

-- `argvCount`
pub argv_count : Option (List Bytes) → ℕ
unfolding strings
argv_count argv = length (strings argv)

-- `argvAddN`
pub argv_add_n : Option (List Bytes) → Bytes → ℕ → List Bytes
unfolding strings
argv_add_n argv val len = strings argv ++ take len val ∷ []

-- `argvAdd`
pub argv_add : Option (List Bytes) → Bytes → List Bytes
unfolding argv_add_n
argv_add argv val = argv_add_n argv val (length val)

-- `argvAppend`
pub argv_append : Option (List Bytes) → Option (List Bytes) → List Bytes
unfolding strings
argv_append argv av = strings argv ++ strings av

-- `strchr(seps, c)` for a character of a string.
pub is_sep : Bytes → ℕ → Bool
is_sep [] c = false
is_sep (s ∷ seps) c = s == c || is_sep seps c

-- The copy, and how often a separator was met.
pub mark : Bytes → Bytes → Bytes
mark seps [] = []
mark seps (c ∷ cs) = (if is_sep seps c then 0 else c) ∷ mark seps cs

pub count_seps : Bytes → Bytes → ℕ
count_seps seps [] = 0
count_seps seps (c ∷ cs) = (if is_sep seps c then 1 else 0) + count_seps seps cs

-- `strlen` stops here or goes on.
pub is_nul : ℕ → Bool
is_nul c = c == 0

pub not_nul : ℕ → Bool
unfolding is_nul
not_nul c = not (is_nul c)

-- The loop over the copy.
pub split_loop : Bool → ℕ → Bytes → List Bytes
split_loop skip_empty zero s = []
split_loop skip_empty (suc n) [] = []
split_loop skip_empty (suc n) (c ∷ cs) =
    let piece = take_while not_nul (c ∷ cs) in
    let rest = split_loop skip_empty n (drop (length piece + 1) (c ∷ cs)) in
    if skip_empty && is_empty piece then rest else piece ∷ rest

-- `argvSplitString` on strings that are there.
pub split_text : Bool → Bytes → Bytes → List Bytes
split_text skip_empty str seps = split_loop skip_empty (length str) (mark seps str)

-- `argvSplitString`
pub argv_split_string : Option Bytes → Option Bytes → Bool → Option (List Bytes)
unfolding split_text
argv_split_string none seps skip_empty = none
argv_split_string (some str) none skip_empty = none
argv_split_string (some str) (some seps) skip_empty = some (split_text skip_empty str seps)

-- The loop of `argvJoin` behind a string.
pub join_behind : Bytes → Bytes → List Bytes → Bytes
join_behind sep x [] = x
join_behind sep x (y ∷ ys) = x ++ (sep ++ join_behind sep y ys)

-- `argvJoin`; a separator that is NULL joins like an empty one.
pub argv_join : Option (List Bytes) → Option Bytes → Option Bytes
unfolding join_behind
argv_join none sep = none
argv_join (some []) sep = none
argv_join (some (x ∷ xs)) none = some (join_behind [] x xs)
argv_join (some (x ∷ xs)) (some sep) = some (join_behind sep x xs)

pub zeros : ℕ → List ℤ
zeros zero = []
zeros (suc n) = pos 0 ∷ zeros n

pub set_elem : List ℤ → ℕ → ℤ → List ℤ
set_elem [] i val = []
set_elem (v ∷ vs) zero val = val ∷ vs
set_elem (v ∷ vs) (suc i) val = v ∷ set_elem vs i val

-- The array with space for an element at `ix`.
pub grow : List ℤ → ℕ → List ℤ
unfolding zeros
grow vals ix = if leb (length vals) ix then vals ++ zeros (ix + 1 - length vals) else vals

pub numbers : Option (List ℤ) → List ℤ
numbers none = []
numbers (some vals) = vals

-- `argiAdd`
pub argi_add : Option (List ℤ) → ℤ → ℤ → List ℤ
unfolding numbers
argi_add argi (pos ix) val = set_elem (grow (numbers argi) ix) ix val
argi_add argi (negsuc n) val =
    let ix = length (numbers argi) in set_elem (grow (numbers argi) ix) ix val

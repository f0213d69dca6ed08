-- ===== src/Argv/Numbers.antt =====
-- What argiAdd leaves at each index.
use rpm.Base.{
  ℕ, zero, suc, ◌+◌, ◌-◌, ◌≤◌, ◌<◌, ◌≡◌, refl, ap, Option, none, some, List, [], ◌∷◌, ◌++◌, ◌==◌,
  leb, ltb, length, length-append, get_elem?, arith, if◌then◌else◌,
}
use rpm.Base.Int.{ℤ, pos, negsuc}
use rpm.Argv.{numbers, zeros, set_elem, grow, argi_add}

get_elem?-set_elem :
    (vals : List ℤ) (i j : ℕ) (val : ℤ)
    → i < length vals
    → get_elem? (set_elem vals i val) j ≡ (if j == i then some val else get_elem? vals j)
unfolding set_elem
get_elem?-set_elem [] i j val h = absurd (omega arith)
get_elem?-set_elem (v ∷ vs) zero zero val h = refl
get_elem?-set_elem (v ∷ vs) zero (suc j) val h = ground arith
get_elem?-set_elem (v ∷ vs) (suc i) zero val h = ground arith
get_elem?-set_elem (v ∷ vs) (suc i) (suc j) val h =
    ground (arith, get_elem?-set_elem vs i j val (omega arith))

length-zeros : (n : ℕ) → length (zeros n) ≡ n
unfolding zeros
length-zeros zero = refl
length-zeros (suc n) = ap suc (length-zeros n)

length-grow : (vals : List ℤ) (ix : ℕ) → ix < length (grow vals ix)
unfolding grow
length-grow vals ix =
    ground (
      arith,
      length-append vals (zeros (ix + 1 - length vals)),
      length-zeros (ix + 1 - length vals),
    )

get_elem?-zeros : (n j : ℕ) → get_elem? (zeros n) j ≡ (if ltb j n then some (pos 0) else none)
unfolding zeros
get_elem?-zeros zero j = ground arith
get_elem?-zeros (suc n) zero = ground arith
get_elem?-zeros (suc n) (suc j) = ground (arith, get_elem?-zeros n j)

get_elem?-append :
    (xs ys : List ℤ) (j : ℕ)
    → get_elem? (xs ++ ys) j
      ≡ (if ltb j (length xs) then get_elem? xs j else get_elem? ys (j - length xs))
get_elem?-append [] ys j = ground arith
get_elem?-append (x ∷ xs) ys zero = ground arith
get_elem?-append (x ∷ xs) ys (suc j) = ground (arith, get_elem?-append xs ys j)

get_elem?-none : (xs : List ℤ) (j : ℕ) → length xs ≤ j → get_elem? xs j ≡ none
get_elem?-none [] j h = refl
get_elem?-none (x ∷ xs) zero h = absurd (omega arith)
get_elem?-none (x ∷ xs) (suc j) h = get_elem?-none xs j (omega arith)

-- The index that argiAdd writes to.
unfoldable pub written_at : List ℤ → ℤ → ℕ
written_at vals (pos ix) = ix
written_at vals (negsuc n) = length vals

-- What stands at an index when the array has been grown to one.
pub padded : List ℤ → ℕ → ℕ → Option ℤ
padded vals ix j =
    if ltb j (length vals) then get_elem? vals j else if leb j ix then some (pos 0) else none

get_elem?-grow : (vals : List ℤ) (ix j : ℕ) → get_elem? (grow vals ix) j ≡ padded vals ix j
unfolding grow padded
get_elem?-grow vals ix j = ground (
  arith,
  get_elem?-append vals (zeros (ix + 1 - length vals)) j,
  get_elem?-zeros (ix + 1 - length vals) (j - length vals),
  get_elem?-none vals j,
)

-- argiAdd writes the value to its index, or behind the end where this is negative; the elements
-- that were there stay, the places between them and the index are 0, and nothing stands behind.
argi_add-get_elem? :
    (argi : Option (List ℤ)) (ix val : ℤ) (j : ℕ)
    → get_elem? (argi_add argi ix val) j ≡ (
        if j == written_at (numbers argi) ix
        then some val
        else padded (numbers argi) (written_at (numbers argi) ix) j)
unfolding argi_add written_at
argi_add-get_elem? argi (pos ix) val j =
    let vals = numbers argi in
    rw (get_elem?-set_elem (grow vals ix) ix j val (length-grow vals ix), get_elem?-grow vals ix j)
argi_add-get_elem? argi (negsuc n) val j =
    let vals = numbers argi in
    rw (
      get_elem?-set_elem (grow vals (length vals)) (length vals) j val
          (length-grow vals (length vals)),
      get_elem?-grow vals (length vals) j,
    )

-- ===== src/Ds/Examples.antt =====
-- Finding and merging in a small dependency set.
use rpm.Base.{
  ◌-◌, ◌^◌, ℕ, ◌≡◌, ◌⊎◌, ◌↔◌, refl, Option, none, some, List, [], ◌∷◌, get_elem?, Bytes, codes,
  arith, strcmp,
}
use rpm.Ds.{
  Dep, compare_deps, do_find, merge_loop, compare_evr, compare_flags, compare_ti, insert_found,
  insert_at, find_loop, compare_at,
}
use rpm.Ds.Entries.{IsPlain}
use rpm.Ds.Find.{IsSorted, In, do_find_lem}
use rpm.Ds.Merge.{merge_loop-IsSorted}

abbrev dep : Bytes → Bytes → ℕ → Dep
dep name evr flags = record { name = name; evr = some evr; flags = flags; ti = 2 ^ 32 - 1 }

abbrev bash : Dep
bash = dep (codes "bash") [] 0

abbrev glibc : Dep
glibc = dep (codes "glibc") (codes "2.38") 12

abbrev zlib : Dep
zlib = dep (codes "zlib") [] 0

abbrev requires : List Dep
requires = bash ∷ zlib ∷ []

merge_glibc : merge_loop (some requires) (zlib ∷ glibc ∷ []) ≡ some (bash ∷ glibc ∷ zlib ∷ [])
unfolding merge_loop insert_found do_find find_loop compare_at compare_deps compare_evr
    compare_flags compare_ti strcmp insert_at
merge_glibc = refl

bash-IsPlain : IsPlain bash
bash-IsPlain = record {
  evr_text = [];
  evr_given = refl;
  flags_bound = omega arith;
  ti_int = omega arith;
  ti_bound = omega arith;
}

glibc-IsPlain : IsPlain glibc
glibc-IsPlain = record {
  evr_text = codes "2.38";
  evr_given = refl;
  flags_bound = omega arith;
  ti_int = omega arith;
  ti_bound = omega arith;
}

zlib-IsPlain : IsPlain zlib
zlib-IsPlain = record {
  evr_text = [];
  evr_given = refl;
  flags_bound = omega arith;
  ti_int = omega arith;
  ti_bound = omega arith;
}

requires-IsSorted : IsSorted requires
unfolding IsSorted compare_deps compare_evr compare_flags compare_ti strcmp
requires-IsSorted = (bash-IsPlain, (refl, tt), (zlib-IsPlain, tt, tt))

do_find_lem_example :
    (found : Option ℕ) × (u : ℕ) × (do_find requires zlib ≡ some (found, u))
    × ((i : ℕ) → found ≡ some i → get_elem? requires i ≡ some zlib)
    × (found ≡ none → ¬ In zlib requires)
do_find_lem_example = do_find_lem requires zlib requires-IsSorted zlib-IsPlain

merge_loop-IsSorted_example :
    (ds : List Dep) × (merge_loop (some requires) (zlib ∷ glibc ∷ []) ≡ some ds)
    × IsSorted ds
    × ((e : Dep) → In e ds ↔ (In e requires ⊎ In e (zlib ∷ glibc ∷ [])))
merge_loop-IsSorted_example =
    merge_loop-IsSorted requires (zlib ∷ glibc ∷ []) requires-IsSorted
      (zlib-IsPlain, (glibc-IsPlain, tt))

-- ===== src/Argv/Join.antt =====
-- argvSplitString undoes argvJoin.
use rpm.Base.{
  ℕ, ◌≡◌, ◌≢◌, refl, ap, sym, Bool, true, false, some, List, [], ◌∷◌, ◌++◌, is_empty, Bytes, All,
  All-append, arith,
}
use rpm.Argv.{is_sep, split_text, join_behind, argv_join}
use rpm.Argv.Fields.{fields, fields-append, fields_single, trim, keep}
use rpm.Argv.Split.{split_text-fields}

-- A string that the separators leave whole.
pub record IsWhole (seps x : Bytes) : Type 0 where
  pub not_empty : is_empty x ≡ false
  pub no_seps : All (λ c. is_sep seps c ≡ false) x
  pub no_nuls : All (λ c. c ≢ 0) x

join_cons :
    (c : ℕ) (x y : Bytes) (ys : List Bytes)
    → join_behind (c ∷ []) x (y ∷ ys) ≡ x ++ c ∷ join_behind (c ∷ []) y ys
unfolding join_behind
join_cons c x y ys = refl

fields-join :
    (seps : Bytes) (c : ℕ) (x : Bytes) (xs : List Bytes)
    → is_sep seps c ≡ true
    → IsWhole seps x
    → All (IsWhole seps) xs
    → fields (is_sep seps) (join_behind (c ∷ []) x xs) ≡ x ∷ xs
unfolding join_behind
fields-join seps c x [] e h hs = fields_single (is_sep seps) x h.no_seps
fields-join seps c x (y ∷ ys) e h hs = rw (
  join_cons c x y ys,
  fields-append (is_sep seps) x c (join_behind (c ∷ []) y ys) h.no_seps e,
  fields-join seps c y ys e hs.0 hs.1,
)

join-no_nuls :
    (seps : Bytes) (c : ℕ) (x : Bytes) (xs : List Bytes)
    → c ≢ 0
    → IsWhole seps x
    → All (IsWhole seps) xs
    → All (λ i. i ≢ 0) (join_behind (c ∷ []) x xs)
unfolding join_behind
join-no_nuls seps c x [] n h hs = h.no_nuls
join-no_nuls seps c x (y ∷ ys) n h hs = rw (join_cons c x y ys) (
    All-append (λ i. i ≢ 0) x (c ∷ join_behind (c ∷ []) y ys) h.no_nuls
      (n, join-no_nuls seps c y ys n hs.0 hs.1))

trim-whole : (seps : Bytes) (xs : List Bytes) → All (IsWhole seps) xs → trim xs ≡ xs
unfolding trim
trim-whole seps [] h = refl
trim-whole seps (x ∷ []) h = rw h.0.not_empty
trim-whole seps (x ∷ y ∷ ys) h = ap (λ l. x ∷ l) (trim-whole seps (y ∷ ys) h.1)

keep-whole :
    (seps : Bytes) (skip_empty : Bool) (xs : List Bytes)
    → All (IsWhole seps) xs
    → keep skip_empty xs ≡ xs
unfolding keep
keep-whole seps skip_empty [] h = refl
keep-whole seps skip_empty (x ∷ xs) h =
    ground (arith, keep-whole seps skip_empty xs h.1, h.0.not_empty)

-- Splitting what argvJoin made with a separator gives the strings back, whether empty ones are
-- skipped or not, if none of them is empty or has a separator or a NUL in it.
pub split_text-argv_join :
    (seps : Bytes) (c : ℕ) (skip_empty : Bool) (argv : List Bytes) (joined : Bytes)
    → is_sep seps c ≡ true
    → c ≢ 0
    → All (IsWhole seps) argv
    → argv_join (some argv) (some (c ∷ [])) ≡ some joined
    → split_text skip_empty joined seps ≡ argv
unfolding argv_join
split_text-argv_join seps c skip_empty [] joined e n h j = absurd (ground arith)
split_text-argv_join seps c skip_empty (x ∷ xs) joined e n h j =
    let same : join_behind (c ∷ []) x xs ≡ joined = ground arith in
    rw (
      sym same,
      split_text-fields skip_empty (join_behind (c ∷ []) x xs) seps
          (join-no_nuls seps c x xs n h.0 h.1),
      fields-join seps c x xs e h.0 h.1,
      trim-whole seps (x ∷ xs) h,
      keep-whole seps skip_empty (x ∷ xs) h,
    )

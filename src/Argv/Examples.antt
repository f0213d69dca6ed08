-- ===== src/Argv/Examples.antt =====
-- Splitting, joining and numbers on small arrays.
use rpm.Base.{◌≡◌, ◌≢◌, refl, true, false, some, List, [], ◌∷◌, Bytes, codes, All, arith}
use rpm.Argv.{is_sep, split_text, argv_split_string, argv_join, mark, split_loop, not_nul}
use rpm.Argv.Join.{IsWhole, split_text-argv_join}

abbrev path : Bytes
path = codes ":usr::bin:"

abbrev colon : Bytes
colon = codes ":"

abbrev words : List Bytes
words = codes "usr" ∷ codes "bin" ∷ []

split-path : split_text true path colon ≡ words
unfolding split_text split_loop mark not_nul is_sep
split-path = refl

split_all-path :
    argv_split_string (some path) (some colon) false
    ≡ some ([] ∷ codes "usr" ∷ [] ∷ codes "bin" ∷ [])
unfolding argv_split_string split_loop mark not_nul is_sep
split_all-path = refl

path_no_nuls : All (λ c. c ≢ 0) path
path_no_nuls = (
  ground arith,
  (
    ground arith,
    (
      ground arith,
      (
        ground arith,
        (
          ground arith,
          (ground arith, (ground arith, (ground arith, (ground arith, (ground arith, tt))))),
        ),
      ),
    ),
  ),
)

words-IsWhole : All (IsWhole colon) words
unfolding is_sep
words-IsWhole = (
  record {
    not_empty = refl;
    no_seps = (refl, (refl, (refl, tt)));
    no_nuls = (ground arith, (ground arith, (ground arith, tt)));
  },
  (
    record {
      not_empty = refl;
      no_seps = (refl, (refl, (refl, tt)));
      no_nuls = (ground arith, (ground arith, (ground arith, tt)));
    },
    tt,
  ),
)

colon_lem : is_sep colon b':' ≡ true
unfolding is_sep
colon_lem = refl

joined_words : argv_join (some words) (some (codes ":")) ≡ some (codes "usr:bin")
unfolding argv_join
joined_words = refl

split_text-argv_join_example : split_text true (codes "usr:bin") colon ≡ words
split_text-argv_join_example =
    split_text-argv_join colon b':' true words (codes "usr:bin") colon_lem (ground arith)
      words-IsWhole joined_words

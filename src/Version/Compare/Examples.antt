-- ===== src/Version/Compare/Examples.antt =====
-- Comparisons of concrete versions.
use rpm.Base.{◌≡◌, refl, some, Ordering, codes, compare, is_digit, flip, strcmp}
use rpm.Version.Compare.{rpmvercmp, rpmvercmp_fuel}
use rpm.Version.Compare.Tokens.{compare_lists}
use rpm.Version.Compare.Refines.{tokens, rpmvercmp-tokens}
use rpm.Version.Compare.Order.{Chain, rpmvercmp-flip, rpmvercmp_trans}
use rpm.Version.Compare.Numbers.{value, rpmvercmp-value}
use rpm.Version.Compare.Separators.{rpmvercmp_separator}

-- Tests of tests/rpmvercmp.at.
vercmp :
    (rpmvercmp (codes "1.0") (codes "2.0") ≡ Ordering.lt)
    × (rpmvercmp (codes "2.0.1a") (codes "2.0.1") ≡ Ordering.gt)
    × (rpmvercmp (codes "10xyz") (codes "10.1xyz") ≡ Ordering.lt)
    × (rpmvercmp (codes "20101121") (codes "20101122") ≡ Ordering.lt)
    × (rpmvercmp (codes "2_0") (codes "2.0") ≡ Ordering.eq)
    × (rpmvercmp (codes "1.0~rc1^git1") (codes "1.0~rc1") ≡ Ordering.gt)
    × (rpmvercmp (codes "1.0^git1~pre") (codes "1.0^git1") ≡ Ordering.lt)
unfolding rpmvercmp strcmp
vercmp = (refl, refl, refl, refl, refl, refl, refl)

rpmvercmp-tokens_example :
    (rpmvercmp_fuel (codes "1.05b") (codes "1_5~")
      ≡ some (rpmvercmp (codes "1.05b") (codes "1_5~")))
    × (rpmvercmp (codes "1.05b") (codes "1_5~")
        ≡ compare_lists (tokens (codes "1.05b")) (tokens (codes "1_5~")))
rpmvercmp-tokens_example = rpmvercmp-tokens (codes "1.05b") (codes "1_5~")

rpmvercmp-flip_example :
    rpmvercmp (codes "1.0") (codes "1.0a") ≡ flip (rpmvercmp (codes "1.0a") (codes "1.0"))
rpmvercmp-flip_example = rpmvercmp-flip (codes "1.0a") (codes "1.0")

rpmvercmp_trans_example :
    Chain
      (rpmvercmp (codes "1~a") (codes "1"))
      (rpmvercmp (codes "1") (codes "1^a"))
      (rpmvercmp (codes "1~a") (codes "1^a"))
rpmvercmp_trans_example = rpmvercmp_trans (codes "1~a") (codes "1") (codes "1^a")

rpmvercmp-value_example :
    rpmvercmp (codes "007") (codes "12") ≡ compare (value (codes "007")) (value (codes "12"))
unfolding is_digit
rpmvercmp-value_example =
    rpmvercmp-value b'0' b'1' (codes "07") (codes "2") (refl, (refl, (refl, tt))) (refl, (refl, tt))

rpmvercmp_separator_example :
    (rpmvercmp (codes "1.0~rc1") (codes "1.0") ≡ Ordering.lt)
    × (rpmvercmp (codes "1.0^rc1") (codes "1.0") ≡ Ordering.gt)
rpmvercmp_separator_example = rpmvercmp_separator (codes "1.0") (codes "rc1")

-- ===== src/Version/Evr/Order.antt =====
-- `rpmverCmp` is a total order, as `rpmvercmp` is.
use rpm.Base.{◌≡◌, refl, Option, none, some, Bytes, flip, and_then-flip, arith}
use rpm.Version.Compare.Order.{Chain, and_then-Chain, rpmvercmp-flip, rpmvercmp_trans}
use rpm.Version.Compare.{rpmvercmp}
use rpm.Version.Evr.{Evr, epoch_or_zero, compare_values, rpmver_cmp}

compare_values-flip : (a b : Option Bytes) → compare_values b a ≡ flip (compare_values a b)
unfolding compare_values
compare_values-flip none none = refl
compare_values-flip none (some b) = refl
compare_values-flip (some a) none = refl
compare_values-flip (some a) (some b) = rpmvercmp-flip a b

compare_values_trans :
    (a b c : Option Bytes) → Chain (compare_values a b) (compare_values b c) (compare_values a c)
unfolding compare_values
compare_values_trans none none c = (λ h k. ground arith, λ h k. k)
compare_values_trans none (some b) none = (λ h k. ground arith, λ h k. cc)
compare_values_trans none (some b) (some c) = (λ h k. ground arith, λ h k. cc)
compare_values_trans (some a) none c = (λ h k. absurd (h refl), λ h k. cc)
compare_values_trans (some a) (some b) none = (λ h k. absurd (k refl), λ h k. cc)
compare_values_trans (some a) (some b) (some c) = rpmvercmp_trans a b c

-- Exchanging the two triples negates the result.
rpmver_cmp-flip : (a b : Evr) → rpmver_cmp b a ≡ flip (rpmver_cmp a b)
unfolding rpmver_cmp
rpmver_cmp-flip a b =
    rw
      (
        rpmvercmp-flip (epoch_or_zero a) (epoch_or_zero b),
        rpmvercmp-flip a.version b.version,
        compare_values-flip a.release b.release,
        and_then-flip (rpmvercmp a.version b.version) (compare_values a.release b.release),
      )
      (and_then-flip (rpmvercmp (epoch_or_zero a) (epoch_or_zero b)) _)

-- Epochs, versions and releases in this order make a total order of the triples: being no newer is
-- transitive, and so is being equal, and the first and the last triple of a chain are equal only if
-- all three are.
rpmver_cmp_trans : (a b c : Evr) → Chain (rpmver_cmp a b) (rpmver_cmp b c) (rpmver_cmp a c)
unfolding rpmver_cmp
rpmver_cmp_trans a b c =
    and_then-Chain _ _ _ _ _ _
      (rpmvercmp_trans (epoch_or_zero a) (epoch_or_zero b) (epoch_or_zero c))
      (and_then-Chain _ _ _ _ _ _ (rpmvercmp_trans a.version b.version c.version)
        (compare_values_trans a.release b.release c.release))

-- ===== src/Version/Evr/Overlap.antt =====
-- `rpmverOverlap`: its symmetry, and the comparison that it makes of full triples.
use rpm.Base.{ℕ, ◌≡◌, true, Option, none, some, Ordering, flip, arith, Option-cases, inl, inr}
use rpm.Version.Compare.Order.{rpmvercmp-flip}
use rpm.Version.Evr.{
  Evr, is_given, text, epoch_sense, has_positive_epoch, release_sense, version_sense, sense,
  ranges_overlap, rpmver_overlap,
}

pub has_positive_epoch-given : (v : Evr) → has_positive_epoch v ≡ true → is_given v.epoch ≡ true
unfolding has_positive_epoch
has_positive_epoch-given v h = ground arith

pub epoch_sense-flip : (v1 v2 : Evr) → epoch_sense v2 v1 ≡ flip (epoch_sense v1 v2)
unfolding epoch_sense
epoch_sense-flip v1 v2 = ground (
  arith,
  rpmvercmp-flip (text v1.epoch) (text v2.epoch),
  has_positive_epoch-given v1,
  has_positive_epoch-given v2,
)

abbrev flipped : Option Ordering → Option Ordering
flipped none = none
flipped (some o) = some (flip o)

release_sense-flip :
    (v1 v2 : Evr) (f1 f2 : ℕ) → release_sense v2 f2 v1 f1 ≡ flipped (release_sense v1 f1 v2 f2)
unfolding release_sense
release_sense-flip v1 v2 f1 f2 = ground (arith, rpmvercmp-flip (text v1.release) (text v2.release))

version_sense-flip :
    (v1 v2 : Evr) (f1 f2 : ℕ) → version_sense v2 f2 v1 f1 ≡ flipped (version_sense v1 f1 v2 f2)
unfolding version_sense
version_sense-flip v1 v2 f1 f2 =
    ground (arith, rpmvercmp-flip v1.version v2.version, release_sense-flip v1 v2 f1 f2)

sense-flip : (v1 v2 : Evr) (f1 f2 : ℕ) → sense v2 f2 v1 f1 ≡ flipped (sense v1 f1 v2 f2)
unfolding sense
sense-flip v1 v2 f1 f2 = ground (arith, epoch_sense-flip v1 v2, version_sense-flip v1 v2 f1 f2)

ranges_overlap-flip :
    (o : Ordering) (f1 f2 : ℕ) → ranges_overlap (flip o) f2 f1 ≡ ranges_overlap o f1 f2
unfolding ranges_overlap
ranges_overlap-flip Ordering.lt f1 f2 = ground arith
ranges_overlap-flip Ordering.eq f1 f2 = ground arith
ranges_overlap-flip Ordering.gt f1 f2 = ground arith

-- Which of the two ranges is named first makes no difference.
pub rpmver_overlap_comm :
    (v1 v2 : Evr) (f1 f2 : ℕ) → rpmver_overlap v2 f2 v1 f1 ≡ rpmver_overlap v1 f1 v2 f2
unfolding rpmver_overlap
rpmver_overlap_comm v1 v2 f1 f2 = elim (Option-cases (sense v1 f1 v2 f2)) [
  | inl e ↦ ground (arith, sense-flip v1 v2 f1 f2)
  | inr (o, e) ↦ ground (arith, sense-flip v1 v2 f1 f2, ranges_overlap-flip o f1 f2)
]

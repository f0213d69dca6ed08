-- ===== src/Version/Evr/Examples.antt =====
-- Triples at concrete texts.
use rpm.Base.{◌≡◌, refl, none, some, [], codes, is_digit}
use rpm.Version.Evr.{
  Evr, rpmver_parse, rpmver_evr, rpmver_cmp, rpmver_overlap, has, sense_less, sense_equal,
  rpmver_new, rpmver_e_val,
}
use rpm.Version.Evr.Print.{IsCanonical, parse-rpmver_evr}
use rpm.Version.Evr.Overlap.{rpmver_overlap_comm}
use rpm.Version.Evr.Ranges.{IsFull, first_point, second_point, share, rpmver_overlap-cmp}

abbrev full : Evr
full = record { epoch = some (codes "2"); version = codes "1.0-rc"; release = some (codes "3") }

abbrev no_epoch : Evr
no_epoch = record { epoch = none; version = codes "1.0"; release = some (codes "1") }

parse_full : rpmver_parse (some (codes "2:1.0-rc-3")) ≡ some full
unfolding rpmver_parse is_digit
parse_full = refl

new_none : (rpmver_new none (some []) none ≡ none) × (rpmver_e_val (some full) ≡ 2)
unfolding rpmver_new rpmver_e_val is_digit
new_none = (refl, refl)

full-IsCanonical : IsCanonical full
unfolding is_digit
full-IsCanonical = record {
  version_given = λ e. cc;
  epoch_fits = (λ e. cc, (refl, tt));
  dash_fits = (refl, tt);
}

parse-rpmver_evr_example : rpmver_parse (some (rpmver_evr full)) ≡ some full
parse-rpmver_evr_example = parse-rpmver_evr full full-IsCanonical

rpmver_overlap_comm_example :
    rpmver_overlap no_epoch sense_less full sense_equal
    ≡ rpmver_overlap full sense_equal no_epoch sense_less
rpmver_overlap_comm_example = rpmver_overlap_comm full no_epoch sense_equal sense_less

full-IsFull : IsFull full
unfolding is_digit
full-IsFull = record { epoch_number = (λ e. cc, (refl, tt)); release_given = refl }

no_epoch-IsFull : IsFull no_epoch
no_epoch-IsFull = record { epoch_number = tt; release_given = refl }

rpmver_overlap-cmp_example :
    rpmver_overlap full sense_equal no_epoch sense_less
    ≡ share sense_equal
        (first_point (rpmver_cmp full no_epoch))
        sense_less
        (second_point (rpmver_cmp full no_epoch))
rpmver_overlap-cmp_example =
    rpmver_overlap-cmp full no_epoch sense_equal sense_less full-IsFull no_epoch-IsFull
      (unfold has in refl) (unfold has in refl)

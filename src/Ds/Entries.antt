-- ===== src/Ds/Entries.antt =====
-- The comparison of the entries of dependency sets is a total order.
use rpm.Base.{
  ℕ, ◌+◌, ◌%◌, ◌^◌, ◌<◌, ◌≡◌, sym, ap, some, compare, Ordering, flip, and_then, compare-flip,
  strcmp, strcmp-flip, strcmp_trans, eq_of_strcmp, Bytes, arith,
}
use rpm.Ds.{Dep, compare_evr, compare_flags, compare_ti, compare_deps}

-- The trigger index plus 1: 0 where there is none.
abbrev pub counted : Dep → ℕ
counted d = (d.ti + 1) % 2 ^ 32

-- An entry with an EVR whose flags are below the sign bit, and whose trigger index is -1 or at least 0
-- and not the greatest int.
pub record IsPlain (d : Dep) : Type 0 where
  pub evr_text : Bytes
  pub evr_given : d.evr ≡ some evr_text
  pub flags_bound : d.flags < 2 ^ 31
  pub ti_int : d.ti < 2 ^ 32
  pub ti_bound : counted d < 2 ^ 31

compare_flags-compare : (a b : ℕ) → a < 2 ^ 31 → b < 2 ^ 31 → compare_flags a b ≡ compare a b
unfolding compare_flags
compare_flags-compare a b h k = ground arith

compare_ti-compare :
    (a b : ℕ)
    → a < 2 ^ 32
    → b < 2 ^ 32
    → (a + 1) % 2 ^ 32 < 2 ^ 31
    → (b + 1) % 2 ^ 32 < 2 ^ 31
    → compare_ti a b ≡ compare ((a + 1) % 2 ^ 32) ((b + 1) % 2 ^ 32)
unfolding compare_ti
compare_ti-compare a b h k l m = ground arith

-- What a key needs for `and_then` to order by it first.
record IsKey (o p q : Ordering) : Type 0 where
  lt_lt : o ≡ Ordering.lt → p ≡ Ordering.lt → q ≡ Ordering.lt
  eq_left : o ≡ Ordering.eq → q ≡ p
  eq_right : p ≡ Ordering.eq → q ≡ o

and_then-IsKey :
    (o p q o' p' q' : Ordering)
    → IsKey o p q
    → IsKey o' p' q'
    → IsKey (and_then o o') (and_then p p') (and_then q q')
and_then-IsKey o p q o' p' q' h k = record {
  lt_lt = λ a b. ground (arith, h.lt_lt, h.eq_left, h.eq_right, k.lt_lt, k.eq_left, k.eq_right);
  eq_left = λ a. ground (arith, h.lt_lt, h.eq_left, h.eq_right, k.lt_lt, k.eq_left, k.eq_right);
  eq_right = λ a. ground (arith, h.lt_lt, h.eq_left, h.eq_right, k.lt_lt, k.eq_left, k.eq_right);
}

strcmp-IsKey : (a b c : Bytes) → IsKey (strcmp a b) (strcmp b c) (strcmp a c)
strcmp-IsKey a b c = record {
  lt_lt = strcmp_trans a b c;
  eq_left = λ e. ap (λ x. strcmp x c) (eq_of_strcmp a b e);
  eq_right = λ e. ap (λ x. strcmp a x) (sym (eq_of_strcmp b c e));
}

compare-IsKey : (a b c : ℕ) → IsKey (compare a b) (compare b c) (compare a c)
compare-IsKey a b c = record {
  lt_lt = λ e f. ground arith;
  eq_left = λ e. ground arith;
  eq_right = λ e. ground arith;
}

-- On plain entries the comparison is by the texts, the flags and the trigger index.
plain_compare : Dep → Bytes → Dep → Bytes → Ordering
plain_compare o oevr d evr = and_then (strcmp o.name d.name) (
    and_then (strcmp oevr evr)
      (and_then (compare o.flags d.flags) (compare (counted o) (counted d))))

compare_deps-plain :
    (o d : Dep) (h : IsPlain o) (k : IsPlain d)
    → compare_deps o d ≡ plain_compare o h.evr_text d k.evr_text
unfolding compare_deps plain_compare compare_evr
compare_deps-plain o d h k = rw (
  h.evr_given,
  k.evr_given,
  compare_flags-compare o.flags d.flags h.flags_bound k.flags_bound,
  compare_ti-compare o.ti d.ti h.ti_int k.ti_int h.ti_bound k.ti_bound,
)

compare_deps-IsKey :
    (a b c : Dep)
    → IsPlain a
    → IsPlain b
    → IsPlain c
    → IsKey (compare_deps a b) (compare_deps b c) (compare_deps a c)
unfolding plain_compare
compare_deps-IsKey a b c h k l =
    rw (compare_deps-plain a b h k, compare_deps-plain b c k l, compare_deps-plain a c h l)
      (and_then-IsKey _ _ _ _ _ _ (strcmp-IsKey a.name b.name c.name) (
        and_then-IsKey _ _ _ _ _ _ (strcmp-IsKey h.evr_text k.evr_text l.evr_text) (
          and_then-IsKey _ _ _ _ _ _ (compare-IsKey a.flags b.flags c.flags)
            (compare-IsKey (counted a) (counted b) (counted c)))))

pub compare_deps_trans :
    (a b c : Dep)
    → IsPlain a
    → IsPlain b
    → IsPlain c
    → compare_deps a b ≡ Ordering.lt
    → compare_deps b c ≡ Ordering.lt
    → compare_deps a c ≡ Ordering.lt
compare_deps_trans a b c h k l = (compare_deps-IsKey a b c h k l).lt_lt

pub compare_deps-flip :
    (a b : Dep) → IsPlain a → IsPlain b → compare_deps b a ≡ flip (compare_deps a b)
unfolding plain_compare
compare_deps-flip a b h k =
    rw (compare_deps-plain a b h k, compare_deps-plain b a k h)
      (ground (
        arith,
        strcmp-flip a.name b.name,
        strcmp-flip h.evr_text k.evr_text,
        compare-flip a.flags b.flags,
        compare-flip (counted a) (counted b),
      ))

counted_same : (a b : Dep) → a.ti < 2 ^ 32 → b.ti < 2 ^ 32 → counted a ≡ counted b → a.ti ≡ b.ti
counted_same a b h k e = omega arith

pub eq_of_compare_deps :
    (a b : Dep) → IsPlain a → IsPlain b → compare_deps a b ≡ Ordering.eq → a ≡ b
unfolding plain_compare
eq_of_compare_deps a b h k e =
    let e' : plain_compare a h.evr_text b k.evr_text ≡ Ordering.eq =
      rw (compare_deps-plain a b h k) at e in
    ground (
      arith,
      e',
      h.evr_given,
      k.evr_given,
      eq_of_strcmp a.name b.name,
      eq_of_strcmp h.evr_text k.evr_text,
      counted_same a b h.ti_int k.ti_int,
    )

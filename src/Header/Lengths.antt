-- ===== src/Header/Lengths.antt =====
-- What `strtaglen` measures.
use rpm.Base.{
  ℕ, zero, suc, ◌+◌, ◌-◌, ◌^◌, ◌≤◌, ◌<◌, ◌≡◌, refl, sym, true, false, some, Option-cases,
  Bool-cases, inl, inr, [], ◌∷◌, ◌==◌, length, take, Bytes, arith, if◌then◌else◌,
}
use rpm.Header.{pred_u32, one_more, strtaglen}

-- How many NULs stand in the bytes.
unfoldable pub nuls : Bytes → ℕ
nuls [] = 0
nuls (b ∷ bs) = (if b == 0 then 1 else 0) + nuls bs

-- The first `n` bytes end with the NUL that is the one with the number `c`.
pub record IsTerminated (bytes : Bytes) (c n : ℕ) : Type 0 where
  pub some_byte : 1 ≤ n
  pub inside : n ≤ length bytes
  pub counted : nuls (take n bytes) ≡ c
  pub ends : nuls (take (n - 1) bytes) + 1 ≡ c

pred_u32-lt : (c : ℕ) → 1 ≤ c → c < 2 ^ 32 → pred_u32 c ≡ c - 1
unfolding pred_u32
pred_u32-lt c h k = omega arith

strtaglen_nul :
    (b : ℕ) (bs : Bytes) (c : ℕ)
    → (b == 0) ≡ true
    → 1 ≤ c
    → c < 2 ^ 32
    → strtaglen (b ∷ bs) c ≡ (if c == 1 then some 1 else one_more (strtaglen bs (c - 1)))
unfolding strtaglen
strtaglen_nul b bs c e h k = ground (arith, pred_u32-lt c h k)

strtaglen_byte :
    (b : ℕ) (bs : Bytes) (c : ℕ)
    → (b == 0) ≡ false
    → strtaglen (b ∷ bs) c ≡ one_more (strtaglen bs c)
unfolding strtaglen
strtaglen_byte b bs c e = rw e

strtaglen_empty : (c n : ℕ) → strtaglen [] c ≡ some n → ⊥
unfolding strtaglen
strtaglen_empty c n e = ground arith

IsTerminated_one : (b : ℕ) (bs : Bytes) → (b == 0) ≡ true → IsTerminated (b ∷ bs) 1 1
unfolding nuls
IsTerminated_one b bs e = record {
  some_byte = omega arith;
  inside = omega arith;
  counted = ground arith;
  ends = refl;
}

one_nul : (b : ℕ) (bs : Bytes) (m : ℕ) → (b == 0) ≡ true → IsTerminated (b ∷ bs) 1 (suc m) → m ≡ 0
unfolding nuls
one_nul b bs zero e t = refl
one_nul b bs (suc m) e t = absurd (ground (arith, t.ends))

subst_count :
    {d : ℕ} (b : ℕ) (bs : Bytes) (c m : ℕ)
    → c ≡ d
    → IsTerminated (b ∷ bs) c (suc m)
    → IsTerminated (b ∷ bs) d (suc m)
subst_count b bs c m e t = rw e at t

IsTerminated-cons :
    (b : ℕ) (bs : Bytes) (c m : ℕ)
    → IsTerminated bs c m
    → IsTerminated (b ∷ bs) ((if b == 0 then 1 else 0) + c) (suc m)
unfolding nuls
IsTerminated-cons b bs c zero t = absurd (omega (arith, t.some_byte))
IsTerminated-cons b bs c (suc m) t = record {
  some_byte = omega arith;
  inside = omega (arith, t.inside);
  counted = ground (arith, t.counted);
  ends = ground (arith, t.ends);
}

IsTerminated-tail :
    (b : ℕ) (bs : Bytes) (c m : ℕ)
    → 1 ≤ c
    → IsTerminated (b ∷ bs) ((if b == 0 then 1 else 0) + c) (suc m)
    → IsTerminated bs c m
unfolding nuls
IsTerminated-tail b bs c zero h t = absurd (ground (arith, t.ends, t.counted))
IsTerminated-tail b bs c (suc m) h t = record {
  some_byte = omega arith;
  inside = omega (arith, t.inside);
  counted = ground (arith, t.counted);
  ends = ground (arith, t.ends);
}

pub strtaglen-IsTerminated :
    (bytes : Bytes) (c n : ℕ)
    → 1 ≤ c
    → c < 2 ^ 32
    → strtaglen bytes c ≡ some n
    → IsTerminated bytes c n
strtaglen-IsTerminated [] c n h k e = absurd (strtaglen_empty c n e)
strtaglen-IsTerminated (b ∷ bs) c n h k e = elim (Bool-cases (b == 0)) [
  | inl z ↦ elim (Bool-cases (c == 1)) [
    | inl one ↦
        let same : n ≡ 1 = ground (arith, strtaglen_nul b bs c z h k) in
        let c_one : c ≡ 1 = ground arith in rw (same, c_one) (IsTerminated_one b bs z)
    | inr more ↦ elim (Option-cases (strtaglen bs (c - 1))) [
      | inl none' ↦ absurd (ground (arith, strtaglen_nul b bs c z h k))
      | inr (m, rest) ↦
          let same : n ≡ suc m = ground (arith, strtaglen_nul b bs c z h k) in
          let ih = strtaglen-IsTerminated bs (c - 1) m (ground arith) (omega arith) rest in
          let sum : c ≡ (if b == 0 then 1 else 0) + (c - 1) = ground arith in
          rw (same) (rw (sym sum) at (IsTerminated-cons b bs (c - 1) m ih))
    ]
  ]
  | inr nz ↦ elim (Option-cases (strtaglen bs c)) [
    | inl none' ↦ absurd (ground (arith, strtaglen_byte b bs c nz))
    | inr (m, rest) ↦
        let same : n ≡ suc m = ground (arith, strtaglen_byte b bs c nz) in
        let ih = strtaglen-IsTerminated bs c m h k rest in
        let sum : (if b == 0 then 1 else 0) + c ≡ c = ground arith in
        rw (same) (rw sum at (IsTerminated-cons b bs c m ih))
  ]
]

-- The other way round.
pub IsTerminated-strtaglen :
    (bytes : Bytes) (c n : ℕ)
    → 1 ≤ c
    → c < 2 ^ 32
    → IsTerminated bytes c n
    → strtaglen bytes c ≡ some n
IsTerminated-strtaglen bytes c zero h k t = absurd (omega (arith, t.some_byte))
IsTerminated-strtaglen [] c (suc m) h k t = absurd (omega (arith, t.inside))
IsTerminated-strtaglen (b ∷ bs) c (suc m) h k t = elim (Bool-cases (b == 0)) [
  | inl z ↦ elim (Bool-cases (c == 1)) [
    | inl one ↦
        let c_one : c ≡ 1 = ground arith in
        let m_zero : m ≡ 0 = one_nul b bs m z (rw c_one at t) in
        rw (strtaglen_nul b bs c z h k, one, m_zero)
    | inr more ↦
        let sum : c ≡ (if b == 0 then 1 else 0) + (c - 1) = ground arith in
        let c_some : 1 ≤ c - 1 = ground arith in
        let t' : IsTerminated bs (c - 1) m =
          IsTerminated-tail b bs (c - 1) m c_some (subst_count b bs c m sum t) in
        rw (
          strtaglen_nul b bs c z h k,
          more,
          IsTerminated-strtaglen bs (c - 1) m c_some (omega arith) t',
        )
  ]
  | inr nz ↦
      let sum : c ≡ (if b == 0 then 1 else 0) + c = ground arith in
      let t' : IsTerminated bs c m = IsTerminated-tail b bs c m h (subst_count b bs c m sum t) in
      rw (strtaglen_byte b bs c nz, IsTerminated-strtaglen bs c m h k t')
]

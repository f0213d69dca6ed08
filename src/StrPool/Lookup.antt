-- ===== src/StrPool/Lookup.antt =====
-- `rpmstrPoolGet`: what a lookup in a table finds.
use rpm.Base.{
  ℕ, zero, suc, ◌≤◌, ◌<◌, ◌≡◌, ◌≢◌, refl, ap, ◌∙◌, some, Bool-cases, inl, inr, ◌⊎◌, ltb, Bytes,
  List, get_elem?, arith,
}
use rpm.StrPool.{Pool, empty, id2str, probe, rstrhash, pool_get}
use rpm.StrPool.Probes.{GoesOn, get_loop-some, get_loop-answer, answer}
use rpm.StrPool.Table.{IsTable, probe-same}

-- No string before the index `c` is `s`.
unfoldable pub IsAbsent : List Bytes → ℕ → Bytes → Type 0
IsAbsent offs c s = (i : ℕ) → i < c → get_elem? offs i ≢ some s

-- An empty bucket on the way of a string that the table does not have.
pub IsAbsent-empty :
    (offs : List Bytes) (c n : ℕ) (buckets : ℕ → ℕ) (s : Bytes) (k : ℕ)
    → IsTable offs c n buckets
    → GoesOn (probe offs n buckets s (rstrhash s)) 0 k
    → probe offs n buckets s (rstrhash s) k ≡ empty
    → IsAbsent offs c s
unfolding IsAbsent GoesOn
IsAbsent-empty offs c n buckets s k t g z i h e =
    let r = t.reached i s h e in
    elim (Bool-cases (ltb r.steps k)) [
      | inl l ↦ absurd (ground (arith, r.meets, g r.steps (omega arith) (ground arith)))
      | inr l ↦ elim (Bool-cases (ltb k r.steps)) [
        | inl m ↦ absurd (ground (arith, z, r.goes_on k (omega arith) (ground arith)))
        | inr m ↦
            let at : r.steps ≡ k = ground arith in
            absurd (ground (arith, r.meets, ap (probe offs n buckets s (rstrhash s)) at))
      ]
    ]

-- What a lookup in a table returns.
pub pool_get-some :
    (fuel : ℕ) (pool : Pool) (c : ℕ) (s : Bytes) (sid : ℕ)
    → IsTable pool.offs c pool.num_buckets pool.buckets
    → pool_get fuel pool s (rstrhash s) ≡ some sid
    → ((sid ≢ 0) × (id2str pool.offs sid ≡ some s)) ⊎ ((sid ≡ 0) × IsAbsent pool.offs c s)
unfolding pool_get
pool_get-some fuel pool c s sid t e =
    let p = probe pool.offs pool.num_buckets pool.buckets s (rstrhash s) in
    let (k, a, g, end) = get_loop-some p fuel 0 sid e in
    elim end [
      | inl m ↦
          let (o, z, text) =
            probe-same pool.offs pool.num_buckets pool.buckets s (rstrhash s) k sid m in
          inl (z, text)
      | inr (m, z) ↦ inr (z, IsAbsent-empty pool.offs c pool.num_buckets pool.buckets s k t g m)
    ]

-- A string that is there is found, from some number of probes on.
pub pool_get_there :
    (pool : Pool) (c i : ℕ) (s : Bytes)
    → IsTable pool.offs c pool.num_buckets pool.buckets
    → i < c
    → get_elem? pool.offs i ≡ some s
    → (least : ℕ) × ((fuel : ℕ) → least < fuel → pool_get fuel pool s (rstrhash s) ≡ some (suc i))
unfolding pool_get answer
pool_get_there pool c i s t h e =
    let r = t.reached i s h e in
    let p = probe pool.offs pool.num_buckets pool.buckets s (rstrhash s) in
    (
      r.steps,
      λ fuel l.
          get_loop-answer p fuel 0 r.steps r.goes_on (λ f. ground (arith, r.meets)) (omega arith)
            (omega arith)
          ∙ ap answer r.meets,
    )

pub IsAbsent-id :
    (offs : List Bytes) (c : ℕ) (s : Bytes) (id : ℕ)
    → IsAbsent offs c s
    → id ≢ 0
    → id ≤ c
    → id2str offs id ≢ some s
unfolding IsAbsent id2str
IsAbsent-id offs c s zero n z h = absurd (z refl)
IsAbsent-id offs c s (suc i) n z h = n i (omega arith)

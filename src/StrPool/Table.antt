-- ===== src/StrPool/Table.antt =====
-- The hash table of the pool: each string is met on the way of its own probes.
use rpm.Base.{
  ℕ, zero, suc, ◌≤◌, ◌<◌, ◌≡◌, ◌≢◌, refl, ap, ◌∙◌, some, Bool-cases, inl, inr, ◌==◌, ltb, Bytes,
  List, [], ◌∷◌, ◌++◌, length, get_elem?, arith,
}
use rpm.StrPool.{empty, same, slot, is_text, id2str, probe, rstrhash, set_bucket}
use rpm.StrPool.Probes.{GoesOn, is_text-same, is_text_self}

-- The way of a string's probes leads to its number.
pub record IsReached (offs : List Bytes) (n : ℕ) (buckets : ℕ → ℕ) (id : ℕ) (s : Bytes)
    : Type 0 where
  pub steps : ℕ
  pub meets : probe offs n buckets s (rstrhash s) steps ≡ same id
  pub goes_on : GoesOn (probe offs n buckets s (rstrhash s)) 0 steps

-- The table has the numbers up to `c`, each once and where its string's probes meet it.
pub record IsTable (offs : List Bytes) (c n : ℕ) (buckets : ℕ → ℕ) : Type 0 where
  pub sized : 1 ≤ n
  pub counted : c ≤ length offs
  pub valid : (j : ℕ) → j < n → buckets j ≤ c
  pub unique : (i j : ℕ) → i < n → j < n → buckets i ≡ buckets j → buckets i ≢ 0 → i ≡ j
  pub reached :
      (i : ℕ) (s : Bytes) → i < c → get_elem? offs i ≡ some s → IsReached offs n buckets (suc i) s

pub slot-lt : (n hash i : ℕ) → 1 ≤ n → slot n hash i < n
unfolding slot
slot-lt n hash i h = grind arith

pub probe-same :
    (offs : List Bytes) (n : ℕ) (buckets : ℕ → ℕ) (key : Bytes) (hash i id : ℕ)
    → probe offs n buckets key hash i ≡ same id
    → (buckets (slot n hash i) ≡ id) × (id ≢ 0) × (id2str offs id ≡ some key)
unfolding probe
probe-same offs n buckets key hash i id e =
    let at = buckets (slot n hash i) in
    elim (Bool-cases (at == 0)) [
      | inl z ↦ absurd (ground arith)
      | inr z ↦ elim (Bool-cases (is_text (id2str offs at) key)) [
        | inl t ↦
            let here : at ≡ id = ground arith in
            (here, ground arith, rw here at (is_text-same (id2str offs at) key t))
        | inr t ↦ absurd (ground arith)
      ]
    ]

pub probe-at :
    (offs : List Bytes) (n : ℕ) (buckets : ℕ → ℕ) (key : Bytes) (hash i id : ℕ)
    → buckets (slot n hash i) ≡ id
    → id ≢ 0
    → id2str offs id ≡ some key
    → probe offs n buckets key hash i ≡ same id
unfolding probe
probe-at offs n buckets key hash i id b z t =
    ground (arith, is_text_self key, ap (λ o. is_text o key) t)

pub probe-empty :
    (offs : List Bytes) (n : ℕ) (buckets : ℕ → ℕ) (key : Bytes) (hash i : ℕ)
    → probe offs n buckets key hash i ≡ empty
    → buckets (slot n hash i) ≡ 0
unfolding probe
probe-empty offs n buckets key hash i e = ground arith

-- A bucket that is filled lies on no way that was there.
pub probe-set_bucket :
    (offs : List Bytes) (n : ℕ) (buckets : ℕ → ℕ) (key : Bytes) (hash i at id : ℕ)
    → buckets at ≡ 0
    → probe offs n buckets key hash i ≢ empty
    → probe offs n (set_bucket buckets at id) key hash i ≡ probe offs n buckets key hash i
unfolding probe set_bucket
probe-set_bucket offs n buckets key hash i at id z e = elim (Bool-cases (slot n hash i == at)) [
  | inl s ↦ let here : slot n hash i ≡ at = ground arith in absurd (ground (arith, ap buckets here))
  | inr s ↦ rw s refl
]

pub IsReached-set_bucket :
    (offs : List Bytes) (n : ℕ) (buckets : ℕ → ℕ) (at id new : ℕ) (s : Bytes)
    → buckets at ≡ 0
    → IsReached offs n buckets id s
    → IsReached offs n (set_bucket buckets at new) id s
unfolding GoesOn
IsReached-set_bucket offs n buckets at id new s z r = record {
  steps = r.steps;
  meets =
      probe-set_bucket offs n buckets s (rstrhash s) r.steps at new z (λ e. ground (arith, r.meets))
      ∙ r.meets;
  goes_on = λ j a b.
      let e = r.goes_on j a b in
      probe-set_bucket offs n buckets s (rstrhash s) j at new z (λ f. ground arith) ∙ e;
}

-- Two ways of the same string do not part.
pub IsReached-unique :
    (offs : List Bytes) (n : ℕ) (buckets : ℕ → ℕ) (a b : ℕ) (s : Bytes)
    → IsReached offs n buckets a s
    → IsReached offs n buckets b s
    → a ≡ b
unfolding GoesOn
IsReached-unique offs n buckets a b s h k = elim (Bool-cases (ltb h.steps k.steps)) [
  | inl l ↦ absurd (ground (arith, h.meets, k.goes_on h.steps (omega arith) (ground arith)))
  | inr l ↦ elim (Bool-cases (ltb k.steps h.steps)) [
    | inl m ↦ absurd (ground (arith, k.meets, h.goes_on k.steps (omega arith) (ground arith)))
    | inr m ↦
        let e : h.steps ≡ k.steps = ground arith in
        ground (arith, h.meets, k.meets, ap (probe offs n buckets s (rstrhash s)) e)
  ]
]

pub distinct :
    (offs : List Bytes) (c n : ℕ) (buckets : ℕ → ℕ) (i j : ℕ) (s : Bytes)
    → IsTable offs c n buckets
    → i < c
    → j < c
    → get_elem? offs i ≡ some s
    → get_elem? offs j ≡ some s
    → i ≡ j
distinct offs c n buckets i j s t a b e f =
    let same_id =
      IsReached-unique offs n buckets (suc i) (suc j) s (t.reached i s a e) (t.reached j s b f) in
    omega (arith, same_id)

pub get_elem?-append :
    (offs : List Bytes) (s : Bytes) (i : ℕ)
    → i < length offs
    → get_elem? (offs ++ s ∷ []) i ≡ get_elem? offs i
get_elem?-append [] s i h = absurd (omega arith)
get_elem?-append (x ∷ xs) s zero h = refl
get_elem?-append (x ∷ xs) s (suc i) h = get_elem?-append xs s i (omega arith)

pub get_elem?_last :
    (offs : List Bytes) (s : Bytes) → get_elem? (offs ++ s ∷ []) (length offs) ≡ some s
get_elem?_last [] s = refl
get_elem?_last (x ∷ xs) s = get_elem?_last xs s

-- ===== src/Header/Info/Data.antt =====
-- What `dataLength` gives for the data of an entry on disk.
use rpm.Base.{
  ℕ, ◌*◌, ◌%◌, ◌^◌, ◌≤◌, ◌<◌, ◌≡◌, ◌≢◌, refl, sym, ap, ◌∙◌, true, ◌||◌, none, some, Bool-cases, inl,
  inr, ◌==◌, ltb, length, Bytes, arith, ◌⊎◌, if◌then◌else◌,
}
use rpm.Header.{type_size, data_length, strtaglen}
use rpm.Header.Lengths.{IsTerminated, strtaglen-IsTerminated, IsTerminated-strtaglen}

-- How long the data of an entry is: strings with a NUL each, other data by the size of its type.
pub record IsLength (type count : ℕ) (bytes : Bytes) (len : ℕ) : Type 0 where
  pub one_string : type ≡ 6 → count ≡ 1
  pub strings : (type ≡ 6 ⊎ type ≡ 8 ⊎ type ≡ 9) → IsTerminated bytes count len
  pub sized : type ≢ 6 → type ≢ 8 → type ≢ 9 → (len ≡ type_size type * count) × (len ≤ length bytes)

size_lem :
    (type count : ℕ) → count < 2 ^ 28 → type_size type * count % 2 ^ 32 ≡ type_size type * count
unfolding type_size
size_lem type count h = ground arith

sized_lem :
    (type count : ℕ) (bytes : Bytes)
    → type ≤ 9
    → count < 2 ^ 28
    → type ≢ 6
    → type ≢ 8
    → type ≢ 9
    → data_length type bytes count ≡ (
        if ltb (length bytes) (type_size type * count) then none else some (type_size type * count))
unfolding data_length
sized_lem type count bytes h k a b c =
    let small : type % 16 ≡ type = omega arith in
    ground (arith, ap type_size small, size_lem type count k)

string_lem :
    (count : ℕ) (bytes : Bytes)
    → data_length 6 bytes count ≡ (if count == 1 then strtaglen bytes 1 else none)
unfolding data_length
string_lem count bytes = refl

array_lem :
    (type count : ℕ) (bytes : Bytes)
    → (type ≡ 8 ⊎ type ≡ 9)
    → data_length type bytes count ≡ strtaglen bytes count
unfolding data_length
array_lem type count bytes h = ground arith

positive_lem : (type count : ℕ) → 1 ≤ type → type ≤ 9 → 1 ≤ count → 1 ≤ type_size type * count
unfolding type_size
positive_lem type count l h c = ground arith

kinds : (type : ℕ) → (type == 6 || type == 8 || type == 9) ≡ true → type ≡ 6 ⊎ type ≡ 8 ⊎ type ≡ 9
kinds type b = elim (Bool-cases (type == 6)) [
  | inl e ↦ inl (ground arith)
  | inr e ↦ elim (Bool-cases (type == 8)) [
    | inl f ↦ inr (inl (ground arith))
    | inr f ↦ inr (inr (ground arith))
  ]
]

module _ (type count len : ℕ) (bytes : Bytes) (type_high : type ≤ 9) (count_low : 1 ≤ count)
    (count_high : count < 2 ^ 28) where
  as_strtaglen :
      data_length type bytes count ≡ some len
      → (type ≡ 6 ⊎ type ≡ 8 ⊎ type ≡ 9)
      → strtaglen bytes count ≡ some len
  as_strtaglen e s = elim s [
    | inl q ↦ ground (arith, string_lem count bytes, ap (λ t. data_length t bytes count) q)
    | inr q ↦ sym (array_lem type count bytes q) ∙ e
  ]

  pub data_length-IsLength : data_length type bytes count ≡ some len → IsLength type count bytes len
  data_length-IsLength e = record {
    one_string = λ s. ground (arith, string_lem count bytes, ap (λ t. data_length t bytes count) s);
    strings =
        λ s. strtaglen-IsTerminated bytes count len count_low (omega arith) (as_strtaglen e s);
    sized = λ a b c. ground (arith, sized_lem type count bytes type_high count_high a b c);
  }

  pub IsLength-data_length : IsLength type count bytes len → data_length type bytes count ≡ some len
  IsLength-data_length h = elim (Bool-cases (type == 6 || type == 8 || type == 9)) [
    | inl b ↦
        let s : type ≡ 6 ⊎ type ≡ 8 ⊎ type ≡ 9 = kinds type b in
        let t = IsTerminated-strtaglen bytes count len count_low (omega arith) (h.strings s) in
        elim s [
          | inl q ↦ ground (
            arith,
            t,
            h.one_string q,
            string_lem count bytes,
            ap (λ t. data_length t bytes count) q,
          )
          | inr q ↦ array_lem type count bytes q ∙ t
        ]
    | inr b ↦
        let a1 : type ≢ 6 = λ q. ground arith in
        let a2 : type ≢ 8 = λ q. ground arith in
        let a3 : type ≢ 9 = λ q. ground arith in
        ground (arith, h.sized a1 a2 a3, sized_lem type count bytes type_high count_high a1 a2 a3)
  ]

  pub IsLength-le : IsLength type count bytes len → len ≤ length bytes
  IsLength-le h = elim (Bool-cases (type == 6 || type == 8 || type == 9)) [
    | inl b ↦ (h.strings (kinds type b)).inside
    | inr b ↦ (h.sized (λ q. ground arith) (λ q. ground arith) (λ q. ground arith)).1
  ]

  pub IsLength-positive : 1 ≤ type → IsLength type count bytes len → 1 ≤ len
  IsLength-positive l h = elim (Bool-cases (type == 6 || type == 8 || type == 9)) [
    | inl b ↦ (h.strings (kinds type b)).some_byte
    | inr b ↦ ground (
      arith,
      (h.sized (λ q. ground arith) (λ q. ground arith) (λ q. ground arith)).0,
      positive_lem type count l type_high count_low,
    )
  ]

-- ===== src/Cpio/Reading/Fields.antt =====
-- The fields of a header: eight digits each, read as the number that was printed.
use rpm.Base.{
  ℕ, zero, suc, ◌+◌, ◌^◌, ◌≤◌, ◌<◌, ◌≡◌, ◌≢◌, refl, sym, ap, ◌∙◌, [], ◌∷◌, ◌++◌, append-nil, length,
  length-append, length-take, take, drop, All, Bytes, arith,
}
use rpm.Cpio.{Io, Stat, done, num_field, physical_header}
use rpm.Cpio.Reading.{c_text, field, strntoul, get_num_field}

-- Of the digits of a number there are eight at least. Those of a number below 2^32 are eight, none of
-- them NUL, and all of them are read as the number.
pub record IsHex {Fd : Type 0} (io : Io Fd) : Type 0 where
  pub wide : (n : ℕ) → 8 ≤ length (io.print_hex n)
  pub eight : (n : ℕ) → n < 2 ^ 32 → length (io.print_hex n) ≡ 8
  pub digits : (n : ℕ) → n < 2 ^ 32 → All (λ c. c ≢ 0) (io.print_hex n)
  pub value : (n : ℕ) → n < 2 ^ 32 → io.strtoul (io.print_hex n) ≡ (n, 8)

pub c_text-nul : (s rest : Bytes) → All (λ c. c ≢ 0) s → c_text (s ++ 0 ∷ rest) ≡ s
unfolding c_text
c_text-nul [] rest h = refl
c_text-nul (c ∷ s) rest h = ground (arith, c_text-nul s rest h.1, h.0)

c_text-All : (s : Bytes) → All (λ c. c ≢ 0) s → c_text s ≡ s
unfolding c_text
c_text-All [] h = refl
c_text-All (c ∷ s) h = ground (arith, c_text-All s h.1, h.0)

take-append : (n : ℕ) (a rest : Bytes) → length a ≡ n → take n (a ++ rest) ≡ a
take-append zero [] rest h = refl
take-append zero (c ∷ a) rest h = absurd (omega arith)
take-append (suc n) [] rest h = absurd (omega arith)
take-append (suc n) (c ∷ a) rest h = ap (λ x. c ∷ x) (take-append n a rest (omega arith))

drop-append : (n : ℕ) (a rest : Bytes) → length a ≡ n → drop n (a ++ rest) ≡ rest
drop-append zero [] rest h = refl
drop-append zero (c ∷ a) rest h = absurd (omega arith)
drop-append (suc n) [] rest h = absurd (omega arith)
drop-append (suc n) (c ∷ a) rest h = drop-append n a rest (omega arith)

length-next : (a rest : Bytes) (n : ℕ) → length a ≡ 8 → length rest ≡ n → length (a ++ rest) ≡ 8 + n
length-next a rest n h k = omega (arith, length-append a rest)

field-first : (a rest : Bytes) → length a ≡ 8 → field 0 (a ++ rest) ≡ a
unfolding field
field-first a rest h = take-append 8 a rest h

field-next : (i : ℕ) (a rest : Bytes) → length a ≡ 8 → field (suc i) (a ++ rest) ≡ field i rest
unfolding field
field-next i a rest h = ap (field i) (drop-append 8 a rest h)

module _ {Fd : Type 0} (io : Io Fd) (hex : IsHex io) where
  length-num_field : (n : ℕ) → length (num_field io n) ≡ 8
  unfolding num_field
  length-num_field n = length-take 8 (io.print_hex n) (hex.wide n)

  pub get_num_field-num_field : (n : ℕ) → n < 2 ^ 32 → get_num_field io (num_field io n) ≡ done n
  unfolding get_num_field strntoul num_field
  get_num_field-num_field n h =
      let printed : take 8 (io.print_hex n) ≡ io.print_hex n =
        ap (take 8) (sym (append-nil (io.print_hex n)))
        ∙ take-append 8 (io.print_hex n) [] (hex.eight n h) in
      let text : c_text (take 8 (io.print_hex n)) ≡ io.print_hex n =
        ap c_text printed ∙ c_text-All (io.print_hex n) (hex.digits n h) in
      rw (text, hex.value n h) (ground (arith, hex.eight n h, ap length printed))

  pub length-physical_header : (st : Stat) (len : ℕ) → length (physical_header io st len) ≡ 104
  unfolding physical_header
  length-physical_header st len = length-next (num_field io st.ino) _ 96 (length-num_field st.ino) (
      length-next (num_field io st.mode_bits) _ 88 (length-num_field st.mode_bits) (
        length-next (num_field io st.uid) _ 80 (length-num_field st.uid) (
          length-next (num_field io st.gid) _ 72 (length-num_field st.gid) (
            length-next (num_field io st.nlink) _ 64 (length-num_field st.nlink) (
              length-next (num_field io st.mtime) _ 56 (length-num_field st.mtime) (
                length-next (num_field io st.size) _ 48 (length-num_field st.size) (
                  length-next (num_field io (io.major st.dev)) _ 40
                    (length-num_field (io.major st.dev))
                    (length-next (num_field io (io.minor st.dev)) _ 32
                      (length-num_field (io.minor st.dev))
                      (length-next (num_field io (io.major st.rdev)) _ 24
                        (length-num_field (io.major st.rdev))
                        (length-next (num_field io (io.minor st.rdev)) _ 16
                          (length-num_field (io.minor st.rdev))
                          (length-next (num_field io len) _ 8 (length-num_field len) refl)))))))))))

  pub field-size :
      (st : Stat) (len : ℕ) → field 6 (physical_header io st len) ≡ num_field io st.size
  unfolding physical_header
  field-size st len =
      field-next 5 (num_field io st.ino) _ (length-num_field st.ino)
      ∙ field-next 4 (num_field io st.mode_bits) _ (length-num_field st.mode_bits)
      ∙ field-next 3 (num_field io st.uid) _ (length-num_field st.uid)
      ∙ field-next 2 (num_field io st.gid) _ (length-num_field st.gid)
      ∙ field-next 1 (num_field io st.nlink) _ (length-num_field st.nlink)
      ∙ field-next 0 (num_field io st.mtime) _ (length-num_field st.mtime)
      ∙ field-first (num_field io st.size) _ (length-num_field st.size)

  pub field-name_size :
      (st : Stat) (len : ℕ) → field 11 (physical_header io st len) ≡ num_field io len
  unfolding physical_header
  field-name_size st len =
      field-next 10 (num_field io st.ino) _ (length-num_field st.ino)
      ∙ field-next 9 (num_field io st.mode_bits) _ (length-num_field st.mode_bits)
      ∙ field-next 8 (num_field io st.uid) _ (length-num_field st.uid)
      ∙ field-next 7 (num_field io st.gid) _ (length-num_field st.gid)
      ∙ field-next 6 (num_field io st.nlink) _ (length-num_field st.nlink)
      ∙ field-next 5 (num_field io st.mtime) _ (length-num_field st.mtime)
      ∙ field-next 4 (num_field io st.size) _ (length-num_field st.size)
      ∙ field-next 3 (num_field io (io.major st.dev)) _ (length-num_field (io.major st.dev))
      ∙ field-next 2 (num_field io (io.minor st.dev)) _ (length-num_field (io.minor st.dev))
      ∙ field-next 1 (num_field io (io.major st.rdev)) _ (length-num_field (io.major st.rdev))
      ∙ field-next 0 (num_field io (io.minor st.rdev)) _ (length-num_field (io.minor st.rdev))
      ∙ field-first (num_field io len) _ (length-num_field len)

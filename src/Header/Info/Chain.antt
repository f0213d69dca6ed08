-- ===== src/Header/Info/Chain.antt =====
-- What it means that `hdrblobVerifyInfo` accepts an index.
use rpm.Base.{
  ℕ, ◌+◌, ◌-◌, ◌%◌, ◌^◌, ◌≤◌, ◌<◌, ◌≡◌, ◌≢◌, refl, ap, ◌∙◌, true, false, Option, none, some,
  Option-cases, Bool-cases, inl, inr, List, [], ◌∷◌, ◌++◌, length, drop, length-drop, arith, ◌↔◌,
}
use rpm.Header.{
  EntryInfo, Blob, type_align, hdrchk_tag, hdrchk_type, hdrchk_count, hdrchk_align, hdrchk_range,
  hdrchk_urange, hdrchk_array, hdrchk_tag_type, data_length,
}
use rpm.Header.Info.{
  is_checked, is_refused, is_end_refused, end_of, check_entry, verify_entries, behind_region,
  hdrblob_verify_info,
}
use rpm.Header.Info.Data.{
  IsLength, data_length-IsLength, IsLength-data_length, IsLength-le, IsLength-positive,
}

-- An entry whose data has the length `len` and stands behind `end`.
pub record IsEntry (tag_type : ℕ → ℕ) (blob : Blob) (end : ℕ) (info : EntryInfo) (len : ℕ)
    : Type 0 where
  pub behind : end ≤ info.offset
  pub tag_bound : 100 ≤ info.tag
  pub type_low : 1 ≤ info.type
  pub type_high : info.type ≤ 9
  pub count_low : 1 ≤ info.count
  pub count_high : info.count ≤ blob.dl
  pub aligned : info.offset % type_align info.type ≡ 0
  pub array_bound : info.type ≢ 7 → info.count < 2 ^ 20
  pub typed :
      is_checked blob.region_tag ≡ true → hdrchk_tag_type tag_type info.tag info.type ≡ false
  pub has_length : IsLength info.type info.count (drop info.offset blob.data_bytes) len
  pub fits : info.offset + len ≤ blob.dl
  pub trailer_kept :
      blob.region_tag ≢ 0
      → info.offset < blob.rdl
      → 16 ≤ blob.rdl
      → info.offset + len ≤ blob.rdl - 16

-- What the verification of the lengths gives before, and what holds of 32 bit numbers.
pub record IsSized (blob : Blob) : Type 0 where
  pub dl_bound : blob.dl < 2 ^ 28
  pub rdl_bound : blob.rdl < 2 ^ 32
  pub data_length_lem : length blob.data_bytes ≡ blob.dl

pub record IsU32 (info : EntryInfo) : Type 0 where
  pub offset_bound : info.offset < 2 ^ 32
  pub count_bound : info.count < 2 ^ 32

module _ (tag_type : ℕ → ℕ) (blob : Blob) where
  -- The entries follow one another from `end` to `last`, each with its data behind that of the one
  -- before.
  unfoldable pub IsChain : ℕ → List EntryInfo → ℕ → Type 0
  IsChain end [] last = end ≡ last
  IsChain end (info ∷ rest) last =
      (len : ℕ) × IsEntry tag_type blob end info len × IsChain (info.offset + len) rest last

  -- The entries that come before a bad one, and that it is bad.
  unfoldable pub IsFirstBad : ℕ → List EntryInfo → ℕ → Type 0
  IsFirstBad end infos n =
      (good : List EntryInfo) × (bad : EntryInfo) × (rest : List EntryInfo) × (last : ℕ) × (infos
        ≡ good ++ bad ∷ rest)
      × (length good ≡ n)
      × IsChain end good last
      × ((len : ℕ) → ¬ IsEntry tag_type blob last bad len)

module _ (tag_type : ℕ → ℕ) (blob : Blob) (sized : IsSized blob) where
  not_refused :
      (end : ℕ) (info : EntryInfo)
      → is_refused tag_type blob end info ≡ false
      → (end ≤ info.offset)
        × (100 ≤ info.tag)
        × (1 ≤ info.type)
        × (info.type ≤ 9)
        × (1 ≤ info.count)
        × (info.count ≤ blob.dl)
        × (info.offset % type_align info.type ≡ 0)
        × (info.offset ≤ blob.dl)
        × (info.type ≢ 7 → info.count < 2 ^ 20)
        × (is_checked blob.region_tag ≡ true → hdrchk_tag_type tag_type info.tag info.type ≡ false)
  unfolding is_refused hdrchk_tag hdrchk_type hdrchk_count hdrchk_align hdrchk_range hdrchk_array
  not_refused end info e = ground arith

  checked :
      (end : ℕ) (info : EntryInfo) (len : ℕ)
      → IsEntry tag_type blob end info len
      → is_refused tag_type blob end info ≡ false
  unfolding is_refused hdrchk_tag hdrchk_type hdrchk_count hdrchk_align hdrchk_range hdrchk_array
  checked end info len e = ground (
    arith, e.behind, e.tag_bound, e.type_low, e.type_high, e.count_low, e.count_high, e.aligned,
    e.array_bound, e.typed, e.fits, sized.dl_bound,
  )

  end_of-some :
      (info : EntryInfo) (o : Option ℕ) (end' : ℕ)
      → info.offset ≤ blob.dl
      → end_of blob info o ≡ some end'
      → (len : ℕ) × (o ≡ some len)
        × (is_end_refused blob info len ((info.offset + len) % 2 ^ 32) ≡ false)
        × (end' ≡ (info.offset + len) % 2 ^ 32)
  unfolding end_of
  end_of-some info none end' h e = absurd (ground arith)
  end_of-some info (some len) end' h e = (len, refl, ground arith, ground arith)

  end_fits :
      (info : EntryInfo) (len : ℕ)
      → info.offset + len < 2 ^ 32
      → is_end_refused blob info len ((info.offset + len) % 2 ^ 32) ≡ false
      → (info.offset + len ≤ blob.dl)
        × (blob.region_tag ≢ 0
            → info.offset < blob.rdl
            → 16 ≤ blob.rdl
            → info.offset + len ≤ blob.rdl - 16)
  unfolding is_end_refused hdrchk_urange
  end_fits info len b e =
      let small : (info.offset + len) % 2 ^ 32 ≡ info.offset + len = omega arith in
      ground (arith, small, sized.rdl_bound)

  end_kept :
      (end : ℕ) (info : EntryInfo) (len : ℕ)
      → IsEntry tag_type blob end info len
      → 1 ≤ len
      → is_end_refused blob info len ((info.offset + len) % 2 ^ 32) ≡ false
  unfolding is_end_refused hdrchk_urange
  end_kept end info len h l =
      let small : (info.offset + len) % 2 ^ 32 ≡ info.offset + len =
        omega (arith, h.fits, sized.dl_bound) in
      ground (arith, small, h.fits, h.trailer_kept, sized.rdl_bound, sized.dl_bound)

  -- One round accepts an entry exactly if it is one, and goes on from the end of its data.
  check_entry-IsEntry :
      (end : ℕ) (info : EntryInfo) (end' : ℕ)
      → check_entry tag_type blob end info ≡ some end'
      → (len : ℕ) × IsEntry tag_type blob end info len × (end' ≡ info.offset + len)
  unfolding check_entry
  check_entry-IsEntry end info end' e = elim (Bool-cases (is_refused tag_type blob end info)) [
    | inl r ↦ absurd (ground arith)
    | inr r ↦
        let (behind, tag, low, high, cl, ch, align, inside, array, typed) =
          not_refused end info r in
        let bytes = drop info.offset blob.data_bytes in
        let rest : end_of blob info (data_length info.type bytes info.count) ≡ some end' =
          rw r at e in
        let (len, found, kept, at) =
          end_of-some info (data_length info.type bytes info.count) end' inside rest in
        let few : info.count < 2 ^ 28 = omega (arith, sized.dl_bound) in
        let is_length = data_length-IsLength info.type info.count len bytes high cl few found in
        let within : len ≤ length bytes =
          IsLength-le info.type info.count len bytes high cl few is_length in
        let small : info.offset + len < 2 ^ 32 =
          omega (
            arith,
            sized.dl_bound,
            sized.data_length_lem,
            length-drop info.offset blob.data_bytes,
          ) in
        let (fits, trailer) = end_fits info len small kept in
        (
          len,
          record {
            behind = behind;
            tag_bound = tag;
            type_low = low;
            type_high = high;
            count_low = cl;
            count_high = ch;
            aligned = align;
            array_bound = array;
            typed = typed;
            has_length = is_length;
            fits = fits;
            trailer_kept = trailer;
          },
          omega arith,
        )
  ]

  IsEntry-check_entry :
      (end : ℕ) (info : EntryInfo) (len : ℕ)
      → IsEntry tag_type blob end info len
      → check_entry tag_type blob end info ≡ some (info.offset + len)
  unfolding check_entry end_of
  IsEntry-check_entry end info len h =
      let bytes = drop info.offset blob.data_bytes in
      let few : info.count < 2 ^ 28 = omega (arith, h.count_high, sized.dl_bound) in
      let found =
        IsLength-data_length info.type info.count len bytes h.type_high h.count_low few
          h.has_length in
      let some_len =
        IsLength-positive info.type info.count len bytes h.type_high h.count_low few h.type_low
          h.has_length in
      let small : (info.offset + len) % 2 ^ 32 ≡ info.offset + len =
        omega (arith, h.fits, sized.dl_bound) in
      rw (checked end info len h, found, end_kept end info len h some_len, small)

  verify_entries-IsChain :
      (end i : ℕ) (infos : List EntryInfo)
      → verify_entries tag_type blob end i infos ≡ 0
      → (last : ℕ) × IsChain tag_type blob end infos last
  unfolding verify_entries IsChain
  verify_entries-IsChain end i [] e = (end, refl)
  verify_entries-IsChain end i (info ∷ rest) e =
      elim (Option-cases (check_entry tag_type blob end info)) [
        | inl c ↦ absurd (ground arith)
        | inr (end', c) ↦
            let (len, h, at) = check_entry-IsEntry end info end' c in
            let (last, chain) =
              verify_entries-IsChain end' (i + 1) rest (rw (verify_entries, c) at e) in
            (last, (len, h, rw at at chain))
      ]

  IsChain-verify_entries :
      (end i last : ℕ) (infos : List EntryInfo)
      → IsChain tag_type blob end infos last
      → verify_entries tag_type blob end i infos ≡ 0
  unfolding verify_entries IsChain
  IsChain-verify_entries end i last [] h = refl
  IsChain-verify_entries end i last (info ∷ rest) h =
      rw (verify_entries, IsEntry-check_entry end info h.0 h.1)
        (IsChain-verify_entries (info.offset + h.0) (i + 1) last rest h.2)

  -- hdrblobVerifyInfo accepts an index exactly if its entries, without the region's, form a chain:
  -- each has a tag, a type, a count and an alignment that are allowed, its data has the length that
  -- type and count ask for, with a NUL behind each string, stands within the data of the header
  -- behind that of the entry before, and, where the region has at least 16 bytes, does not reach
  -- from the region into its trailer.
  pub hdrblob_verify_info_iff :
      (hdrblob_verify_info tag_type blob ≡ 0)
      ↔ ((last : ℕ) × IsChain tag_type blob 0 (behind_region blob) last)
  unfolding hdrblob_verify_info
  hdrblob_verify_info_iff = (
    verify_entries-IsChain 0 0 (behind_region blob),
    λ h. IsChain-verify_entries 0 0 h.0 (behind_region blob) h.1,
  )

  verify_entries-IsFirstBad :
      (end i : ℕ) (infos : List EntryInfo)
      → verify_entries tag_type blob end i infos ≢ 0
      → (n : ℕ) × (verify_entries tag_type blob end i infos ≡ i + n + 1)
        × IsFirstBad tag_type blob end infos n
  unfolding verify_entries IsChain IsFirstBad
  verify_entries-IsFirstBad end i [] e = absurd (e refl)
  verify_entries-IsFirstBad end i (info ∷ rest) e =
      elim (Option-cases (check_entry tag_type blob end info)) [
        | inl c ↦ (
          0,
          rw (verify_entries, c) (omega arith),
          (
            [],
            info,
            rest,
            end,
            refl,
            refl,
            refl,
            λ len h. ground (arith, IsEntry-check_entry end info len h),
          ),
        )
        | inr (end', c) ↦
            let (len, h, at) = check_entry-IsEntry end info end' c in
            let (n, found, first) =
              verify_entries-IsFirstBad end' (i + 1) rest (λ z. e (rw (verify_entries, c) z)) in
            let (good, bad, behind, last, parts, count, chain, no_entry) = first in
            (
              n + 1,
              rw (verify_entries, c, found) (omega arith),
              (
                info ∷ good,
                bad,
                behind,
                last,
                ap (λ l. info ∷ l) parts,
                omega (arith, count),
                (len, h, rw at at chain),
                no_entry,
              ),
            )
      ]

  -- What hdrblobVerifyInfo returns for an index that it does not accept is the number of the first
  -- bad entry, counted from 1: the entries before form a chain, and it does not continue it.
  pub hdrblob_verify_info-IsFirstBad :
      hdrblob_verify_info tag_type blob ≢ 0
      → (n : ℕ) × (hdrblob_verify_info tag_type blob ≡ n + 1)
        × IsFirstBad tag_type blob 0 (behind_region blob) n
  unfolding hdrblob_verify_info
  hdrblob_verify_info-IsFirstBad e =
      let (n, found, first) = verify_entries-IsFirstBad 0 0 (behind_region blob) e in
      (n, found ∙ omega arith, first)

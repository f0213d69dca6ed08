-- ===== src/Header/Info.antt =====
-- lib/header.cc: `hdrblobVerifyInfo`.
mod Data
pub mod Chain
use rpm.Base.{
  ℕ, zero, suc, ◌+◌, ◌-◌, ◌%◌, ◌^◌, Bool, true, false, not, ◌&&◌, ◌||◌, Option, none, some, List,
  [], ◌∷◌, ◌==◌, ltb, length, drop, Bytes, if◌then◌else◌,
}
use rpm.Header.{
  EntryInfo, Blob, header_image, header_immutable, hdrchk_tag, hdrchk_type, hdrchk_count,
  hdrchk_align, hdrchk_range, hdrchk_urange, hdrchk_array, hdrchk_tag_type, data_length,
}

-- `typechk`
unfoldable pub is_checked : ℕ → Bool
is_checked region_tag = region_tag == header_immutable || region_tag == header_image

-- The tests before the data is looked at; the `int32_t` offset is converted for the first.
unfoldable pub is_refused : (ℕ → ℕ) → Blob → ℕ → EntryInfo → Bool
unfolding is_checked
is_refused tag_type blob end info =
    ltb info.offset end
    || hdrchk_tag info.tag
    || hdrchk_type info.type
    || hdrchk_count blob.dl info.count
    || hdrchk_align info.type info.offset
    || hdrchk_range blob.dl info.offset
    || hdrchk_array info.type info.count
    || (is_checked blob.region_tag && hdrchk_tag_type tag_type info.tag info.type)

-- The tests of the end of the data. `blob->rdl - REGION_TAG_COUNT` is a `size_t`.
unfoldable pub is_end_refused : Blob → EntryInfo → ℕ → ℕ → Bool
is_end_refused blob info len end =
    hdrchk_urange blob.dl end
    || len == 0
    || (not (blob.region_tag == 0)
        && (ltb ((blob.rdl + 2 ^ 64 - 16) % 2 ^ 64) end && ltb info.offset blob.rdl))

unfoldable pub end_of : Blob → EntryInfo → Option ℕ → Option ℕ
end_of blob info none = none
end_of blob info (some len) =
    let end = (info.offset + len) % 2 ^ 32 in
    if is_end_refused blob info len end then none else some end

-- One round of the loop: the end of the entry's data, or none for `goto err`.
unfoldable pub check_entry : (ℕ → ℕ) → Blob → ℕ → EntryInfo → Option ℕ
check_entry tag_type blob end info =
    if is_refused tag_type blob end info
    then none
    else end_of blob info (data_length info.type (drop info.offset blob.data_bytes) info.count)

-- The loop, from the entry `i` on.
unfoldable pub verify_entries : (ℕ → ℕ) → Blob → ℕ → ℕ → List EntryInfo → ℕ
verify_entries tag_type blob end i [] = 0
verify_entries tag_type blob end i (info ∷ rest) = elim (check_entry tag_type blob end info) [
  | none ↦ i + 1
  | some end' ↦ verify_entries tag_type blob end' (i + 1) rest
]

-- Whether the loop hands `dataLength` a start outside of the data, which it then reads from. From a start
-- inside, `dataLength` reads no further than the end of the data, that it is given.
unfoldable pub reads_outside : (ℕ → ℕ) → Blob → ℕ → List EntryInfo → Bool
reads_outside tag_type blob end [] = false
reads_outside tag_type blob end (info ∷ rest) =
    if is_refused tag_type blob end info
    then false
    else if ltb (length blob.data_bytes) info.offset
    then true
    else elim (check_entry tag_type blob end info) [
      | none ↦ false
      | some end' ↦ reads_outside tag_type blob end' rest
    ]

abbrev pub behind_region : Blob → List EntryInfo
behind_region blob = if blob.region_tag == 0 then blob.pe else drop 1 blob.pe

-- `hdrblobVerifyInfo`
unfoldable pub hdrblob_verify_info : (ℕ → ℕ) → Blob → ℕ
unfolding check_entry verify_entries
hdrblob_verify_info tag_type blob = verify_entries tag_type blob 0 0 (behind_region blob)

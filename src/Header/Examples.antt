-- ===== src/Header/Examples.antt =====
-- Small headers: one without a region, one whose region is its only entry, and a bad index.
use rpm.Base.{ℕ, ◌+◌, ◌≡◌, ◌≢◌, ◌↔◌, refl, true, false, [], ◌∷◌, Bytes, arith}
use rpm.Header.{
  EntryInfo, Blob, data_length, hdrchk_align, hdrchk_array, hdrchk_count, hdrchk_range, hdrchk_tag,
  hdrchk_tag_type, hdrchk_type, hdrchk_urange, pred_u32, strtaglen, type_align, type_size,
}
use rpm.Header.Info.{
  reads_outside, hdrblob_verify_info, behind_region, check_entry, end_of, is_checked,
  is_end_refused, is_refused, verify_entries,
}
use rpm.Header.Info.Chain.{
  IsSized, IsChain, IsFirstBad, hdrblob_verify_info_iff, hdrblob_verify_info-IsFirstBad,
}
use rpm.Header.Init.{
  fault, ok, hdrblob_init, read_bytes, init_lengths, ntohl_at, byte_at, hdrblob_verify_lengths,
  verify_rest, verify_data, hdrblob_verify_region, verify_region_entry, new_blob, read_index, ei2h,
  region_of, is_region_info, to_size, region_end, read_trailer, verify_trailer, trailer_tag,
  negate_i32,
}
use rpm.Header.Init.Reads.{AreBytes, hdrblob_init-ne-fault}
use rpm.Header.Init.Accepts.{IsAccepted, hdrblob_init-IsAccepted}

abbrev no_types : ℕ → ℕ
no_types tag = 0

-- The name "a" as the only entry.
abbrev name_header : Bytes
name_header =
    0 ∷ 0 ∷ 0 ∷ 1 ∷ 0 ∷ 0 ∷ 0 ∷ 2 ∷ 0 ∷ 0 ∷ 3 ∷ 232 ∷ 0 ∷ 0 ∷ 0 ∷ 6 ∷ 0 ∷ 0 ∷ 0 ∷ 0 ∷ 0 ∷ 0 ∷ 0 ∷ 1
    ∷ 97 ∷ 0 ∷ []

abbrev name_info : EntryInfo
name_info = record { tag = 1000; type = 6; offset = 0; count = 1 }

abbrev name_blob : Blob
name_blob = record {
  il = 1;
  dl = 2;
  pvlen = 26;
  region_tag = 0;
  ril = 0;
  rdl = 0;
  pe = name_info ∷ [];
  data_bytes = 97 ∷ 0 ∷ [];
}

name_accepted : hdrblob_init no_types name_header 26 0 false ≡ ok name_blob
unfolding hdrblob_init read_bytes init_lengths ntohl_at byte_at hdrblob_verify_lengths verify_rest
    verify_data reads_outside hdrblob_verify_region verify_region_entry new_blob read_index ei2h
    region_of is_region_info to_size region_end read_trailer verify_trailer trailer_tag negate_i32
    hdrblob_verify_info verify_entries check_entry end_of is_refused is_end_refused is_checked
    data_length strtaglen pred_u32 type_size hdrchk_tag hdrchk_type hdrchk_count hdrchk_align
    type_align hdrchk_range hdrchk_urange hdrchk_array hdrchk_tag_type
name_accepted = refl

-- A region at the offset -16, whose trailer is its own entry, is accepted.
abbrev negative_header : Bytes
negative_header =
    0 ∷ 0 ∷ 0 ∷ 1 ∷ 0 ∷ 0 ∷ 0 ∷ 0 ∷ 0 ∷ 0 ∷ 0 ∷ 63 ∷ 0 ∷ 0 ∷ 0 ∷ 7 ∷ 255 ∷ 255 ∷ 255 ∷ 240 ∷ 0 ∷ 0
    ∷ 0 ∷ 16 ∷ []

negative_accepted :
    hdrblob_init no_types negative_header 24 63 true
    ≡ ok (record {
      il = 1;
      dl = 0;
      pvlen = 24;
      region_tag = 63;
      ril = 1;
      rdl = 0;
      pe = record { tag = 63; type = 7; offset = 4294967280; count = 16 } ∷ [];
      data_bytes = [];
    })
unfolding hdrblob_init read_bytes init_lengths ntohl_at byte_at hdrblob_verify_lengths verify_rest
    verify_data reads_outside hdrblob_verify_region verify_region_entry new_blob read_index ei2h
    region_of is_region_info to_size region_end read_trailer verify_trailer trailer_tag negate_i32
    hdrblob_verify_info verify_entries check_entry end_of is_refused is_end_refused is_checked
    data_length strtaglen pred_u32 type_size hdrchk_tag hdrchk_type hdrchk_count hdrchk_align
    type_align hdrchk_range hdrchk_urange hdrchk_array hdrchk_tag_type
negative_accepted = refl

name_header-AreBytes : AreBytes name_header
name_header-AreBytes = omega arith

hdrblob_init-ne-fault_example : hdrblob_init no_types name_header 26 0 false ≢ fault
hdrblob_init-ne-fault_example =
    hdrblob_init-ne-fault no_types name_header 26 0 false name_header-AreBytes (omega arith)
      (omega arith)

hdrblob_init-IsAccepted_example : IsAccepted no_types name_header 26 false name_blob
hdrblob_init-IsAccepted_example =
    hdrblob_init-IsAccepted no_types name_header 26 0 false name_blob name_accepted

name_blob-IsSized : IsSized name_blob
name_blob-IsSized = record {
  dl_bound = omega arith;
  rdl_bound = omega arith;
  data_length_lem = refl;
}

hdrblob_verify_info_iff_example :
    (hdrblob_verify_info no_types name_blob ≡ 0)
    ↔ ((last : ℕ) × IsChain no_types name_blob 0 (behind_region name_blob) last)
hdrblob_verify_info_iff_example = hdrblob_verify_info_iff no_types name_blob name_blob-IsSized

-- The second entry overlaps the first one.
abbrev overlapping_blob : Blob
overlapping_blob = record name_blob { pe = name_info ∷ name_info ∷ [] }

overlapping_blob-IsSized : IsSized overlapping_blob
overlapping_blob-IsSized = record {
  dl_bound = omega arith;
  rdl_bound = omega arith;
  data_length_lem = refl;
}

second_refused : hdrblob_verify_info no_types overlapping_blob ≡ 2
unfolding hdrblob_verify_info verify_entries check_entry end_of is_refused is_end_refused is_checked
    data_length strtaglen pred_u32 type_size hdrchk_tag hdrchk_type hdrchk_count hdrchk_align
    type_align hdrchk_range hdrchk_urange hdrchk_array hdrchk_tag_type
second_refused = refl

hdrblob_verify_info-IsFirstBad_example :
    (n : ℕ) × (hdrblob_verify_info no_types overlapping_blob ≡ n + 1)
    × IsFirstBad no_types overlapping_blob 0 (behind_region overlapping_blob) n
hdrblob_verify_info-IsFirstBad_example =
    hdrblob_verify_info-IsFirstBad no_types overlapping_blob overlapping_blob-IsSized
      (λ e. ground (arith, second_refused))

-- ===== src/Header/Init.antt =====
-- lib/header.cc: `hdrblobInit`, with `hdrblobVerifyLengths` and `hdrblobVerifyRegion`. The header is
-- the list of the bytes from `uh` on that the caller has; a read outside of them is a fault, as is a
-- header that is longer than they are.
pub mod Regions
pub mod Reads
pub mod Accepts
use rpm.Base.{
  ℕ, zero, suc, ◌+◌, ◌-◌, ◌*◌, ◌/◌, ◌%◌, ◌^◌, Bool, true, false, not, ◌&&◌, ◌||◌, Option, none,
  some, List, [], ◌∷◌, ◌==◌, ltb, leb, length, take, drop, Bytes, if◌then◌else◌,
}
use rpm.Header.{
  EntryInfo, Blob, header_image, header_immutable, header_signatures, bin_type, hdrchk_urange,
}
use rpm.Header.Info.{hdrblob_verify_info, reads_outside, behind_region}

-- `n` bytes at a position.
unfoldable pub read_bytes : Bytes → ℕ → ℕ → Option Bytes
read_bytes bytes at n = if leb (at + n) (length bytes) then some (take n (drop at bytes)) else none

-- The byte at an index that is there.
unfoldable pub byte_at : Bytes → ℕ → ℕ
byte_at [] i = 0
byte_at (b ∷ bs) zero = b
byte_at (b ∷ bs) (suc i) = byte_at bs i

-- `ntohl` of the four bytes from an index on.
unfoldable pub ntohl_at : Bytes → ℕ → ℕ
unfolding byte_at
ntohl_at bytes i =
    byte_at bytes i * 2 ^ 24
    + byte_at bytes (i + 1) * 2 ^ 16
    + byte_at bytes (i + 2) * 2 ^ 8
    + byte_at bytes (i + 3)

-- `ei2h`, from the 16 bytes of an entry.
unfoldable pub ei2h : Bytes → EntryInfo
unfolding ntohl_at
ei2h bytes = record {
  tag = ntohl_at bytes 0;
  type = ntohl_at bytes 4;
  offset = ntohl_at bytes 8;
  count = ntohl_at bytes 12;
}

-- The entries of the index.
unfoldable pub read_index : ℕ → Bytes → List EntryInfo
unfolding ei2h
read_index zero bytes = []
read_index (suc n) bytes = ei2h (take 16 bytes) ∷ read_index n (drop 16 bytes)

-- How `hdrblobInit` ends. `not_found` only comes from `hdrblobVerifyRegion`.
pub data Outcome : Type 0 where
  fault : Outcome
  failed : Outcome
  not_found : Blob → Outcome
  ok : Blob → Outcome

-- `hdrblobVerifyLengths`: true is for lengths that are refused.
unfoldable pub hdrblob_verify_lengths : ℕ → ℕ → ℕ → Bool
hdrblob_verify_lengths region_tag il dl =
    let is_signature = region_tag == header_signatures in
    hdrchk_urange (if is_signature then 32 else 2 ^ 16 - 1) il
    || hdrchk_urange (if is_signature then 64 * 1024 * 1024 else 2 ^ 28 - 1) dl

-- An `int32_t` as a `size_t`, and its negation.
unfoldable pub to_size : ℕ → ℕ
to_size off = if ltb off (2 ^ 31) then off else off + 2 ^ 64 - 2 ^ 32

unfoldable pub negate_i32 : ℕ → ℕ
negate_i32 off = (2 ^ 32 - off) % 2 ^ 32

-- `regionTag`, when none is asked for.
unfoldable pub region_of : ℕ → ℕ → ℕ
region_of region_tag tag =
    if region_tag == 0
      && (tag == header_signatures || tag == header_immutable || tag == header_image)
    then tag
    else region_tag

unfoldable pub is_region_info : EntryInfo → Bool
is_region_info info = info.type == bin_type && info.count == 16

-- The tag of the trailer: old packages have HEADERIMAGE in the trailer of the signatures.
unfoldable pub trailer_tag : ℕ → ℕ → ℕ
trailer_tag region_tag tag =
    if region_tag == header_signatures && tag == header_image then header_signatures else tag

-- From the trailer on: `ril` is what its offset, negated, says.
unfoldable pub verify_trailer : ℕ → Bool → Blob → EntryInfo → Outcome
verify_trailer region_tag exact_size blob trailer =
    let offset = to_size (negate_i32 trailer.offset) in
    let ril = offset / 16 % 2 ^ 32 in
    if not (trailer_tag region_tag trailer.tag == region_tag && is_region_info trailer)
    then failed
    else if not (offset % 16 == 0) || hdrchk_urange blob.il ril || hdrchk_urange blob.dl blob.rdl
    then failed
    else if exact_size && not (blob.il == ril && blob.dl == blob.rdl)
    then failed
    else ok (record blob { ril = ril; region_tag = region_tag })

unfoldable pub read_trailer : ℕ → Bool → Blob → Option Bytes → Outcome
unfolding verify_trailer
read_trailer region_tag exact_size blob none = fault
read_trailer region_tag exact_size blob (some bytes) =
    verify_trailer region_tag exact_size blob (ei2h bytes)

-- The position of `blob->dataStart + einfo.offset` in the header.
unfoldable pub region_end : Blob → ℕ → ℕ
region_end blob offset = (8 + 16 * blob.il + to_size offset) % 2 ^ 64

-- The region's entry, which is the first one.
unfoldable pub verify_region_entry : Bytes → ℕ → Bool → Blob → EntryInfo → Outcome
verify_region_entry uh region_tag exact_size blob einfo =
    let end = (to_size einfo.offset + 16) % 2 ^ 64 in
    if not (einfo.tag == region_of region_tag einfo.tag)
    then not_found blob
    else if not (is_region_info einfo)
    then failed
    else if hdrchk_urange blob.dl end
    then failed
    else read_trailer (region_of region_tag einfo.tag) exact_size
        (record blob { rdl = end % 2 ^ 32 }) (read_bytes uh (region_end blob einfo.offset) 16)

-- `hdrblobVerifyRegion`
unfoldable pub hdrblob_verify_region : Bytes → ℕ → Bool → Blob → Outcome
hdrblob_verify_region uh region_tag exact_size blob = elim blob.pe [
  | [] ↦ failed
  | einfo ∷ rest ↦ verify_region_entry uh region_tag exact_size blob einfo
]

-- The last step of `hdrblobInit`: a read outside of the data is a fault.
unfoldable pub verify_data : (ℕ → ℕ) → Blob → Outcome
verify_data tag_type blob =
    if reads_outside tag_type blob 0 (behind_region blob)
    then fault
    else if hdrblob_verify_info tag_type blob == 0
    then ok blob
    else failed

unfoldable pub verify_rest : (ℕ → ℕ) → Outcome → Outcome
unfolding verify_data
verify_rest tag_type fault = fault
verify_rest tag_type failed = failed
verify_rest tag_type (not_found blob) = verify_data tag_type blob
verify_rest tag_type (ok blob) = verify_data tag_type blob

-- What stands in the blob before the region is looked at.
unfoldable pub new_blob : ℕ → ℕ → Bytes → Blob
new_blob il dl uh = record {
  il = il;
  dl = dl;
  pvlen = 8 + il * 16 + dl;
  region_tag = 0;
  ril = 0;
  rdl = 0;
  pe = read_index il (drop 8 uh);
  data_bytes = take dl (drop (8 + il * 16) uh);
}

-- `hdrblobInit` behind the two lengths.
unfoldable pub init_lengths : (ℕ → ℕ) → Bytes → ℕ → ℕ → Bool → ℕ → ℕ → Outcome
init_lengths tag_type uh uc region_tag exact_size il dl =
    let pvlen = 8 + il * 16 + dl in
    if hdrblob_verify_lengths region_tag il dl
    then failed
    else if leb (2 ^ 28) pvlen || (not (uc == 0) && not (pvlen == uc))
    then failed
    else if ltb (length uh) pvlen
    then fault
    else verify_rest tag_type (hdrblob_verify_region uh region_tag exact_size (new_blob il dl uh))

-- `hdrblobInit` of a header of `uc` bytes; 0 is for a length that is not known.
unfoldable pub hdrblob_init : (ℕ → ℕ) → Bytes → ℕ → ℕ → Bool → Outcome
hdrblob_init tag_type uh uc region_tag exact_size =
    if not (uc == 0) && ltb uc 8 then failed else elim (read_bytes uh 0 8) [
      | none ↦ fault
      | some intro ↦
          init_lengths tag_type uh uc region_tag exact_size (ntohl_at intro 0) (ntohl_at intro 4)
    ]

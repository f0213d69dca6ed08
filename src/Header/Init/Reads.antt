-- ===== src/Header/Init/Reads.antt =====
-- `hdrblobInit` reads nothing outside of the header.
use rpm.Base.{
  ◌⊎◌, Option-cases, List, ℕ, zero, suc, ◌+◌, ◌*◌, ◌%◌, ◌^◌, ◌≤◌, ◌<◌, ◌≡◌, ◌≢◌, refl, Bool, false,
  some, Bool-cases, inl, inr, [], ◌∷◌, ltb, length, take, drop, All, All-take, All-drop, Bytes,
  arith,
}
use rpm.Header.{EntryInfo, Blob, hdrchk_range, hdrchk_urange}
use rpm.Header.Info.{is_refused, check_entry, reads_outside, behind_region}
use rpm.Header.Init.Regions.{region-IsVerified, verified-IsSized}
use rpm.Header.Init.{
  read_bytes, byte_at, ntohl_at, ei2h, read_index, Outcome, fault, failed, not_found, ok,
  hdrblob_verify_lengths, to_size, region_of, verify_trailer, read_trailer, region_end,
  verify_region_entry, hdrblob_verify_region, verify_rest, verify_data, new_blob, init_lengths,
  hdrblob_init,
}

abbrev pub AreBytes : Bytes → Type 0
AreBytes bytes = All (λ b. b < 256) bytes

byte_at-lt : (bytes : Bytes) (i : ℕ) → AreBytes bytes → byte_at bytes i < 256
unfolding byte_at
byte_at-lt [] i h = omega arith
byte_at-lt (b ∷ bs) zero h = h.0
byte_at-lt (b ∷ bs) (suc i) h = byte_at-lt bs i h.1

pub ntohl_at-lt : (bytes : Bytes) (i : ℕ) → AreBytes bytes → ntohl_at bytes i < 2 ^ 32
unfolding ntohl_at
ntohl_at-lt bytes i h = omega (
  arith,
  byte_at-lt bytes i h,
  byte_at-lt bytes (i + 1) h,
  byte_at-lt bytes (i + 2) h,
  byte_at-lt bytes (i + 3) h,
)

pub read_bytes-inside :
    (bytes : Bytes) (at n : ℕ)
    → at + n ≤ length bytes
    → read_bytes bytes at n ≡ some (take n (drop at bytes))
unfolding read_bytes
read_bytes-inside bytes at n h = ground arith

-- The trailer stands in the header, also where the region's offset is negative.
region_end-inside :
    (blob : Blob) (offset : ℕ)
    → 1 ≤ blob.il
    → blob.il < 2 ^ 16
    → blob.dl < 2 ^ 28
    → offset < 2 ^ 32
    → hdrchk_urange blob.dl ((to_size offset + 16) % 2 ^ 64) ≡ false
    → region_end blob offset + 16 ≤ 8 + blob.il * 16 + blob.dl
unfolding to_size region_end hdrchk_urange
region_end-inside blob offset h i d o e = ground arith

read_trailer-fault :
    (region_tag : ℕ) (exact_size : Bool) (blob : Blob) (bytes : Bytes)
    → read_trailer region_tag exact_size blob (some bytes) ≢ fault
unfolding read_trailer verify_trailer
read_trailer-fault region_tag exact_size blob bytes e = ground arith

verify_region_entry-fault :
    (uh : Bytes) (region_tag : ℕ) (exact_size : Bool) (blob : Blob) (einfo : EntryInfo)
    → 1 ≤ blob.il
    → blob.il < 2 ^ 16
    → blob.dl < 2 ^ 28
    → 8 + blob.il * 16 + blob.dl ≤ length uh
    → einfo.offset < 2 ^ 32
    → verify_region_entry uh region_tag exact_size blob einfo ≢ fault
unfolding verify_region_entry
verify_region_entry-fault uh region_tag exact_size blob einfo h i d l o e =
    elim (Bool-cases (hdrchk_urange blob.dl ((to_size einfo.offset + 16) % 2 ^ 64))) [
      | inl r ↦ absurd (ground arith)
      | inr r ↦
          let inside = region_end-inside blob einfo.offset h i d o r in
          let reading = read_bytes-inside uh (region_end blob einfo.offset) 16 (omega arith) in
          ground (
            arith,
            reading,
            read_trailer-fault (region_of region_tag einfo.tag) exact_size
                (record blob { rdl = (to_size einfo.offset + 16) % 2 ^ 64 % 2 ^ 32 })
                (take 16 (drop (region_end blob einfo.offset) uh)),
          )
    ]

-- Where an entry's offset has passed the tests, its data start inside.
start-inside :
    (tag_type : ℕ → ℕ) (blob : Blob) (end : ℕ) (info : EntryInfo)
    → length blob.data_bytes ≡ blob.dl
    → is_refused tag_type blob end info ≡ false
    → ltb (length blob.data_bytes) info.offset ≡ false
unfolding is_refused hdrchk_range
start-inside tag_type blob end info h r = ground arith

reads_outside-never :
    (tag_type : ℕ → ℕ) (blob : Blob) (end : ℕ) (infos : List EntryInfo)
    → length blob.data_bytes ≡ blob.dl
    → reads_outside tag_type blob end infos ≡ false
unfolding reads_outside
reads_outside-never tag_type blob end [] h = refl
reads_outside-never tag_type blob end (info ∷ rest) h =
    elim (Bool-cases (is_refused tag_type blob end info)) [
      | inl r ↦ rw (reads_outside, r) refl
      | inr r ↦
          let inside : ltb (length blob.data_bytes) info.offset ≡ false =
            start-inside tag_type blob end info h r in
          elim (Option-cases (check_entry tag_type blob end info)) [
            | inl c ↦ rw (reads_outside, r, inside, c) refl
            | inr (end', c) ↦
                rw (reads_outside, r, inside, c) (reads_outside-never tag_type blob end' rest h)
          ]
    ]

-- What `hdrblobInit` makes of the blob that the verification of the region leaves.
verify_data-fault :
    (tag_type : ℕ → ℕ) (blob : Blob)
    → length blob.data_bytes ≡ blob.dl
    → verify_data tag_type blob ≢ fault
unfolding verify_data
verify_data-fault tag_type blob h e =
    ground (arith, reads_outside-never tag_type blob 0 (behind_region blob) h)

verify_rest-fault :
    (tag_type : ℕ → ℕ) (o : Outcome)
    → o ≢ fault
    → ((b : Blob) → (o ≡ ok b) ⊎ (o ≡ not_found b) → length b.data_bytes ≡ b.dl)
    → verify_rest tag_type o ≢ fault
unfolding verify_rest
verify_rest-fault tag_type fault h k e = h refl
verify_rest-fault tag_type failed h k e = ground arith
verify_rest-fault tag_type (not_found blob) h k e =
    verify_data-fault tag_type blob (k blob (inr refl)) e
verify_rest-fault tag_type (ok blob) h k e = verify_data-fault tag_type blob (k blob (inl refl)) e

ei2h-offset : (bytes : Bytes) → AreBytes bytes → (ei2h bytes).offset < 2 ^ 32
unfolding ei2h
ei2h-offset bytes h = ntohl_at-lt bytes 8 h

verify_region-fault :
    (uh : Bytes) (region_tag : ℕ) (exact_size : Bool) (il dl : ℕ)
    → AreBytes uh
    → il < 2 ^ 16
    → dl < 2 ^ 28
    → 8 + il * 16 + dl ≤ length uh
    → hdrblob_verify_region uh region_tag exact_size (new_blob il dl uh) ≢ fault
unfolding hdrblob_verify_region new_blob read_index
verify_region-fault uh region_tag exact_size zero dl b i d l e = ground arith
verify_region-fault uh region_tag exact_size (suc n) dl b i d l e =
    let bytes = take 16 (drop 8 uh) in
    verify_region_entry-fault uh region_tag exact_size (new_blob (suc n) dl uh) (ei2h bytes)
      (omega arith) i d l
      (ei2h-offset bytes (All-take (λ b. b < 256) 16 (drop 8 uh) (All-drop (λ b. b < 256) 8 uh b)))
      e

pub lengths_bound :
    (region_tag il dl : ℕ)
    → hdrblob_verify_lengths region_tag il dl ≡ false
    → (il < 2 ^ 16) × (dl < 2 ^ 28)
unfolding hdrblob_verify_lengths hdrchk_urange
lengths_bound region_tag il dl e = ground arith

init_lengths-fault :
    (tag_type : ℕ → ℕ) (uh : Bytes) (uc region_tag : ℕ) (exact_size : Bool) (il dl : ℕ)
    → AreBytes uh
    → uc ≢ 0
    → uc ≤ length uh
    → init_lengths tag_type uh uc region_tag exact_size il dl ≢ fault
unfolding init_lengths
init_lengths-fault tag_type uh uc region_tag exact_size il dl b n l e =
    elim (Bool-cases (hdrblob_verify_lengths region_tag il dl)) [
      | inl r ↦ absurd (ground arith)
      | inr r ↦
          let (i, d) = lengths_bound region_tag il dl r in
          let region = hdrblob_verify_region uh region_tag exact_size (new_blob il dl uh) in
          elim (Bool-cases (ltb (length uh) (8 + il * 16 + dl))) [
            | inl s ↦ absurd (ground arith)
            | inr s ↦ ground (
              arith,
              verify_rest-fault tag_type region
                  (verify_region-fault uh region_tag exact_size il dl b i d (ground arith))
                  (λ v f.
                    (verified-IsSized il dl uh exact_size v d (ground arith) (
                      region-IsVerified uh region_tag exact_size (new_blob il dl uh) v
                        (unfold new_blob in refl) (unfold new_blob in refl) f)).data_length_lem),
            )
          ]
    ]

-- hdrblobInit reads nothing outside of the `uc` bytes of the header, whatever stands in them, where
-- their number is given: also the trailer of the region, whose offset is not tested for its sign, is
-- read inside, and no entry's data is read from a start outside of the data.
pub hdrblob_init-ne-fault :
    (tag_type : ℕ → ℕ) (uh : Bytes) (uc region_tag : ℕ) (exact_size : Bool)
    → AreBytes uh
    → uc ≢ 0
    → uc ≤ length uh
    → hdrblob_init tag_type uh uc region_tag exact_size ≢ fault
unfolding hdrblob_init
hdrblob_init-ne-fault tag_type uh uc region_tag exact_size b n l e = elim (Bool-cases (ltb uc 8)) [
  | inl s ↦ absurd (ground arith)
  | inr s ↦
      let intro = take 8 uh in
      let reading : read_bytes uh 0 8 ≡ some intro = read_bytes-inside uh 0 8 (ground arith) in
      ground (
        arith,
        reading,
        init_lengths-fault tag_type uh uc region_tag exact_size (ntohl_at intro 0)
            (ntohl_at intro 4) b n l,
      )
]

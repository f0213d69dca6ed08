-- ===== src/Header/Init/Regions.antt =====
-- The blob behind the verification of its region.
use rpm.Base.{
  ℕ, ◌+◌, ◌*◌, ◌%◌, ◌^◌, ◌≤◌, ◌<◌, ◌≡◌, ◌≢◌, refl, ap, ◌∙◌, Bool, true, Option, none, some, inl,
  inr, List, [], ◌∷◌, length, length-take, length-drop, drop, Bytes, arith, ◌⊎◌,
}
use rpm.Header.{EntryInfo, Blob, hdrchk_urange}
use rpm.Header.Info.Chain.{IsSized}
use rpm.Header.Init.{
  read_bytes, ei2h, not_found, ok, to_size, region_of, verify_trailer, read_trailer, region_end,
  verify_region_entry, hdrblob_verify_region, new_blob,
}

List-cases {ℓ} : {A : Type ℓ} (l : List A) → (l ≡ []) ⊎ ((x : A) × (xs : List A) × (l ≡ x ∷ xs))
List-cases [] = inl refl
List-cases (x ∷ xs) = inr (x, xs, refl)

-- What the verification of the region says of the lengths.
pub record HasRegion (exact_size : Bool) (blob : Blob) : Type 0 where
  pub ril_bound : blob.ril ≤ blob.il
  pub rdl_bound : blob.rdl ≤ blob.dl
  pub exact : exact_size ≡ true → (blob.ril ≡ blob.il) × (blob.rdl ≡ blob.dl)

-- The parts of the blob that the verification of the region leaves as they are.
pub record IsSame (a b : Blob) : Type 0 where
  pub il_same : b.il ≡ a.il
  pub dl_same : b.dl ≡ a.dl
  pub pvlen_same : b.pvlen ≡ a.pvlen
  pub pe_same : b.pe ≡ a.pe
  pub data_same : b.data_bytes ≡ a.data_bytes

verify_trailer-ok :
    (region_tag : ℕ) (exact_size : Bool) (blob b : Blob) (trailer : EntryInfo)
    → verify_trailer region_tag exact_size blob trailer ≡ ok b
    → IsSame blob b × HasRegion exact_size b
unfolding verify_trailer hdrchk_urange
verify_trailer-ok region_tag exact_size blob b trailer e = (
  record {
    il_same = ground arith;
    dl_same = ground arith;
    pvlen_same = ground arith;
    pe_same = ground arith;
    data_same = ground arith;
  },
  record { ril_bound = ground arith; rdl_bound = ground arith; exact = λ x. ground arith },
)

read_trailer-ok :
    (region_tag : ℕ) (exact_size : Bool) (blob b : Blob) (o : Option Bytes)
    → read_trailer region_tag exact_size blob o ≡ ok b
    → IsSame blob b × HasRegion exact_size b
unfolding read_trailer
read_trailer-ok region_tag exact_size blob b none e = absurd (ground arith)
read_trailer-ok region_tag exact_size blob b (some bytes) e =
    verify_trailer-ok region_tag exact_size blob b (ei2h bytes) e

verify_region_entry-ok :
    (uh : Bytes) (region_tag : ℕ) (exact_size : Bool) (blob b : Blob) (einfo : EntryInfo)
    → verify_region_entry uh region_tag exact_size blob einfo ≡ ok b
    → IsSame blob b × HasRegion exact_size b
unfolding verify_region_entry
verify_region_entry-ok uh region_tag exact_size blob b einfo e =
    let end = (to_size einfo.offset + 16) % 2 ^ 64 in
    let blob' = record blob { rdl = end % 2 ^ 32 } in
    let (same, region) =
      read_trailer-ok (region_of region_tag einfo.tag) exact_size blob' b
        (read_bytes uh (region_end blob einfo.offset) 16) (ground arith) in
    (
      record {
        il_same = same.il_same;
        dl_same = same.dl_same;
        pvlen_same = same.pvlen_same;
        pe_same = same.pe_same;
        data_same = same.data_same;
      },
      region,
    )

read_trailer-not_found :
    (region_tag : ℕ) (exact_size : Bool) (blob b : Blob) (o : Option Bytes)
    → read_trailer region_tag exact_size blob o ≢ not_found b
unfolding read_trailer verify_trailer
read_trailer-not_found region_tag exact_size blob b none e = ground arith
read_trailer-not_found region_tag exact_size blob b (some bytes) e = ground arith

verify_region_entry-not_found :
    (uh : Bytes) (region_tag : ℕ) (exact_size : Bool) (blob b : Blob) (einfo : EntryInfo)
    → verify_region_entry uh region_tag exact_size blob einfo ≡ not_found b
    → b ≡ blob
unfolding verify_region_entry
verify_region_entry-not_found uh region_tag exact_size blob b einfo e = ground (
  arith,
  read_trailer-not_found (region_of region_tag einfo.tag) exact_size
      (record blob { rdl = (to_size einfo.offset + 16) % 2 ^ 64 % 2 ^ 32 }) b
      (read_bytes uh (region_end blob einfo.offset) 16),
)

-- The verified blob is the one that was read, with or without a region.
pub record IsVerified (exact_size : Bool) (blob b : Blob) : Type 0 where
  pub same : IsSame blob b
  pub rdl_fits : b.rdl ≤ b.dl
  pub region : b.region_tag ≢ 0 → HasRegion exact_size b

pub region-IsVerified :
    (uh : Bytes) (region_tag : ℕ) (exact_size : Bool) (blob b : Blob)
    → blob.region_tag ≡ 0
    → blob.rdl ≡ 0
    → (hdrblob_verify_region uh region_tag exact_size blob ≡ ok b)
      ⊎ (hdrblob_verify_region uh region_tag exact_size blob ≡ not_found b)
    → IsVerified exact_size blob b
unfolding hdrblob_verify_region
region-IsVerified uh region_tag exact_size blob b n z h = elim (List-cases blob.pe) [
  | inl empty ↦ absurd (ground arith)
  | inr (einfo, rest, some_entry) ↦ elim h [
    | inl e ↦
        let (same, region) =
          verify_region_entry-ok uh region_tag exact_size blob b einfo
            (rw (hdrblob_verify_region, some_entry) at e) in
        record { same = same; rdl_fits = region.rdl_bound; region = λ x. region }
    | inr e ↦
        let same =
          verify_region_entry-not_found uh region_tag exact_size blob b einfo
            (rw (hdrblob_verify_region, some_entry) at e) in
        record {
          same = record {
            il_same = ap (λ x. x.il) same;
            dl_same = ap (λ x. x.dl) same;
            pvlen_same = ap (λ x. x.pvlen) same;
            pe_same = ap (λ x. x.pe) same;
            data_same = ap (λ x. x.data_bytes) same;
          };
          rdl_fits = omega (arith, z, ap (λ x. x.rdl) same);
          region = λ x. absurd (x (ap (λ x. x.region_tag) same ∙ n));
        }
  ]
]

pub verified-IsSized :
    (il dl : ℕ) (uh : Bytes) (exact_size : Bool) (b : Blob)
    → dl < 2 ^ 28
    → 8 + il * 16 + dl ≤ length uh
    → IsVerified exact_size (new_blob il dl uh) b
    → IsSized b
unfolding new_blob
verified-IsSized il dl uh exact_size b d l v =
    let s = v.same in
    let behind = drop (8 + il * 16) uh in
    record {
      dl_bound = omega (arith, s.dl_same);
      rdl_bound = omega (arith, s.dl_same, v.rdl_fits);
      data_length_lem =
          ap length s.data_same
          ∙ omega (
            arith,
            length-take dl behind (omega (arith, length-drop (8 + il * 16) uh)),
            s.dl_same,
          );
    }

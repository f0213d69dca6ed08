-- ===== src/Header/Init/Accepts.antt =====
-- What holds of a header that `hdrblobInit` accepts.
use rpm.Base.{
  ℕ, ◌+◌, ◌*◌, ◌^◌, ◌≤◌, ◌<◌, ◌≡◌, ◌≢◌, refl, sym, ap, ◌∙◌, Bool, false, Option-cases, inl, inr,
  length, take, drop, Bytes, arith, ◌⊎◌,
}
use rpm.Header.{Blob}
use rpm.Header.Info.{hdrblob_verify_info, behind_region}
use rpm.Header.Info.Chain.{IsChain, hdrblob_verify_info_iff}
use rpm.Header.Init.Reads.{lengths_bound}
use rpm.Header.Init.Regions.{HasRegion, IsVerified, region-IsVerified, verified-IsSized}
use rpm.Header.Init.{
  read_bytes, ntohl_at, read_index, Outcome, fault, failed, not_found, ok, hdrblob_verify_lengths,
  hdrblob_verify_region, verify_rest, verify_data, new_blob, init_lengths, hdrblob_init,
}

verify_data-ok :
    (tag_type : ℕ → ℕ) (blob b : Blob)
    → verify_data tag_type blob ≡ ok b
    → (blob ≡ b) × (hdrblob_verify_info tag_type blob ≡ 0)
unfolding verify_data
verify_data-ok tag_type blob b e = (ground arith, ground arith)

verify_rest-ok :
    (tag_type : ℕ → ℕ) (o : Outcome) (b : Blob)
    → verify_rest tag_type o ≡ ok b
    → ((o ≡ ok b) ⊎ (o ≡ not_found b)) × (hdrblob_verify_info tag_type b ≡ 0)
unfolding verify_rest
verify_rest-ok tag_type fault b e = absurd (ground arith)
verify_rest-ok tag_type failed b e = absurd (ground arith)
verify_rest-ok tag_type (not_found blob) b e =
    let (same, accepted) = verify_data-ok tag_type blob b e in
    (inr (ap not_found same), ap (hdrblob_verify_info tag_type) (sym same) ∙ accepted)
verify_rest-ok tag_type (ok blob) b e =
    let (same, accepted) = verify_data-ok tag_type blob b e in
    (inl (ap ok same), ap (hdrblob_verify_info tag_type) (sym same) ∙ accepted)

-- A header that was accepted, of `uc` bytes if that is not 0.
pub record IsAccepted (tag_type : ℕ → ℕ) (uh : Bytes) (uc : ℕ) (exact_size : Bool) (blob : Blob)
    : Type 0 where
  pub il_bound : blob.il < 2 ^ 16
  pub dl_bound : blob.dl < 2 ^ 28
  pub length_is : blob.pvlen ≡ 8 + blob.il * 16 + blob.dl
  pub whole : uc ≢ 0 → blob.pvlen ≡ uc
  pub inside : blob.pvlen ≤ length uh
  pub index_is : blob.pe ≡ read_index blob.il (drop 8 uh)
  pub data_is : blob.data_bytes ≡ take blob.dl (drop (8 + blob.il * 16) uh)
  pub region : blob.region_tag ≢ 0 → HasRegion exact_size blob
  pub last : ℕ
  pub chain : IsChain tag_type blob 0 (behind_region blob) last

init_lengths-ok :
    (tag_type : ℕ → ℕ) (uh : Bytes) (uc region_tag : ℕ) (exact_size : Bool) (il dl : ℕ) (b : Blob)
    → init_lengths tag_type uh uc region_tag exact_size il dl ≡ ok b
    → (hdrblob_verify_lengths region_tag il dl ≡ false)
      × (uc ≢ 0 → 8 + il * 16 + dl ≡ uc)
      × (8 + il * 16 + dl ≤ length uh)
      × (verify_rest tag_type (hdrblob_verify_region uh region_tag exact_size (new_blob il dl uh))
          ≡ ok b)
unfolding init_lengths
init_lengths-ok tag_type uh uc region_tag exact_size il dl b e = ground arith

init_lengths-IsAccepted :
    (tag_type : ℕ → ℕ) (uh : Bytes) (uc region_tag : ℕ) (exact_size : Bool) (il dl : ℕ) (b : Blob)
    → init_lengths tag_type uh uc region_tag exact_size il dl ≡ ok b
    → IsAccepted tag_type uh uc exact_size b
unfolding new_blob
init_lengths-IsAccepted tag_type uh uc region_tag exact_size il dl b e =
    let (lengths, whole, inside, rest) =
      init_lengths-ok tag_type uh uc region_tag exact_size il dl b e in
    let (i, d) = lengths_bound region_tag il dl lengths in
    let (found, info) =
      verify_rest-ok tag_type (hdrblob_verify_region uh region_tag exact_size (new_blob il dl uh)) b
        rest in
    let v : IsVerified exact_size (new_blob il dl uh) b =
      region-IsVerified uh region_tag exact_size (new_blob il dl uh) b refl refl found in
    let s = v.same in
    let chain =
      (hdrblob_verify_info_iff tag_type b (verified-IsSized il dl uh exact_size b d inside v)).0
        info in
    record {
      il_bound = omega (arith, s.il_same);
      dl_bound = omega (arith, s.dl_same);
      length_is = omega (arith, s.il_same, s.dl_same, s.pvlen_same);
      whole = λ n. omega (arith, s.pvlen_same, whole n);
      inside = omega (arith, s.pvlen_same);
      index_is = s.pe_same ∙ ap (λ n. read_index n (drop 8 uh)) (sym s.il_same);
      data_is = rw (s.il_same, s.dl_same) s.data_same;
      region = v.region;
      last = chain.0;
      chain = chain.1;
    }

-- A header that hdrblobInit accepts has at most 2 ^ 16 - 1 entries and less than 2 ^ 28 bytes of
-- data, and with its two lengths exactly the `uc` bytes that were asked for; the blob has the
-- entries and the data that stand there. A region has no more entries and bytes than the header, and
-- as many where the exact size is asked for. The entries behind the region's form a chain.
pub hdrblob_init-IsAccepted :
    (tag_type : ℕ → ℕ) (uh : Bytes) (uc region_tag : ℕ) (exact_size : Bool) (b : Blob)
    → hdrblob_init tag_type uh uc region_tag exact_size ≡ ok b
    → IsAccepted tag_type uh uc exact_size b
unfolding hdrblob_init
hdrblob_init-IsAccepted tag_type uh uc region_tag exact_size b e =
    elim (Option-cases (read_bytes uh 0 8)) [
      | inl o ↦ absurd (ground arith)
      | inr (intro, o) ↦
          init_lengths-IsAccepted tag_type uh uc region_tag exact_size (ntohl_at intro 0)
            (ntohl_at intro 4) b (ground arith)
    ]

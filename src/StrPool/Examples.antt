-- ===== src/StrPool/Examples.antt =====
-- A new pool, the string "a" in it, and the pool frozen and thawed.
use rpm.Base.{◌⊎◌, Bool, false, none, ℕ, ◌≡◌, ◌<◌, refl, true, some, [], ◌∷◌, Bytes, arith, strcmp}
use rpm.StrPool.{
  Pool, set_bucket, slot, rstrhash, rpmstr_pool_create, rpmstr_pool_rehash, rehash_loop, size_hint,
  pool_hash_create, no_buckets, fresh, rpmstr_pool_id, strn2id, pool_get, get_loop, probe, id2str,
  is_text, rpmstr_pool_put, with_id, pool_hash_add_h_entry, add_sized, add_loop, add_found, got,
  hash_loop, hash_round, add_char, hash_end, rpmstr_pool_str, rpmstr_pool_freeze,
  rpmstr_pool_unfreeze,
}
use rpm.StrPool.Adding.{IsPool}
use rpm.StrPool.Rehash.{IsThawed, rpmstr_pool_create-IsPool, rpmstr_pool_unfreeze-freeze}
use rpm.StrPool.Interning.{
  IsInterned, rpmstr_pool_id-IsInterned, rpmstr_pool_id-same_iff, rpmstr_pool_id-terminates,
}

abbrev new_pool : Pool
new_pool = record fresh { num_buckets = 1024; has_hash = true }

created : rpmstr_pool_create 0 ≡ some new_pool
unfolding rpmstr_pool_create rpmstr_pool_rehash rehash_loop size_hint pool_hash_create
created = refl

new_pool-IsPool : IsPool 0 new_pool
new_pool-IsPool = (rpmstr_pool_create-IsPool 0 new_pool created).0

abbrev letter : Bytes
letter = 97 ∷ []

abbrev one_pool : Pool
one_pool = record new_pool {
  offs = letter ∷ [];
  buckets = set_bucket no_buckets (slot 1024 (rstrhash letter) 0) 1;
  key_count = 1;
}

added : rpmstr_pool_id 1 new_pool letter true ≡ some (one_pool, 1)
unfolding rpmstr_pool_id strn2id pool_get get_loop probe got rpmstr_pool_put with_id
    pool_hash_add_h_entry add_sized add_loop add_found
added = refl

found : rpmstr_pool_id 1 one_pool letter true ≡ some (one_pool, 1)
unfolding rpmstr_pool_id strn2id pool_get get_loop probe got id2str is_text slot set_bucket rstrhash
    hash_loop hash_round add_char hash_end strcmp
found = refl

rpmstr_pool_id-IsInterned_example : IsInterned new_pool letter true 1 one_pool
rpmstr_pool_id-IsInterned_example =
    rpmstr_pool_id-IsInterned 1 new_pool one_pool letter true 1 new_pool-IsPool (omega arith) added

one_pool-IsPool : IsPool 1 one_pool
one_pool-IsPool =
    (rpmstr_pool_id-IsInterned 1 new_pool one_pool letter true 1 new_pool-IsPool (omega arith)
      added).is_pool

rpmstr_pool_id-same_iff_example :
    (◌≡◌ {A = ℕ} 1 1 → letter ≡ letter) × (letter ≡ letter → ◌≡◌ {A = ℕ} 1 1)
rpmstr_pool_id-same_iff_example =
    rpmstr_pool_id-same_iff 1 1 new_pool one_pool one_pool letter letter true true 1 1
      new_pool-IsPool (omega arith) (omega arith) added found (λ e. omega arith) (λ e. omega arith)

letter_named : rpmstr_pool_str one_pool 1 ≡ some letter
unfolding rpmstr_pool_str id2str
letter_named = refl

rpmstr_pool_id-terminates_example :
    (least : ℕ) × ((fuel : ℕ)
      → least < fuel
      → rpmstr_pool_id fuel one_pool letter true ≡ some (one_pool, 1))
rpmstr_pool_id-terminates_example =
    rpmstr_pool_id-terminates one_pool letter true 1 one_pool-IsPool letter_named

-- The table is thrown away and built again.
rpmstr_pool_unfreeze-freeze_example :
    ((to : Pool) × (rpmstr_pool_unfreeze 1 (rpmstr_pool_freeze one_pool false) ≡ some to)
      × IsThawed one_pool to)
    ⊎ ((rpmstr_pool_unfreeze 1 (rpmstr_pool_freeze one_pool false) ≡ none)
        × (◌≡◌ {A = Bool} false false))
rpmstr_pool_unfreeze-freeze_example =
    rpmstr_pool_unfreeze-freeze 1 one_pool false one_pool-IsPool (omega arith)

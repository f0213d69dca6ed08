-- ===== src/StrPool.antt =====
-- rpmio/rpmstrpool.cc: the pool that gives each string a number. The strings are a list, the first
-- has the number 1; the buckets of the hash table are a function of their index. The chunks of memory
-- that hold the strings, the locks and the reference count are not modelled. A loop over the probes
-- of a hash has no end of its own: it runs on fuel, and `none` is for more probes than that.
pub mod Probes
pub mod Table
pub mod Ids
pub mod Resize
pub mod Lookup
pub mod Adding
pub mod Longer
pub mod Rehash
pub mod Interning
mod Examples
use Prim.Native.Nat.{bit_xor}
use rpm.Base.{
  ℕ, zero, suc, ◌+◌, ◌-◌, ◌*◌, ◌/◌, ◌%◌, ◌^◌, Bool, true, false, not, ◌&&◌, ◌||◌, Option, none,
  some, List, [], ◌∷◌, ◌++◌, ◌==◌, ltb, leb, length, take, get_elem?, Bytes, strcmp, Ordering,
  if◌then◌else◌,
}

-- `hash += *s` with a signed char
pub add_char : ℕ → ℕ → ℕ
add_char hash c = (hash + (if ltb c 128 then c else c + 2 ^ 32 - 256)) % 2 ^ 32

pub hash_round : ℕ → ℕ → ℕ
unfolding add_char
hash_round hash c =
    let added = add_char hash c in
    let shifted = (added + added * 2 ^ 10 % 2 ^ 32) % 2 ^ 32 in bit_xor shifted (shifted / 2 ^ 6)

pub hash_end : ℕ → ℕ
hash_end hash =
    let a = (hash + hash * 2 ^ 3 % 2 ^ 32) % 2 ^ 32 in
    let b = bit_xor a (a / 2 ^ 11) in (b + b * 2 ^ 15 % 2 ^ 32) % 2 ^ 32

pub hash_loop : ℕ → Bytes → ℕ
hash_loop hash [] = hash
hash_loop hash (c ∷ s) = hash_loop (hash_round hash c) s

-- `rstrhash`
pub rstrhash : Bytes → ℕ
rstrhash s = hash_end (hash_loop 0xe4721b68 s)

-- The loop of `rstrnlenhash`.
pub hash_n_loop : ℕ → Bytes → ℕ → ℕ
hash_n_loop hash [] n = hash
hash_n_loop hash (c ∷ s) zero = hash
hash_n_loop hash (c ∷ s) (suc n) = hash_n_loop (hash_round hash c) s n

-- `rstrnhash`
pub rstrnhash : Bytes → ℕ → ℕ
rstrnhash s n = hash_end (hash_n_loop 0xe4721b68 s n)

-- `struct rpmstrPool_s` with its `struct poolHash_s`, which is not there after a freeze.
pub record Pool : Type 0 where
  pub offs : List Bytes
  pub num_buckets : ℕ
  pub buckets : ℕ → ℕ
  pub key_count : ℕ
  pub has_hash : Bool
  pub frozen : Bool

-- `id2str`
pub id2str : List Bytes → ℕ → Option Bytes
id2str offs zero = none
id2str offs (suc i) = get_elem? offs i

-- `hashbucket(hash, i) % numBuckets`
pub slot : ℕ → ℕ → ℕ → ℕ
slot num_buckets hash i = (hash + i * i) % 2 ^ 32 % num_buckets

-- `strcmp(id2str(…), key) == 0`
pub is_text : Option Bytes → Bytes → Bool
is_text none key = false
is_text (some s) key = elim (strcmp s key) [ Ordering.eq ↦ true | _ ↦ false ]

-- What the probe `i` meets.
pub data Probe : Type 0 where
  empty : Probe
  same : ℕ → Probe
  other : Probe

pub probe : List Bytes → ℕ → (ℕ → ℕ) → Bytes → ℕ → ℕ → Probe
unfolding slot is_text
probe offs num_buckets buckets key hash i =
    let id = buckets (slot num_buckets hash i) in
    if id == 0 then empty else if is_text (id2str offs id) key then same id else other

-- `rpmstrPoolGet`, with the probe as an argument.
pub get_loop : (ℕ → Probe) → ℕ → ℕ → Option ℕ
get_loop p zero i = none
get_loop p (suc fuel) i = elim (p i) [
  | empty ↦ some 0
  | same id ↦ some id
  | other ↦ get_loop p fuel (i + 1)
]

-- `rpmstrPoolGet`
pub pool_get : ℕ → Pool → Bytes → ℕ → Option ℕ
pool_get fuel pool key hash =
    get_loop (probe pool.offs pool.num_buckets pool.buckets key hash) fuel 0

-- The loop of `poolHashResize` for one key: the first empty bucket.
pub place_loop : ℕ → (ℕ → ℕ) → ℕ → ℕ → ℕ → Option ℕ
place_loop num_buckets buckets hash zero i = none
place_loop num_buckets buckets hash (suc fuel) i = elim (buckets (slot num_buckets hash i) == 0) [
  | true ↦ some (slot num_buckets hash i)
  | false ↦ place_loop num_buckets buckets hash fuel (i + 1)
]

pub set_bucket : (ℕ → ℕ) → ℕ → ℕ → ℕ → ℕ
set_bucket buckets at id j = if j == at then id else buckets j

pub fill : (ℕ → ℕ) → ℕ → Option ℕ → Option (ℕ → ℕ)
fill buckets id none = none
fill buckets id (some at) = some (set_bucket buckets at id)

pub text_hash : Option Bytes → ℕ
text_hash none = 0
text_hash (some s) = rstrhash s

-- `poolHashResize`: the buckets of the old table from `i` on, `left` of them.
pub resize_loop : ℕ → List Bytes → ℕ → (ℕ → ℕ) → ℕ → ℕ → Option (ℕ → ℕ) → Option (ℕ → ℕ)
resize_loop fuel offs size old zero i new = new
resize_loop fuel offs size old (suc left) i none = none
resize_loop fuel offs size old (suc left) i (some new) =
    resize_loop fuel offs size old left (i + 1) (
      if old i == 0
      then some new
      else fill new (old i) (place_loop size new (text_hash (id2str offs (old i))) fuel 0))

abbrev pub no_buckets : ℕ → ℕ
no_buckets j = 0

pub with_buckets : Pool → ℕ → Option (ℕ → ℕ) → Option Pool
with_buckets pool size none = none
with_buckets pool size (some buckets) = some (record pool { num_buckets = size; buckets = buckets })

pub pool_hash_resize : ℕ → Pool → ℕ → Option Pool
pool_hash_resize fuel pool size =
    with_buckets pool size
      (resize_loop fuel pool.offs size pool.buckets pool.num_buckets 0 (some no_buckets))

-- The loop of `poolHashAddHEntry`: the bucket to fill, or none where the key is there already.
pub add_loop : (ℕ → Probe) → (ℕ → ℕ) → ℕ → ℕ → Option (Option ℕ)
add_loop p at zero i = none
add_loop p at (suc fuel) i = elim (p i) [
  | empty ↦ some (some (at i))
  | same id ↦ some none
  | other ↦ add_loop p at fuel (i + 1)
]

pub add_found : Pool → ℕ → Option (Option ℕ) → Option Pool
add_found pool id none = none
add_found pool id (some none) = some pool
add_found pool id (some (some at)) = some (record pool {
  buckets = set_bucket pool.buckets at id;
  key_count = (pool.key_count + 1) % 2 ^ 32;
})

pub add_sized : ℕ → Option Pool → Bytes → ℕ → ℕ → Option Pool
add_sized fuel none key hash id = none
add_sized fuel (some pool) key hash id = add_found pool id (
    add_loop (probe pool.offs pool.num_buckets pool.buckets key hash) (slot pool.num_buckets hash)
      fuel 0)

-- `poolHashAddHEntry`
pub pool_hash_add_h_entry : ℕ → Pool → Bytes → ℕ → ℕ → Option Pool
pool_hash_add_h_entry fuel pool key hash id =
    add_sized fuel
      (if ltb pool.num_buckets (2 * pool.key_count % 2 ^ 32)
        then pool_hash_resize fuel pool (pool.num_buckets * 2 % 2 ^ 32)
        else some pool)
      key hash id

pub with_id : ℕ → Option Pool → Option (Pool × ℕ)
with_id id none = none
with_id id (some pool) = some (pool, id)

-- `rpmstrPoolPut`
pub rpmstr_pool_put : ℕ → Pool → Bytes → ℕ → Option (Pool × ℕ)
rpmstr_pool_put fuel pool s hash =
    let id = (length pool.offs + 1) % 2 ^ 32 in
    with_id id (pool_hash_add_h_entry fuel (record pool { offs = pool.offs ++ s ∷ [] }) s hash id)

pub got : ℕ → Pool → Bytes → ℕ → Bool → Option ℕ → Option (Pool × ℕ)
got fuel pool s hash create none = none
got fuel pool s hash create (some sid) =
    if sid == 0 && create && not pool.frozen
    then rpmstr_pool_put fuel pool s hash
    else some (pool, sid)

-- `strn2id`
pub strn2id : ℕ → Pool → Bytes → ℕ → Bool → Option (Pool × ℕ)
strn2id fuel pool s hash create =
    if pool.has_hash
    then got fuel pool s hash create (pool_get fuel pool s hash)
    else some (pool, 0)

-- `rpmstrPoolId`
pub rpmstr_pool_id : ℕ → Pool → Bytes → Bool → Option (Pool × ℕ)
rpmstr_pool_id fuel pool s create = strn2id fuel pool s (rstrhash s) create

-- `rpmstrPoolIdn`, for a length within the string.
pub rpmstr_pool_idn : ℕ → Pool → Bytes → ℕ → Bool → Option (Pool × ℕ)
rpmstr_pool_idn fuel pool s slen create = strn2id fuel pool (take slen s) (rstrnhash s slen) create

-- `rpmstrPoolStr`
pub rpmstr_pool_str : Pool → ℕ → Option Bytes
rpmstr_pool_str pool sid = id2str pool.offs sid

-- `poolHashAddEntry`
pub pool_hash_add_entry : ℕ → Pool → Bytes → ℕ → Option Pool
pool_hash_add_entry fuel pool key id = pool_hash_add_h_entry fuel pool key (rstrhash key) id

pub add_text : ℕ → Pool → Option Bytes → ℕ → Option Pool
add_text fuel pool none id = none
add_text fuel pool (some key) id = pool_hash_add_entry fuel pool key id

-- The loop of `rpmstrPoolRehash` from the number `id` on, `left` of them.
pub rehash_loop : ℕ → ℕ → ℕ → Option Pool → Option Pool
rehash_loop fuel zero id pool = pool
rehash_loop fuel (suc left) id none = none
rehash_loop fuel (suc left) id (some pool) =
    rehash_loop fuel left (id + 1) (add_text fuel pool (id2str pool.offs id) id)

pub size_hint : ℕ → ℕ
size_hint offs_size = if ltb offs_size 1024 then 1024 else offs_size * 2 % 2 ^ 32

-- `poolHashCreate`
pub pool_hash_create : Pool → ℕ → Pool
pool_hash_create pool size = record pool {
  num_buckets = size;
  buckets = no_buckets;
  key_count = 0;
  has_hash = true;
}

-- `rpmstrPoolRehash`
pub rpmstr_pool_rehash : ℕ → Pool → Option Pool
rpmstr_pool_rehash fuel pool =
    rehash_loop fuel (length pool.offs) 1
      (some (pool_hash_create pool (size_hint (length pool.offs))))

-- The pool of `rpmstrPoolCreate`, before its table.
abbrev pub fresh : Pool
fresh = record {
  offs = [];
  num_buckets = 0;
  buckets = no_buckets;
  key_count = 0;
  has_hash = false;
  frozen = false;
}

-- `rpmstrPoolCreate`
pub rpmstr_pool_create : ℕ → Option Pool
rpmstr_pool_create fuel = rpmstr_pool_rehash fuel fresh

-- `rpmstrPoolFreeze`
pub rpmstr_pool_freeze : Pool → Bool → Pool
rpmstr_pool_freeze pool keephash =
    if pool.frozen
    then pool
    else record pool { has_hash = pool.has_hash && keephash; frozen = true }

pub unfrozen : Option Pool → Option Pool
unfrozen none = none
unfrozen (some pool) = some (record pool { frozen = false })

-- `rpmstrPoolUnfreeze`
pub rpmstr_pool_unfreeze : ℕ → Pool → Option Pool
rpmstr_pool_unfreeze fuel pool =
    unfrozen (if pool.has_hash then some pool else rpmstr_pool_rehash fuel pool)

-- ===== src/Header.antt =====
-- lib/header.cc: the checks of the entries of a header's index. Sizes and offsets are the bits of
-- their 32 or 64 bit numbers: an `int32_t` is negative from 2 ^ 31 on. A position that must be
-- divisible by the power of two that is its alignment is tested by `%`.
pub mod Lengths
pub mod Info
pub mod Init
mod Examples
use rpm.Base.{
  ℕ, zero, suc, ◌+◌, ◌-◌, ◌*◌, ◌%◌, ◌^◌, Bool, true, false, not, ◌&&◌, ◌||◌, Option, none, some,
  List, [], ◌∷◌, ◌==◌, ltb, leb, length, take, drop, Bytes, if◌then◌else◌,
}

-- `struct entryInfo_s`, in the order of the host.
pub record EntryInfo : Type 0 where
  pub tag : ℕ
  pub type : ℕ
  pub offset : ℕ
  pub count : ℕ

abbrev pub char_type : ℕ
char_type = 1

abbrev pub string_type : ℕ
string_type = 6

abbrev pub bin_type : ℕ
bin_type = 7

abbrev pub string_array_type : ℕ
string_array_type = 8

abbrev pub i18nstring_type : ℕ
i18nstring_type = 9

abbrev pub header_image : ℕ
header_image = 61

abbrev pub header_signatures : ℕ
header_signatures = 62

abbrev pub header_immutable : ℕ
header_immutable = 63

abbrev pub header_i18ntable : ℕ
header_i18ntable = 100

-- `typeAlign`, for the types that `hdrchkType` lets through.
pub type_align : ℕ → ℕ
type_align type = if type == 3 then 2 else if type == 4 then 4 else if type == 5 then 8 else 1

-- `typeSizes`, for the types that have a size.
pub type_size : ℕ → ℕ
type_size type =
    if type == 0
    then 0
    else if type == 3
    then 2
    else if type == 4
    then 4
    else if type == 5
    then 8
    else if leb 10 type
    then 0
    else 1

-- A value of type `int32_t` that is below 0.
abbrev pub is_negative : ℕ → Bool
is_negative off = leb (2 ^ 31) off

-- The macros `hdrchkTag` to `hdrchkRange`: true is for what is refused.
pub hdrchk_tag : ℕ → Bool
hdrchk_tag tag = ltb tag header_i18ntable

pub hdrchk_count : ℕ → ℕ → Bool
hdrchk_count dl count = ltb count 1 || ltb dl count

pub hdrchk_type : ℕ → Bool
hdrchk_type type = ltb type char_type || ltb i18nstring_type type

pub hdrchk_array : ℕ → ℕ → Bool
hdrchk_array type count = not (type == bin_type) && leb (2 ^ 20) count

pub hdrchk_align : ℕ → ℕ → Bool
unfolding type_align
hdrchk_align type off = not (off % type_align type == 0)

-- For an offset of type `int32_t`, and for one that has no sign.
pub hdrchk_range : ℕ → ℕ → Bool
hdrchk_range dl off = is_negative off || ltb dl off

pub hdrchk_urange : ℕ → ℕ → Bool
hdrchk_urange dl off = ltb dl off

-- `rpmScriptIsProgTag`: the `progtag` of the entries of `scriptInfo` whose `sense` is 0, which is 0
-- for the one of sysusers.
pub prog_tags : List ℕ
prog_tags = 1085 ∷ 1087 ∷ 1086 ∷ 1088 ∷ 1153 ∷ 1154 ∷ 5105 ∷ 5106 ∷ 1091 ∷ 0 ∷ []

pub member : ℕ → List ℕ → Bool
member n [] = false
member n (x ∷ xs) = n == x || member n xs

-- `hdrchkTagType`, with the type that the generated table of tags has, where it has one.
pub hdrchk_tag_type : (ℕ → ℕ) → ℕ → ℕ → Bool
unfolding member prog_tags
hdrchk_tag_type tag_type tag type =
    let t = tag_type tag in
    not (t == type)
    && not (t == 0)
    && not (t == string_array_type && type == string_type && member tag prog_tags)
    && not (type == string_type && t == i18nstring_type)

-- `--c` of an `uint32_t`
pub pred_u32 : ℕ → ℕ
pred_u32 c = (c + 2 ^ 32 - 1) % 2 ^ 32

abbrev pub one_more : Option ℕ → Option ℕ
one_more none = none
one_more (some n) = some (suc n)

-- `strtaglen` with an end, from the bytes before the end.
pub strtaglen : Bytes → ℕ → Option ℕ
unfolding pred_u32
strtaglen [] c = none
strtaglen (b ∷ bs) c =
    let rest = strtaglen bs (if b == 0 then pred_u32 c else c) in
    if b == 0 && pred_u32 c == 0 then some 1 else one_more rest

-- `dataLength` on disk and with an end.
pub data_length : ℕ → Bytes → ℕ → Option ℕ
data_length type bytes count =
    if type == string_type
    then if count == 1 then strtaglen bytes 1 else none
    else if type == string_array_type || type == i18nstring_type
    then strtaglen bytes count
    else let n = type_size (type % 16) * count % 2 ^ 32 in
      if ltb (length bytes) n then none else some n

-- `struct hdrblob_s`: the index is read into `pe`, and `data` is what stands from `dataStart` to
-- `dataEnd`.
pub record Blob : Type 0 where
  pub il : ℕ
  pub dl : ℕ
  pub pvlen : ℕ
  pub region_tag : ℕ
  pub ril : ℕ
  pub rdl : ℕ
  pub pe : List EntryInfo
  pub data_bytes : Bytes

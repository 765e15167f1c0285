-- ===== src/SizeClass/Mi.antt =====
-- unialloc/src/size_class/mi_size_class.rs: size classes by a formula on the bits of the size. The
-- default build does not compile the file.
mod Examples
use uni_alloc.Base.{
  ℕ, zero, suc, ◌+◌, ◌-◌, ◌*◌, ◌/◌, ◌%◌, ◌^◌, ◌≤◌, ◌<◌, ◌≡◌, refl, ap, ◌∙◌, Bool, true, false, ◌&&◌,
  ◌||◌, ltb, leb, ◌==◌, if◌then◌else◌, List, [], ◌∷◌, Option, none, some, get_elem?, length,
  holds_below, test-holds_below, arith, Bool-cases, inl, inr,
}
use uni_alloc.Base.Array.{get_or, get_elem?-get_or}
use uni_alloc.Base.Run.{Run, ok, expect}
use uni_alloc.Base.Words.{sub64, usize_max}
use uni_alloc.SizeClass.{SizeClass, base, large}

abbrev pub max_size : ℕ
max_size = 40960

abbrev pub size_array : List ℕ
size_array =
    8 ∷ 8 ∷ 16 ∷ 24 ∷ 32 ∷ 40 ∷ 48 ∷ 56 ∷ 64 ∷ 80 ∷ 96 ∷ 112 ∷ 128 ∷ 160 ∷ 192 ∷ 224 ∷ 256 ∷ 320
    ∷ 384 ∷ 448 ∷ 512 ∷ 640 ∷ 768 ∷ 896 ∷ 1024 ∷ 1280 ∷ 1536 ∷ 1792 ∷ 2048 ∷ 2560 ∷ 3072 ∷ 3584
    ∷ 4096 ∷ 5120 ∷ 6144 ∷ 7168 ∷ 8192 ∷ 10240 ∷ 12288 ∷ 14336 ∷ 16384 ∷ 20480 ∷ 24576 ∷ 28672
    ∷ 32768 ∷ 40960 ∷ []

-- The number of digits of a word of at most `width` bits, which is `width - leading_zeros`.
unfoldable pub bit_length : ℕ → ℕ → ℕ
bit_length zero x = 0
bit_length (suc width) x = let rest = bit_length width (x / 2) in if x == 0 then 0 else suc rest

-- `(63 - x.leading_zeros()) as u8`; for 0 the difference wraps.
unfoldable pub bsr : ℕ → ℕ
bsr x = (bit_length 64 x + 2 ^ 32 - 1) % 2 ^ 8

unfoldable pub get_num_of_usize : ℕ → ℕ
get_num_of_usize req =
    if ltb (usize_max - 8) req
    then req / 8
    else if req % 8 == 0
    then req / 8
    else (req + 8 - 1) / 8 * 8 / 8

-- `((b << 2) + ((n >> (b - 2)) & 3) as u8) - 3` in bytes.
unfoldable pub idx_of : ℕ → ℕ
idx_of n =
    let b = bsr n in (b * 4 % 2 ^ 8 + n / 2 ^ ((b + 2 ^ 8 - 2) % 2 ^ 8) % 4 + 2 ^ 8 - 3) % 2 ^ 8

unfoldable pub get_idx_by_size : ℕ → ℕ
get_idx_by_size req = idx_of (sub64 (get_num_of_usize req) 1)

unfoldable pub get_size_class : ℕ → SizeClass
get_size_class req =
    if ltb max_size req
    then large req
    else if leb (get_num_of_usize req) 8
    then base (get_num_of_usize req)
    else base (idx_of (get_num_of_usize req - 1))

unfoldable pub get_rounded_size_by_idx : ℕ → Run ℕ
get_rounded_size_by_idx idx = expect (get_elem? size_array idx)

-- The class of `n` words, for `n` from 1.
abbrev class_of : ℕ → ℕ
class_of n = if leb n 8 then n else idx_of (n - 1)

abbrev fits_words : ℕ → Bool
fits_words n =
    (n == 0)
    || (ltb 0 (class_of n)
        && ltb (class_of n) 46
        && leb (8 * n) (get_or 0 size_array (class_of n))
        && (class_of n == 1 || leb (get_or 0 size_array (class_of n - 1)) (8 * n - 8)))

table : holds_below fits_words 5121 ≡ true
unfolding holds_below idx_of bsr bit_length
table = refl

words-bounds :
    (req : ℕ)
    → 0 < req
    → req ≤ max_size
    → (8 * get_num_of_usize req - 8 < req) × (req ≤ 8 * get_num_of_usize req)
unfolding get_num_of_usize
words-bounds req pos h = (ground arith, ground arith)

get_size_class-eq :
    (req : ℕ) → req ≤ max_size → get_size_class req ≡ base (class_of (get_num_of_usize req))
unfolding get_size_class
get_size_class-eq req h = elim (Bool-cases (leb (get_num_of_usize req) 8)) [
  | inl few ↦ ground arith
  | inr many ↦ ground arith
]

-- For every size from 1 to MAX_SIZE of this variant, the formula gives a class from 1 to 45 whose
-- chunks hold the size, while those of the class below, if it is not class 0, do not.
pub get_size_class-fits :
    (req : ℕ)
    → 0 < req
    → req ≤ max_size
    → (idx : ℕ) × (get_size_class req ≡ base idx)
      × (0 < idx)
      × (idx < 46)
      × (req ≤ get_or 0 size_array idx)
      × (1 < idx → get_or 0 size_array (idx - 1) < req)
get_size_class-fits req pos h =
    let n = get_num_of_usize req in
    let (above, below) = words-bounds req pos h in
    let row = test-holds_below fits_words 5121 n (omega arith) table in
    (
      class_of n,
      get_size_class-eq req h,
      ground arith,
      ground arith,
      ground arith,
      λ more. ground arith,
    )

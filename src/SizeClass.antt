-- ===== src/SizeClass.antt =====
-- unialloc/src/size_class/mod.rs and tc_size_class.rs: the size classes of the default build.
mod Examples
pub mod Tables
pub mod Fit
pub mod Rounding
pub mod Small
pub mod Search
pub mod Deprecated
pub mod Mi
use uni_alloc.Base.{
  ℕ, zero, suc, ◌+◌, ◌-◌, ◌*◌, ◌/◌, ◌^◌, List, [], ◌∷◌, Option, none, some, Bool, ◌&&◌, ltb, leb,
  ◌==◌, if◌then◌else◌, get_elem?,
}
use uni_alloc.Base.Run.{Run, ok, panic, out_of_fuel, ◌>>=◌, expect}
use uni_alloc.Base.Words.{add64, sub64}
use Tables.{idx_array, size_array, size_classes, size_class_pages, size_ranges}

pub data SizeClass : Type 0 where
  base : ℕ → SizeClass
  large : ℕ → SizeClass

unfoldable pub inner : SizeClass → ℕ
inner (base cl) = cl
inner (large cl) = cl

unfoldable pub index : SizeClass → ℕ
index (base cl) = cl
index (large cl) = cl

abbrev pub max_size : ℕ
max_size = 28032

abbrev pub total_size_class : ℕ
total_size_class = 64

abbrev max_len : ℕ
max_len = 63

-- IDX_ARRAY[i] and SIZE_ARRAY[i]; past the end an index panics.
unfoldable pub idx_entry : ℕ → Option ℕ
idx_entry i = get_elem? idx_array i

unfoldable pub size_entry : ℕ → Option ℕ
size_entry i = get_elem? size_array i

abbrev lookup_bucket : ℕ → Run (SizeClass × ℕ)
lookup_bucket idx = do
  new_size_idx ← expect (idx_entry idx)
  new_size ← expect (size_entry new_size_idx)
  ok (base new_size_idx, new_size)

unfoldable pub get_sizeclass_tuple2 : ℕ → Run (SizeClass × ℕ)
get_sizeclass_tuple2 req_size =
    if leb req_size 1024
    then lookup_bucket (add64 req_size 7 / 2 ^ 3)
    else if leb req_size max_size
    then lookup_bucket (add64 req_size (127 + 120 * 2 ^ 7) / 2 ^ 7)
    else ok (large req_size, req_size)

unfoldable pub get_size_class : ℕ → Run SizeClass
get_size_class req = do r ← get_sizeclass_tuple2 req; ok (r.0)

pub get_index_and_size : ℕ → Run (SizeClass × ℕ)
get_index_and_size req_size = get_sizeclass_tuple2 req_size

pub get_size_from_idx : ℕ → Run ℕ
get_size_from_idx idx = expect (size_entry idx)

unfoldable pub get_rounded_size_by_idx : ℕ → Run ℕ
get_rounded_size_by_idx idx = expect (get_elem? size_classes idx)

unfoldable pub get_size_class_by_idx : ℕ → Run ℕ
get_size_class_by_idx idx = expect (get_elem? size_classes idx)

unfoldable pub get_num_pages_by_idx : ℕ → Run ℕ
get_num_pages_by_idx idx = expect (get_elem? size_class_pages idx)

-- size_class/mod.rs
unfoldable pub get_rounded_size : ℕ → Run ℕ
get_rounded_size sz = do cl ← get_size_class sz; get_rounded_size_by_idx (index cl)

unfoldable pub get_size_class_tuple : ℕ → Run (SizeClass × ℕ)
get_size_class_tuple sz = do
  cl ← get_size_class sz
  rounded ← get_rounded_size_by_idx (index cl)
  ok (cl, rounded)

-- The deprecated match: the first arm whose range holds the size, else the last arm.
pub match_range : List (ℕ × ℕ × ℕ) → ℕ → SizeClass
match_range [] req_size = large req_size
match_range ((first, last, cl) ∷ arms) req_size =
    if leb first req_size && leb req_size last then base cl else match_range arms req_size

unfoldable pub get_size_class_index : ℕ → SizeClass
unfolding match_range
get_size_class_index req_size = match_range size_ranges req_size

-- The loop of `binary_search_size`. `right` is an i32 that can become -1, so its successor is
-- kept: `end` is `right + 1`, and `left <= right` is `left < end`.
pub search_loop : ℕ → List ℕ → ℕ → ℕ → ℕ → Run ℕ
search_loop zero arr target left end = out_of_fuel
search_loop (suc fuel) arr target left end =
    let mid = left + (end - 1 - left) / 2 in
    let step : Run ℕ = do
      x ← expect (get_elem? arr mid)
      let up = search_loop fuel arr target (mid + 1) end
      let down = search_loop fuel arr target left mid
      if ltb x target then up else down
    in if ltb left end then step else ok left

-- `right` starts at MAX_LEN - 1. Each round shortens the range, so MAX_LEN + 1 rounds are enough.
unfoldable pub binary_search_size : List ℕ → ℕ → Run (Option ℕ)
binary_search_size arr target = if ltb max_size target then ok none else do
  left ← search_loop (max_len + 1) arr target 0 max_len
  x ← expect (get_elem? arr left)
  ok (some (if x == target then left else sub64 left 1))

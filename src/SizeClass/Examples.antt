-- ===== src/SizeClass/Examples.antt =====
-- The theorems on size classes at concrete sizes, and the source's own test values.
use uni_alloc.Base.{
  ℕ, ◌+◌, ◌≡◌, refl, some, arith, if◌then◌else◌, ◌==◌, holds_below, test-holds_below, leb, leb→le,
  Bool, true,
}
use uni_alloc.Base.Array.{get_or}
use uni_alloc.Base.Run.{ok, panic, Returns}
use uni_alloc.Base.Words.{sub64, trailing_zeros}
use uni_alloc.SizeClass.{
  base, index, idx_entry, size_entry, get_sizeclass_tuple2, binary_search_size,
}
use uni_alloc.SizeClass.Tables.{size_array}
use uni_alloc.SizeClass.Fit.{FitsBest, get_sizeclass_tuple2-FitsBest}
use uni_alloc.SizeClass.Search.{IsSorted, Splits, binary_search_size-Splits}
use uni_alloc.SizeClass.Small
use uni_alloc.SizeClass.Small.{get_rounded_size-fits_iff, final_size}

tuple_of_1025 : get_sizeclass_tuple2 1025 ≡ ok (base 38, 1152)
unfolding get_sizeclass_tuple2 idx_entry size_entry
tuple_of_1025 = refl

-- 24 is rounded down to 8 in the small table, and size 0 has no entry at all.
small_24 : Small.get_rounded_size 24 ≡ ok 8
unfolding Small.get_rounded_size Small.get_rounded_size_by_idx Small.get_size_class trailing_zeros
    index
small_24 = refl

small_0 : Small.get_rounded_size 0 ≡ panic
unfolding Small.get_rounded_size Small.get_rounded_size_by_idx Small.get_size_class trailing_zeros
    index
small_0 = refl

get_sizeclass_tuple2-FitsBest_example : Returns (FitsBest 1025) (get_sizeclass_tuple2 1025)
get_sizeclass_tuple2-FitsBest_example = get_sizeclass_tuple2-FitsBest 1025 (omega arith)

abbrev pairs_in_order : ℕ → ℕ → Bool
pairs_in_order j i = leb (get_or 0 size_array i) (get_or 0 size_array j)

pairs_table : holds_below (λ j. holds_below (pairs_in_order j) (j + 1)) 64 ≡ true
unfolding holds_below
pairs_table = refl

size_array-IsSorted : IsSorted size_array
size_array-IsSorted i j h k =
    let row = test-holds_below (λ j. holds_below (pairs_in_order j) (j + 1)) 64 j k pairs_table in
    leb→le _ _ (test-holds_below (pairs_in_order j) (j + 1) i (omega arith) row)

binary_search_size-Splits_example :
    Returns
      (λ r.
        (l : ℕ) × Splits size_array 500 l
        × (r ≡ some (if get_or 0 size_array l == 500 then l else sub64 l 1)))
      (binary_search_size size_array 500)
binary_search_size-Splits_example =
    binary_search_size-Splits size_array 500 refl size_array-IsSorted (omega arith)

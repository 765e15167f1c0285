-- ===== src/Buddy/Examples.antt =====
-- The theorems on the buddy tree at a tree of four pages, of which the upper two are out.
use uni_alloc.Base.{
  ℕ, ◌+◌, ◌*◌, ◌^◌, ◌<◌, ◌≡◌, refl, [], ◌∷◌, arith, none, some, true, ltb, if◌then◌else◌,
}
use uni_alloc.Base.Array.{get_or}
use uni_alloc.Base.Run.{Returns, ◌>>=◌, expect}
use uni_alloc.Buddy.{FlatBlocks, allocate, deallocate, max}
use uni_alloc.Buddy.Space.{Space, free, taken, split, value, place, take, give, is_out, both_free}
use uni_alloc.Buddy.Nodes.{Stands, SameBut}
use uni_alloc.Buddy.Taking.{allocate-Stands}
use uni_alloc.Buddy.Giving.{deallocate-Stands}
use uni_alloc.Buddy.Trips.{deallocate-allocate_bytes}

abbrev bytes : FlatBlocks
bytes i = get_or 0 (2 ∷ 2 ∷ 0 ∷ 1 ∷ 1 ∷ 1 ∷ 1 ∷ []) i

abbrev space : Space
space = split free taken

space-Stands : Stands bytes 1 2 space
unfolding value max both_free
space-Stands = (refl, refl, (refl, refl, refl), (refl, refl, refl))

-- One page of the lower half is taken.
abbrev lower_page : ℕ × Space
lower_page = (place 2 0 2 space, take 2 0 2 space)

lower_page-eq : lower_page ≡ (0, split (split taken free) taken)
unfolding place take value
lower_page-eq = refl

allocate-Stands_example :
    Returns
      (λ (p, t).
        if ltb 0 (value 2 space)
        then (p ≡ some (place 2 0 2 space * 2 ^ 12))
          × Stands t 1 2 (take 2 0 2 space)
          × SameBut 1 2 bytes t
        else (p ≡ none) × (t ≡ bytes))
      (allocate 3 12 2 bytes 0)
allocate-Stands_example =
    allocate-Stands 3 12 2 0 bytes space (omega arith) (omega arith) space-Stands

-- The upper half comes back.
deallocate-Stands_example :
    Returns
      (λ t. Stands t 1 2 (give 1 1 space) × SameBut 1 2 bytes t)
      (deallocate 3 12 2 bytes (1 * 2 ^ 13) 1)
deallocate-Stands_example =
    deallocate-Stands 3 12 2 1 1 bytes space (omega arith) (omega arith) space-Stands (omega arith)
      upper_out (omega arith)
  where
    upper_out : is_out 1 1 space ≡ true
    upper_out = unfold is_out in refl

deallocate-allocate_bytes_example :
    Returns
      (λ t. (i : ℕ) → t i ≡ bytes i)
      (allocate 3 12 2 bytes 0 >>= λ (p, s). expect p >>= λ ptr. deallocate 3 12 2 s ptr 0)
deallocate-allocate_bytes_example =
    deallocate-allocate_bytes 3 12 2 0 bytes space (omega arith) (omega arith) space-Stands
      page_free not_last
  where
    page_free : 0 < value 2 space
    page_free = unfold value max in omega arith

    not_last : 2 ^ 2 + place 2 0 2 space + 1 < 2 ^ 3
    not_last = unfold place value in omega arith

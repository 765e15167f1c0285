-- ===== src/SeparatePage/Examples.antt =====
-- The theorems on the header with a bit field at a slab of 85 chunks, of which three are out.
use uni_alloc.Base.{ℕ, ◌≡◌, refl, List, [], ◌∷◌, arith, none, some, ◌⊎◌}
use uni_alloc.Base.Run.{ok, Returns}
use uni_alloc.Memory.{is_aligned}
use uni_alloc.Bitfield.{bit, set_bit, trailing_ones}
use uni_alloc.SeparatePage.{ObjectPage, allocate, deallocate, probe, first_fit_from, first_fit}
use uni_alloc.SeparatePage.Trips.{
  IsAllocated, allocate-IsAllocated, deallocate-allocate, deallocate-twice,
}

abbrev page : ObjectPage
page = record { counter = 3; data_start = 0x9000 }

abbrev bits : List ℕ
bits = 11 ∷ 0 ∷ 0 ∷ []

-- The chunks 0, 1 and 3 are out, so the chunk 2 is free; with alignment 64 it is the chunk 4.
first_free :
    allocate 4096 page 8 bits 85 48 1 ≡ (0x9060, record page { counter = 4 }, 15 ∷ 0 ∷ 0 ∷ [])
unfolding allocate first_fit first_fit_from probe bit set_bit trailing_ones is_aligned
first_free = refl

first_aligned : (allocate 4096 page 64 bits 85 48 1).0 ≡ 0x90c0
unfolding allocate first_fit first_fit_from probe bit set_bit trailing_ones is_aligned
first_aligned = refl

allocate-IsAllocated_example :
    (allocate 4096 page 64 bits 85 48 1 ≡ (0, page, bits))
    ⊎ ((i : ℕ) × IsAllocated 4096 page 64 bits 48 1 i (allocate 4096 page 64 bits 85 48 1))
allocate-IsAllocated_example =
    allocate-IsAllocated 4096 page 64 bits 85 48 1 (omega arith) (omega arith) (omega arith)

deallocate-allocate_example :
    let r = allocate 4096 page 64 bits 85 48 1 in deallocate r.1 r.0 r.2 48 ≡ ok (some (page, bits))
deallocate-allocate_example =
    deallocate-allocate 4096 page 64 bits 85 48 1 (omega arith) (omega arith) (omega arith)
      (omega arith) (omega arith) λ e. absurd (omega (arith, e, first_aligned))

deallocate-twice_example :
    Returns
      (λ r.
        (r ≡ none)
        ⊎ ((s : ObjectPage) × (bs : List ℕ) × (r ≡ some (s, bs))
            × (deallocate s 0x9030 bs 48 ≡ ok none)))
      (deallocate page 0x9030 bits 48)
deallocate-twice_example =
    deallocate-twice page 0x9030 bits 48 (λ e. absurd (omega (arith, e))) (omega arith)

-- ===== src/Page/Examples.antt =====
-- The theorems on a slab of one page of 4096 bytes with eight chunks of 512.
use uni_alloc.Base.{ℕ, ◌+◌, ◌≡◌, refl, [], ◌∷◌, ◌++◌, arith, length}
use uni_alloc.Base.Run.{Returns}
use uni_alloc.Memory.{Memory, write}
use uni_alloc.Memory.Chain.{SameOutside, Apart}
use uni_alloc.Page.{ObjectPage, deallocate}
use uni_alloc.Page.Chunks.{IsFree, deallocate-IsFree}

-- Chunk 0 is free; chunks 1 and 2 come back as a batch, followed by a chunk of another slab.
abbrev memory : Memory
memory = write (write (λ a. 0) 0x1200 0x1400) 0x1400 0x8000

abbrev page : ObjectPage
page = record { counter = 7; data_start = 0x1000; ptr = 0x1000; prev = 0; next = 0 }

page-IsFree : IsFree memory 4096 8 page (0x1000 ∷ [])
unfolding write
page-IsFree = record {
  chain = (refl, refl);
  distinct = (refl, tt);
  inside = (refl, tt);
  counted = refl;
}

batch-Apart : Apart (0x1200 ∷ 0x1400 ∷ []) (0x1000 ∷ [])
batch-Apart a h = ground arith

deallocate-IsFree_example :
    Returns
      (λ (next, s, m).
        (next ≡ 0x8000)
        × IsFree m 4096 8 s ((0x1200 ∷ 0x1400 ∷ []) ++ (0x1000 ∷ []))
        × (s.counter + length {A = ℕ} (0x1200 ∷ 0x1400 ∷ []) ≡ 7)
        × SameOutside (0x1200 ∷ 0x1400 ∷ []) memory m)
      (deallocate 4096 page 0x1200 1 memory)
unfolding write
deallocate-IsFree_example =
    deallocate-IsFree 4096 1 8 (omega arith) (omega arith) memory page (0x1000 ∷ []) 0x1200
      (0x1400 ∷ []) 0x8000 page-IsFree (omega arith) (refl, (refl, refl)) (refl, (refl, tt))
      (refl, (refl, tt)) refl batch-Apart (omega arith)

-- ===== src/FreeList/Examples.antt =====
-- A page backend with a block of three pages and one of a single page.
use uni_alloc.Base.{
  ℕ, ◌+◌, ◌^◌, ◌≡◌, ◌≤◌, ◌<◌, ◌⊎◌, inl, inr, none, some, List, [], ◌∷◌, arith, refl,
}
use uni_alloc.Base.Run.{Returns, Returns-inv, ◌>>=◌}
use uni_alloc.Radix.Head
use uni_alloc.Radix.Head.{RadixTree}
use uni_alloc.Bump.Backend
use uni_alloc.FreeList.{FreeList, alloc, free, put, index_for, backend_max_page}
use uni_alloc.FreeList.Blocks.{Holds}
use uni_alloc.FreeList.Allocating.{Outcome, alloc-IsServed}
use uni_alloc.FreeList.Freeing.{free-Holds}
use uni_alloc.FreeList.Global.{allocate, deallocate, allocate-deallocate_block}

-- Mappings come from the top of an address space, whose next address is the state.
abbrev map_at : ℕ → ℕ → ℕ × ℕ
map_at os size = (os, os + size)

abbrev unmap : ℕ → ℕ → ℕ → ℕ
unmap os ptr size = os

abbrev no_marks : RadixTree
no_marks idx = none

abbrev start : FreeList ℕ
start = record {
  lists = λ i. none;
  prev = λ a. none;
  next = λ a. none;
  rd_tree = no_marks;
  bump = Backend.new;
  os = 2 ^ 40;
}

abbrev nothing : ℕ → List ℕ
nothing i = []

start-Holds : Holds start nothing
unfolding Head.get_mut
start-Holds = record {
  heads = λ i. refl;
  linked = λ i. tt;
  distinct = λ i. tt;
  blocks = λ i a h. absurd (ground arith);
  apart = λ i a j b h k. absurd (ground arith);
  marks = λ q h. inl (omega arith);
}

-- Three pages that lie outside.
abbrev block : ℕ
block = 0x100000

abbrev with_block : ℕ → List ℕ
with_block = put nothing 2 (block ∷ nothing 2)

free-Holds_example :
    Returns
      (λ s'.
        ((2 < backend_max_page) × Holds s' with_block)
        ⊎ ((backend_max_page ≤ 2) × (s' ≡ record start { os = unmap start.os block 12288 })))
      (free map_at unmap block 12288 start)
free-Holds_example =
    free-Holds map_at unmap block 12288 2 start nothing (omega arith) (omega arith) (omega arith)
      start-Holds refl (omega arith) (omega arith) (λ j b h. absurd (ground arith))

-- The backend after these pages came back.
one_block : (s : FreeList ℕ) × Holds s with_block
one_block =
    let (s, e, given) = Returns-inv free-Holds_example in
    elim given [ inl (_, holds) ↦ (s, holds) | inr (large, _) ↦ absurd (omega arith) ]

-- 5000 bytes, two pages, come from the block of three.
alloc-IsServed_example :
    Returns
      (Outcome map_at unmap 5000 one_block.0 with_block one_block.1 1)
      (alloc map_at unmap 5000 one_block.0)
alloc-IsServed_example =
    alloc-IsServed map_at unmap 5000 one_block.0 with_block one_block.1 1 (omega arith)
      (omega arith) (omega arith)

allocate-deallocate_block_example :
    Returns
      (λ (o, s'). (o ≡ some (block, 12288)) × Holds s' nothing)
      (deallocate map_at unmap block 12288 start >>= λ s1. allocate map_at unmap 12288 8 s1)
unfolding index_for
allocate-deallocate_block_example =
    allocate-deallocate_block map_at unmap block 12288 8 start nothing start-Holds refl
      (omega arith) (omega arith) (λ j b h. absurd (ground arith)) (omega arith) (omega arith)
      (omega arith)

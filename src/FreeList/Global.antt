-- ===== src/FreeList/Global.antt =====
-- `BuddySystemAllocator` of freelist/mod.rs: the page backend as an allocator of the language. A layout
-- is its size and its alignment.
use uni_alloc.Base.{
  ℕ, List, ◌+◌, ◌*◌, ◌%◌, ◌≡◌, ◌≤◌, ◌<◌, refl, arith, ne→==, le→ltb, ◌^◌, ◌-◌, ltb, ◌==◌,
  if◌then◌else◌, Option, none, some,
}
use uni_alloc.Base.Run.{Run, ok, Returns, returns, Returns-bind, Returns-then, ◌>>=◌}
use uni_alloc.FreeList.{FreeList, alloc, free, index_for, backend_max_page}
use uni_alloc.FreeList.Blocks.{Holds}
use uni_alloc.FreeList.Joining.{IsFresh}
use uni_alloc.FreeList.Trips.{alloc-free}

module _ {Os : Type 0} (mmap : Os → ℕ → ℕ × Os) (munmap : Os → ℕ → ℕ → Os) where
  -- The address, 0 if there is none.
  global_alloc : ℕ → FreeList Os → Run (ℕ × FreeList Os)
  global_alloc size s =
      let called = do
        (o, s') ← alloc mmap munmap size s
        ok (elim o [ none ↦ 0 | some ptr ↦ ptr ], s')
      in if ltb (2 ^ 63 - 1) size then ok (0, s) else called

  dealloc : ℕ → ℕ → FreeList Os → Run (FreeList Os)
  dealloc ptr size s = free mmap munmap ptr size s

  -- The address and the length of the slice, or nothing for an error. A block of no bytes is at the
  -- alignment.
  pub allocate : ℕ → ℕ → FreeList Os → Run (Option (ℕ × ℕ) × FreeList Os)
  allocate size align s =
      let called = do
        (raw_ptr, s') ← global_alloc size s
        ok ((if raw_ptr == 0 then none else some (raw_ptr, size)), s')
      in if size == 0 then ok (some (align, 0), s) else called

  pub deallocate : ℕ → ℕ → FreeList Os → Run (FreeList Os)
  deallocate ptr size s = let called = dealloc ptr size s in if size == 0 then ok s else called

module _ {Os : Type 0} (mmap : Os → ℕ → ℕ × Os) (munmap : Os → ℕ → ℕ → Os) (ptr size align : ℕ)
    (s : FreeList Os) (ls : ℕ → List ℕ) (holds : Holds s ls) (aligned : ptr % 4096 ≡ 0)
    (positive : 4096 ≤ ptr) (below : ptr + (index_for size + 1) * 4096 < 2 ^ 48)
    (fresh : IsFresh ls (index_for size) ptr) (listed : index_for size < backend_max_page)
    (some_size : 0 < size) (size_max : size < 2 ^ 63) where
  -- On free lists that hold disjoint blocks, deallocating a block of at most 128 whole pages, not at
  -- page 0, that ends below 2^48 and is apart from all free blocks, for a size from 1 to isize::MAX, and allocating the same size returns that block, with the length asked for, and the
  -- lists hold what they held.
  pub allocate-deallocate_block :
      Returns
        (λ (o, s'). (o ≡ some (ptr, size)) × Holds s' ls)
        (deallocate mmap munmap ptr size s >>= λ s1. allocate mmap munmap size align s1)
  unfolding deallocate dealloc allocate global_alloc
  allocate-deallocate_block =
      let small = le→ltb (2 ^ 63 - 1) size (omega arith) in
      let freed = free mmap munmap ptr size s in
      let called = alloc-free mmap munmap ptr size s ls holds aligned positive below fresh listed in
      let raw : Returns (λ (p, s'). (p ≡ ptr) × Holds s' ls)
          (freed >>= λ s1.
            alloc mmap munmap size s1 >>= λ (o, s'). ok (elim o [ none ↦ 0 | some p ↦ p ], s')) =
        Returns-then freed _ _ (Returns-bind called λ (o, s') (e, h). rw e (returns (refl, h))) in
      rw (ne→== size 0 (omega arith), small)
        (Returns-then freed _ _ (
          Returns-bind raw λ (p, s') (e, h). rw (e, ne→== ptr 0 (omega arith)) (returns (refl, h))))

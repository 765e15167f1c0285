-- ===== src/Zone.antt =====
-- unialloc/src/zone.rs: the zone, one slab allocator for each size class, and the calls that the
-- thread caches make on it. The lock of a slab allocator is held for the whole of a call, so a call
-- is one step of the model.
mod Examples
pub mod Slots
use uni_alloc.Base.{
  ℕ, zero, suc, ◌+◌, ◌-◌, ◌^◌, ltb, List, [], ◌∷◌, Option, ◌≡◌, length, get_elem?, set,
}
use uni_alloc.Base.Run.{Run, ok, panic, assert, expect, ◌>>=◌, ◌>>◌}
use uni_alloc.SizeClass.{total_size_class, get_rounded_size_by_idx, get_num_pages_by_idx}
use uni_alloc.Memory.{Memory}
use uni_alloc.Slab.Defs.{ScAllocator}
use uni_alloc.Slab.Defs
use uni_alloc.Slab.World.{World, Platform}
use uni_alloc.Slab.Batches
use uni_alloc.Slab.Batches.{allocate_batch_v2}

-- What a thread cache sees of the zone: the words of free chunks, and four calls.
pub record ZoneCalls (Z : Type 0) : Type 0 where
  pub memory : Z → Memory
  pub with_memory : Memory → Z → Z
  pub allocate_batch_from_slab : ℕ → ℕ → Z → Run ((ℕ × ℕ × Option ℕ) × Z)
  pub deallocate_batch_to_slab : ℕ → ℕ → Z → Run Z
  pub allocate_large : ℕ → Z → ℕ × Z
  pub deallocate_large : ℕ → ℕ → Z → Z

pub record ZoneAllocator (Os Backend : Type 0) : Type 0 where
  pub slabs : List ScAllocator
  pub world : World Os Backend

-- The loop of `new` over `left` further slabs, the first of them at `idx`.
pub new_slabs : ℕ → ℕ → ℕ → Run (List ScAllocator)
new_slabs page_size zero idx = ok []
new_slabs page_size (suc left) idx = do
  size ← get_rounded_size_by_idx idx
  pages ← get_num_pages_by_idx idx
  slab ← Defs.new page_size size pages
  slabs ← new_slabs page_size left (suc idx)
  ok (slab ∷ slabs)

module _ {Os Backend : Type 0} (c : Platform Os Backend) where
  unfoldable pub new : World Os Backend → Run (ZoneAllocator Os Backend)
  new w = do
    slabs ← new_slabs (2 ^ c.page_bits) total_size_class 0
    ok (record { slabs = slabs; world = w })

  unfoldable pub allocate_batch_from_slab :
      ℕ → ℕ → ZoneAllocator Os Backend → Run ((ℕ × ℕ × Option ℕ) × ZoneAllocator Os Backend)
  allocate_batch_from_slab idx align z = do
    assert (ltb idx (length z.slabs))
    slab ← expect (get_elem? z.slabs idx)
    (batch, slab', w) ← allocate_batch_v2 c slab align z.world
    ok (batch, record { slabs = set z.slabs idx slab'; world = w })

  -- The fuel is that of the walk over the batch.
  unfoldable pub deallocate_batch_to_slab :
      ℕ → ℕ → ℕ → ZoneAllocator Os Backend → Run (ZoneAllocator Os Backend)
  deallocate_batch_to_slab fuel idx ptr z = do
    assert (ltb idx (length z.slabs))
    slab ← expect (get_elem? z.slabs idx)
    (slab', w) ← Batches.deallocate_batch c fuel slab ptr z.world
    ok (record { slabs = set z.slabs idx slab'; world = w })

  -- A null answer of the backend is passed on as it is.
  unfoldable pub allocate_large : ℕ → ZoneAllocator Os Backend → ℕ × ZoneAllocator Os Backend
  allocate_large size z =
      let (ptr, (t, b)) = c.alloc (z.world.ptr_map, z.world.backend) size in
      (ptr, record z { world = record z.world { ptr_map = t; backend = b } })

  unfoldable pub deallocate_large : ℕ → ℕ → ZoneAllocator Os Backend → ZoneAllocator Os Backend
  deallocate_large ptr size z =
      let (t, b) = c.dealloc (z.world.ptr_map, z.world.backend) ptr size in
      record z { world = record z.world { ptr_map = t; backend = b } }

  -- The zone as the thread caches use it.
  unfoldable pub calls : ℕ → ZoneCalls (ZoneAllocator Os Backend)
  calls fuel = record {
    memory = λ z. z.world.memory;
    with_memory = λ m z. record z { world = record z.world { memory = m } };
    allocate_batch_from_slab = allocate_batch_from_slab;
    deallocate_batch_to_slab = deallocate_batch_to_slab fuel;
    allocate_large = allocate_large;
    deallocate_large = deallocate_large;
  }

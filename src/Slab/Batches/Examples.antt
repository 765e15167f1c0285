-- ===== src/Slab/Batches/Examples.antt =====
-- Batches from and to slabs of three chunks, on a system that hands out ever higher addresses.
use uni_alloc.Base.{
  inl, ℕ, ◌+◌, ◌≡◌, ◌^◌, some, refl, [], ◌∷◌, ◌++◌, arith, none, ◌==◌, if◌then◌else◌, true, false,
}
use uni_alloc.Base.Run.{Returns}
use uni_alloc.Memory.{Memory}
use uni_alloc.Memory.Chain.{Chain}
use uni_alloc.Page.{ObjectPage, is_empty}
use uni_alloc.Page.Chunks.{IsFree}
use uni_alloc.Radix.Head.{RadixTree}
use uni_alloc.Slab.Defs.{ScAllocator}
use uni_alloc.Slab.Lists.{Headers}
use uni_alloc.Slab.Lists.Links.{IsPageList}
use uni_alloc.Slab.World.{World, Platform, as_usize}
use uni_alloc.Slab.Batches.{allocate_batch_v2, relist}
use uni_alloc.Slab.Batches.Moves.{allocate_batch_v2-partial}
use uni_alloc.Slab.Batches.Returned.{relist-reopened}
use uni_alloc.Slab.Batches.Renewed.{IsRenewed, allocate_batch_v2-IsRenewed}
use uni_alloc.Slab.Batches.Reused.{IsReused, allocate_batch_v2-IsReused}
use uni_alloc.Slab.Batches.Released.{IsReleased, relist-IsReleased}

-- The backend marks pages in the tree, as for blocks of one page.
abbrev marked : RadixTree → RadixTree
marked t i = if i == 0 then some (λ j. 2 ^ 63 + 1) else t i

abbrev platform : Platform ℕ ℕ
platform = record {
  page_bits = 12;
  header = 40;
  per_mapping = 4096;
  mmap = λ os n. (os + 4096, os + 4096 + n);
  alloc = λ (t, b) n. (b + 4096, (marked t, b + 4096 + n));
  dealloc = λ (t, b) p n. (marked t, b);
}

abbrev page : ℕ → ℕ → ℕ → ℕ → ObjectPage
page counter ptr p n = record {
  counter = counter;
  data_start = 0x9000;
  ptr = ptr;
  prev = p;
  next = n;
}

-- One partial slab at 40, with two free chunks, and one full slab at 80.
abbrev headers : Headers
headers a = if a == 40 then page 1 0x9000 40 40 else page 3 0 80 80

abbrev memory : Memory
memory a = if a == 0x9000 then 0x9100 else 0

abbrev world : World ℕ ℕ
world = record {
  headers = headers;
  memory = memory;
  ptr_map = λ i. none;
  pg_bump = record { start = 0; current = 0 };
  os = 0;
  backend = 0;
}

abbrev slabs : ScAllocator
slabs = record {
  full_start = 80;
  partial_start = 40;
  empty_start = 0;
  uninit_start = 0;
  empty_count = 0;
  pg_num = 1;
  pg_count = 3;
  pg_align = 256;
}

memory-IsFree : IsFree memory 4096 (as_usize 3) (headers 40) (0x9000 ∷ 0x9100 ∷ [])
unfolding as_usize
memory-IsFree = record {
  chain = (refl, (refl, refl));
  distinct = (refl, (refl, tt));
  inside = (refl, (refl, tt));
  counted = refl;
}

allocate_batch_v2-partial_example :
    Returns
      (λ (ans, s', w').
        (ans ≡ (0x9000, 2, none))
        × Chain w'.memory 0x9000 (0x9000 ∷ 0x9100 ∷ []) 0
        × IsPageList w'.headers s'.partial_start []
        × IsPageList w'.headers s'.full_start ((80 ∷ []) ++ (40 ∷ []))
        × IsFree w'.memory 4096 (as_usize 3) (w'.headers 40) [])
      (allocate_batch_v2 platform slabs 1 world)
unfolding as_usize
allocate_batch_v2-partial_example =
    allocate_batch_v2-partial platform slabs world [] (80 ∷ []) 4096 (0x9000 ∷ 0x9100 ∷ [])
      (refl, (refl, refl), (refl, tt), refl) (refl, (refl, refl), (refl, tt), refl)
      (λ a h. ground arith) (omega arith) memory-IsFree (omega arith)

relist-reopened_example :
    Returns
      (λ (s', w').
        IsPageList w'.headers s'.full_start []
        × IsPageList w'.headers s'.partial_start ((40 ∷ []) ++ (80 ∷ []))
        × ((w'.headers 80).counter ≡ 3)
        × ((w'.headers 80).ptr ≡ 0))
      (relist platform slabs 80 true world)
unfolding is_empty
relist-reopened_example =
    relist-reopened platform slabs world 80 [] [] (40 ∷ []) (refl, (refl, refl), (refl, tt), refl)
      (refl, (refl, refl), (refl, tt), refl) (λ a h. ground arith) refl

-- The slab at 40 is empty, the header at 80 has none, and 2049 empty slabs are kept.
abbrev many_kept : ScAllocator
many_kept = record slabs { full_start = 0; uninit_start = 80; empty_count = 2049 }

abbrev emptied : World ℕ ℕ
emptied = record world { headers = λ a. if a == 40 then page 0 0x9100 40 40 else page 0 0 80 80 }

relist-IsReleased_example :
    Returns
      (λ (s', w'). IsReleased platform many_kept emptied 40 [] (80 ∷ []) s' w')
      (relist platform many_kept 40 false emptied)
unfolding is_empty
relist-IsReleased_example =
    relist-IsReleased platform many_kept emptied 40 [] [] (80 ∷ [])
      (refl, (refl, refl), (refl, tt), refl) (refl, (refl, refl), (refl, tt), refl)
      (λ a h. ground arith) refl (omega arith) (omega arith) (omega arith) (omega arith)
      (omega arith)

-- The empty slab at 40 is kept, and no slab is partial.
abbrev one_kept : ScAllocator
one_kept = record slabs { partial_start = 0; empty_start = 40; empty_count = 1 }

abbrev emptied_beside_full : World ℕ ℕ
emptied_beside_full = record world {
  headers = λ a. if a == 40 then page 0 0 40 40 else page 3 0 80 80;
}

allocate_batch_v2-IsReused_example :
    Returns
      (IsReused platform one_kept emptied_beside_full 40 [] (80 ∷ []))
      (allocate_batch_v2 platform one_kept 16 emptied_beside_full)
allocate_batch_v2-IsReused_example =
    allocate_batch_v2-IsReused platform one_kept emptied_beside_full 40 [] (80 ∷ []) 16 (inl refl)
      (refl, (refl, refl), (refl, tt), refl) (refl, (refl, refl), (refl, tt), refl)
      (λ a h. ground arith) refl (omega arith) refl

-- No slab is kept, and the header at 40 gets a slab from the backend.
abbrev none_kept : ScAllocator
none_kept = record slabs { partial_start = 0; uninit_start = 40 }

allocate_batch_v2-IsRenewed_example :
    Returns
      (IsRenewed platform none_kept emptied_beside_full [] (80 ∷ []))
      (allocate_batch_v2 platform none_kept 1 emptied_beside_full)
allocate_batch_v2-IsRenewed_example =
    allocate_batch_v2-IsRenewed platform none_kept emptied_beside_full [] (80 ∷ []) 1 (inl refl)
      refl (refl, (refl, refl), (refl, tt), refl) (refl, (refl, refl), (refl, tt), refl)
      (λ a h. ground arith) (λ e. absurd (omega (arith, e))) (omega arith) (omega arith)
      (omega arith)

-- ===== src/Cache/Joined/Examples.antt =====
-- A cache on a zone with a single slab allocator: a partial slab at 40, with two free chunks, and a
-- full slab at 80.
use uni_alloc.Base.{ℕ, ◌+◌, ◌≡◌, refl, [], ◌∷◌, arith, none, ◌==◌, if◌then◌else◌}
use uni_alloc.Base.Run.{Returns}
use uni_alloc.Page.{ObjectPage}
use uni_alloc.Page.Chunks.{IsFree}
use uni_alloc.Slab.Defs.{ScAllocator}
use uni_alloc.Slab.World.{Platform, as_usize}
use uni_alloc.Zone.{ZoneAllocator, calls}
use uni_alloc.Cache.{unit_allocate, new}
use uni_alloc.Cache.Units.{bump_chunks}
use uni_alloc.Cache.Reuse.{IsCached}
use uni_alloc.Cache.Refill.{IsRefilled}
use uni_alloc.Cache.Joined.{unit_allocate-partial}

abbrev platform : Platform ℕ ℕ
platform = record {
  page_bits = 12;
  header = 40;
  per_mapping = 4096;
  mmap = λ os n. (os + 4096, os + 4096 + n);
  alloc = λ (t, b) n. (b + 4096, (t, b + 4096 + n));
  dealloc = λ b p n. b;
}

abbrev header : ℕ → ℕ → ℕ → ObjectPage
header counter ptr n = record {
  counter = counter;
  data_start = 0x9000;
  ptr = ptr;
  prev = n;
  next = n;
}

abbrev slab : ScAllocator
slab = record {
  full_start = 80;
  partial_start = 40;
  empty_start = 0;
  uninit_start = 0;
  empty_count = 0;
  pg_num = 1;
  pg_count = 3;
  pg_align = 256;
}

abbrev zone : ZoneAllocator ℕ ℕ
zone = record {
  slabs = slab ∷ [];
  world = record {
    headers = λ a. if a == 40 then header 1 0x9000 40 else header 3 0 80;
    memory = λ a. if a == 0x9000 then 0x9100 else 0;
    ptr_map = λ i. none;
    pg_bump = record { start = 0; current = 0 };
    os = 0;
    backend = 0;
  };
}

slab-IsFree : IsFree zone.world.memory 4096 (as_usize 3) (header 1 0x9000 40) (0x9000 ∷ 0x9100 ∷ [])
unfolding as_usize
slab-IsFree = record {
  chain = (refl, (refl, refl));
  distinct = (refl, (refl, tt));
  inside = (refl, (refl, tt));
  counted = refl;
}

new-IsCached : IsCached zone.world.memory new [] []
unfolding bump_chunks
new-IsCached = record {
  list = record { chain = refl; distinct = tt; non_null = refl; counted = refl };
  range = refl;
  few = omega arith;
  distinct = tt;
  non_null = refl;
  small = omega arith;
}

three : as_usize 3 ≡ 3
unfolding as_usize
three = refl

unit_allocate-partial_example :
    Returns
      (IsRefilled (calls platform 8) 0x9000 (0x9100 ∷ []) [] [])
      (unit_allocate (calls platform 8) new 0 1 zone)
unit_allocate-partial_example =
    unit_allocate-partial platform 8 0 zone slab [] (80 ∷ []) 4096 0x9000 (0x9100 ∷ []) refl
      (refl, (refl, refl), (refl, tt), refl) (refl, (refl, refl), (refl, tt), refl)
      (λ a h. ground arith) (omega (arith, three)) slab-IsFree (omega arith) new refl new-IsCached

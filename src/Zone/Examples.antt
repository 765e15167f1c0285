-- ===== src/Zone/Examples.antt =====
-- The zone of a system with pages of 4 KiB.
use uni_alloc.Base.{ℕ, ◌+◌, ◌^◌, ◌<◌, ◌≡◌, none, some, length, get_elem?, arith}
use uni_alloc.Base.Run.{Returns}
use uni_alloc.Page
use uni_alloc.Slab.Defs.{ScAllocator}
use uni_alloc.Slab.World.{World, Platform}
use uni_alloc.Zone.{new}
use uni_alloc.Zone.Slots.{IsSlot, new-IsSlots}

abbrev platform : Platform ℕ ℕ
platform = record {
  page_bits = 12;
  header = 40;
  per_mapping = 4096;
  mmap = λ os n. (os + 4096, os + 4096 + n);
  alloc = λ (t, b) n. (b + 4096, (t, b + 4096 + n));
  dealloc = λ b p n. b;
}

abbrev world : World ℕ ℕ
world = record {
  headers = λ a. Page.new;
  memory = λ a. 0;
  ptr_map = λ i. none;
  pg_bump = record { start = 0; current = 0 };
  os = 0;
  backend = 0;
}

new-IsSlots_example :
    Returns
      (λ z.
        (length z.slabs ≡ 64)
        × ((idx : ℕ)
            → idx < 64
            → (s : ScAllocator) × (get_elem? z.slabs idx ≡ some s) × IsSlot (2 ^ 12) idx s))
      (new platform world)
new-IsSlots_example = new-IsSlots platform world (omega arith) (omega arith)

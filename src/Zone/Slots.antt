-- ===== src/Zone/Slots.antt =====
-- What `ZoneAllocator::new` builds: a slab allocator for each size class, whose chunks tile its
-- slabs.
use uni_alloc.Base.{
  ℕ, zero, suc, ◌+◌, ◌*◌, ◌^◌, ◌≤◌, ◌<◌, ◌≡◌, refl, ap, Bool, true, ◌&&◌, ◌||◌, ltb, leb, ◌==◌,
  List, [], ◌∷◌, length, get_elem?, some, arith, holds_below, test-holds_below,
}
use mathlib.Core.Path.{subst}
use uni_alloc.Base.Array.{get_or, get_elem?-get_or}
use uni_alloc.Base.Run.{ok, Returns, returns, Returns-bind, Returns-map, expect}
use uni_alloc.SizeClass.{get_rounded_size_by_idx, get_num_pages_by_idx}
use uni_alloc.SizeClass.Tables.{size_classes, size_class_pages}
use uni_alloc.Slab.Defs.{ScAllocator}
use uni_alloc.Slab.Defs
use uni_alloc.Slab.Geometry.{IsTiling, new-IsTiling}
use uni_alloc.Slab.World.{World, Platform}
use uni_alloc.Zone.{new_slabs, new}

abbrev size_of : ℕ → ℕ
size_of idx = get_or 0 size_classes idx

abbrev pages_of : ℕ → ℕ
pages_of idx = get_or 0 size_class_pages idx

-- Class 0 has no chunks; a slab of any other class has room for one in pages of 4 KiB.
abbrev entry_fits : ℕ → Bool
entry_fits idx =
    (idx == 0 || ltb 0 (size_of idx))
    && leb (size_of idx) (4096 * pages_of idx)
    && leb (pages_of idx) 64

entries_fit : holds_below entry_fits 64 ≡ true
unfolding holds_below
entries_fit = refl

entry_fits_at :
    (idx : ℕ)
    → idx < 64
    → (0 < idx → 0 < size_of idx) × (size_of idx ≤ 4096 * pages_of idx) × (pages_of idx ≤ 64)
entry_fits_at idx h =
    let fits = test-holds_below entry_fits 64 idx h entries_fit in
    (λ pos. ground arith, ground arith, ground arith)

rounded_size-at : (idx : ℕ) → idx < 64 → get_rounded_size_by_idx idx ≡ ok (size_of idx)
unfolding get_rounded_size_by_idx
rounded_size-at idx h = ap expect (get_elem?-get_or 0 size_classes idx h)

num_pages-at : (idx : ℕ) → idx < 64 → get_num_pages_by_idx idx ≡ ok (pages_of idx)
unfolding get_num_pages_by_idx
num_pages-at idx h = ap expect (get_elem?-get_or 0 size_class_pages idx h)

-- The allocator of a class with chunks tiles its slabs, whose size the table gives.
pub record IsSlot (page_size idx : ℕ) (s : ScAllocator) : Type 0 where
  pub tiling : 0 < idx → IsTiling (page_size * pages_of idx) (size_of idx) s
  pub slab_pages : 0 < idx → s.pg_num ≡ pages_of idx

abbrev AllSlots : ℕ → ℕ → List ScAllocator → Type 0
AllSlots page_size idx [] = Unit {0}
AllSlots page_size idx (s ∷ ss) = IsSlot page_size idx s × AllSlots page_size (suc idx) ss

AllSlots-get_elem? :
    (page_size idx : ℕ) (ss : List ScAllocator) (i j : ℕ)
    → AllSlots page_size idx ss
    → i < length ss
    → j ≡ idx + i
    → (s : ScAllocator) × (get_elem? ss i ≡ some s) × IsSlot page_size j s
AllSlots-get_elem? page_size idx [] i j all h e = absurd (omega arith)
AllSlots-get_elem? page_size idx (s ∷ ss) zero j all h e =
    (s, refl, subst (λ k. IsSlot page_size k s) (omega arith) all.0)
AllSlots-get_elem? page_size idx (s ∷ ss) (suc i) j all h e =
    AllSlots-get_elem? page_size (suc idx) ss i j all.1 (omega arith) (omega arith)

module _ (page_size : ℕ) (big : 4096 ≤ page_size) (small : page_size * 64 < 2 ^ 31) where
  new-IsTiling_pages :
      (size pages : ℕ)
      → 0 < size
      → size ≤ 4096 * pages
      → pages ≤ 64
      → Returns
          (λ s. IsTiling (page_size * pages) size s × (s.pg_num ≡ pages) × (s.empty_count ≡ 0))
          (Defs.new page_size size pages)
  new-IsTiling_pages size pages pos fits few =
      new-IsTiling page_size size pages pos (grind arith) (grind arith)

  new-IsSlot :
      (idx : ℕ)
      → idx < 64
      → Returns (IsSlot page_size idx) (Defs.new page_size (size_of idx) (pages_of idx))
  new-IsSlot zero h =
      unfold Defs.new in
      returns
        (record { tiling = λ pos. absurd (omega arith); slab_pages = λ pos. absurd (omega arith) })
  new-IsSlot (suc i) h =
      let (pos, fits, few) = entry_fits_at (suc i) h in
      Returns-map
        (new-IsTiling_pages (size_of (suc i)) (pages_of (suc i)) (pos (omega arith)) fits few)
        λ s (tiling, number, none_empty). record { tiling = λ p. tiling; slab_pages = λ p. number }

  new_slabs-AllSlots :
      (left idx : ℕ)
      → idx + left ≡ 64
      → Returns
          (λ ss. AllSlots page_size idx ss × (length ss ≡ left))
          (new_slabs page_size left idx)
  unfolding new_slabs
  new_slabs-AllSlots zero idx h = returns (tt, refl)
  new_slabs-AllSlots (suc left) idx h =
      rw (rounded_size-at idx (omega arith), num_pages-at idx (omega arith))
        (Returns-bind (new-IsSlot idx (omega arith)) λ s slot.
          Returns-bind (new_slabs-AllSlots left (suc idx) (omega arith))
            λ ss r. returns ((slot, r.0), ap suc r.1))

-- With pages of 4 KiB or more, up to 64 of them below 2^31 bytes, `new` returns a zone of 64 slab
-- allocators, and the one of each class but 0 has slabs of the number of pages that the table gives,
-- tiled by chunks of the size that the table gives.
pub new-IsSlots :
    {Os Backend : Type 0} (c : Platform Os Backend) (w : World Os Backend)
    → 4096 ≤ 2 ^ c.page_bits
    → 2 ^ c.page_bits * 64 < 2 ^ 31
    → Returns
        (λ z.
          (length z.slabs ≡ 64)
          × ((idx : ℕ)
              → idx < 64
              → (s : ScAllocator) × (get_elem? z.slabs idx ≡ some s)
                × IsSlot (2 ^ c.page_bits) idx s))
        (new c w)
unfolding new
new-IsSlots c w big small =
    Returns-bind (new_slabs-AllSlots (2 ^ c.page_bits) big small 64 0 refl) λ ss r. returns (
      r.1,
      λ idx h.
          AllSlots-get_elem? (2 ^ c.page_bits) 0 ss idx idx r.0 (omega (arith, r.1)) (omega arith),
    )

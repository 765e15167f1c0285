-- ===== src/Allocator/Examples.antt =====
-- `RustAllocator` with a small zone and a cache with one chunk of 112 bytes.
use uni_alloc.Base.{
  ℕ, zero, suc, ◌+◌, ◌<◌, ◌≤◌, ◌%◌, ◌^◌, ◌≡◌, ◌⊎◌, refl, sym, ◌∙◌, Bool-cases, inl, inr, ◌==◌, [],
  ◌∷◌, ◌++◌, arith, set,
}
use uni_alloc.Base.Array.{get_or, replicate, get_or-set}
use uni_alloc.Base.Run.{Returns, ok}
use mathlib.Core.Option.{some}
use mathlib.Core.Path.{subst}
use uni_alloc.Memory.{Memory, is_aligned}
use uni_alloc.Linklist.Laws.{first_aligned}
use uni_alloc.SizeClass.{
  base, get_size_class, get_rounded_size, get_sizeclass_tuple2, idx_entry, size_entry,
}
use uni_alloc.Zone.{ZoneCalls}
use uni_alloc.Cache.{ThreadCacheUnit, new, empty_cache}
use uni_alloc.Cache.Units.{IsStore, bump_chunks}
use uni_alloc.Cache.Reuse.{IsCached}
use uni_alloc.Allocator.{RustAllocator, realloc, move_block, min}
use uni_alloc.Allocator.Realloc.{IsMoved, realloc-stays, realloc-IsMoved}

abbrev zone : ZoneCalls Memory
zone = record {
  memory = λ m. m;
  with_memory = λ m z. m;
  allocate_batch_from_slab = λ idx align m. ok ((0x5000, 4, some 128), m);
  deallocate_batch_to_slab = λ idx ptr m. ok m;
  allocate_large = λ size m. (0x100000, m);
  deallocate_large = λ ptr size m. m;
}

zone-IsStore : IsStore zone
zone-IsStore = record { read = λ m z. refl; keep = λ z. refl; replace = λ m m' z. refl }

abbrev one_chunk : ThreadCacheUnit
one_chunk = record new { list = record { link = 0x2000; length = 1 } }

class_of_100 : get_size_class 100 ≡ ok (base 13)
unfolding get_size_class get_sizeclass_tuple2 idx_entry size_entry
class_of_100 = refl

class_of_40 : get_size_class 40 ≡ ok (base 5)
unfolding get_size_class get_sizeclass_tuple2 idx_entry size_entry
class_of_40 = refl

abbrev start : RustAllocator Memory
start = record { cache = set empty_cache 13 one_chunk; zone = λ a. 0; bytes = λ a. a % 256 }

one_chunk-IsCached : IsCached start.zone one_chunk (0x2000 ∷ []) []
unfolding bump_chunks
one_chunk-IsCached = record {
  list = record { chain = (refl, refl); distinct = (refl, tt); non_null = refl; counted = refl };
  range = refl;
  few = omega arith;
  distinct = (refl, tt);
  non_null = refl;
  small = omega arith;
}

short_new : (n k : ℕ) → (get_or new (replicate n new) k).list.length ≡ 0
short_new zero k = refl
short_new (suc n) zero = refl
short_new (suc n) (suc k) = short_new n k

short : (k : ℕ) → (get_or new start.cache k).list.length + 1 < 2 ^ 64
short k =
    rw (get_or-set new empty_cache 13 k one_chunk (omega arith)) (elim (Bool-cases (13 == k)) [
      | inl e ↦ rw e (omega arith)
      | inr e ↦ rw e (omega (arith, short_new 64 k))
    ])

found : first_aligned 16 ((0x2000 ∷ []) ++ []) ≡ 0x2000
unfolding first_aligned is_aligned
found = refl

realloc-IsMoved_example :
    (i : ℕ) × (get_size_class 40 ≡ ok (base i))
    × Returns
        (IsMoved zone 0x3000 (min 40 100) i (first_aligned 16 ((0x2000 ∷ []) ++ [])) start)
        (realloc zone 0x3000 40 16 100 start)
realloc-IsMoved_example =
    realloc-IsMoved zone zone-IsStore 0x3000 40 16 100 start (0x2000 ∷ []) []
      (λ e. absurd (omega (arith, e))) (omega arith) (omega arith) (omega arith) (omega arith)
      (λ e. let f : ok (base 5) ≡ ok (base 13) = sym class_of_40 ∙ e ∙ class_of_100 in absurd (cc))
      refl short
      (λ j e.
        let f : ok (base 13) ≡ ok (base j) = sym class_of_100 ∙ e in
        let g : 13 ≡ j = cc in
        subst (λ k. IsCached start.zone (get_or new start.cache k) (0x2000 ∷ []) []) g
          one_chunk-IsCached)
      (λ e. absurd (omega (arith, e, found)))

realloc-stays_example :
    ((realloc zone 0x2000 100 16 112 start ≡ ok (0x2000, start))
      × ((◌≡◌ {A = ℕ} 100 112) ⊎ Returns (λ r. 112 ≤ r) (get_rounded_size 100)))
    ⊎ (realloc zone 0x2000 100 16 112 start ≡ move_block zone 0x2000 100 16 112 start)
realloc-stays_example = realloc-stays zone 0x2000 100 16 112 start

-- ===== src/Cache/Examples.antt =====
-- The theorems on the cache of a thread with a small zone: it always gives the four chunks at 0x5000,
-- 16 bytes apart, and it remembers the head of the batch that came back last.
use uni_alloc.Base.{ℕ, zero, suc, ◌+◌, ◌<◌, ◌^◌, ◌≡◌, refl, true, List, [], ◌∷◌, ◌++◌, arith, some}
use uni_alloc.Base.Array.{get_or, replicate}
use uni_alloc.Base.Run.{ok, Returns, returns, ◌>>=◌}
use uni_alloc.Memory.{Memory, write, is_aligned}
use uni_alloc.Linklist.Laws.{first_aligned}
use uni_alloc.Slab.World.{as_usize}
use uni_alloc.Zone.{ZoneCalls}
use uni_alloc.Cache.{
  ThreadCacheUnit, unit_allocate, clean_up, allocate, deallocate, new, empty_cache,
}
use uni_alloc.Cache.Units.{IsStore, bump_chunks, onto}
use uni_alloc.Cache.Reuse.{IsCached, IsTaken, unit_allocate-IsTaken}
use uni_alloc.Cache.Refill.{IsRefilled, IsAnswer, unit_allocate-IsRefilled}
use uni_alloc.Cache.Cleanup.{clean_up-IsEmptied}
use uni_alloc.Cache.Trips.{allocate-deallocate}

record Desk : Type 0 where
  words : Memory
  returned : ℕ

abbrev zone : ZoneCalls Desk
zone = record {
  memory = λ z. z.words;
  with_memory = λ m z. record z { words = m };
  allocate_batch_from_slab = λ idx align z. ok ((0x5000, 4, some 16), z);
  deallocate_batch_to_slab = λ idx ptr z. ok (record z { returned = ptr });
  allocate_large = λ size z. (0x100000, z);
  deallocate_large = λ ptr size z. z;
}

zone-IsStore : IsStore zone
zone-IsStore = record { read = λ m z. refl; keep = λ z. refl; replace = λ m m' z. refl }

-- One free chunk at 0x1008, and a range of three chunks of which the second is at 0x2000.
abbrev desk : Desk
desk = record { words = λ a. 0; returned = 0 }

abbrev cached_unit : ThreadCacheUnit
cached_unit = record {
  list = record { link = 0x1008; length = 1 };
  bump_ptr = 0x1ff0;
  bump_count = 3;
  bump_unit = 16;
}

abbrev on_list : List ℕ
on_list = 0x1008 ∷ []

abbrev in_range : List ℕ
in_range = 0x1ff0 ∷ 0x2000 ∷ 0x2010 ∷ []

cached_unit-IsCached : IsCached desk.words cached_unit on_list in_range
unfolding bump_chunks as_usize
cached_unit-IsCached = record {
  list = record { chain = (refl, refl); distinct = (refl, tt); non_null = refl; counted = refl };
  range = refl;
  few = omega arith;
  distinct = (refl, (refl, (refl, (refl, tt))));
  non_null = refl;
  small = omega arith;
}

first_page : first_aligned 0x1000 (on_list ++ in_range) ≡ 0x2000
unfolding first_aligned is_aligned
first_page = refl

unit_allocate-IsTaken_example :
    Returns
      (IsTaken zone 0x1000 on_list in_range desk)
      (unit_allocate zone cached_unit 3 0x1000 desk)
unit_allocate-IsTaken_example =
    unit_allocate-IsTaken zone zone-IsStore 3 0x1000 cached_unit on_list in_range desk
      cached_unit-IsCached λ e. absurd (omega (arith, e, first_page))

none_huge : first_aligned 0x4000 (on_list ++ in_range) ≡ 0
unfolding first_aligned is_aligned
none_huge = refl

zone-answers :
    (m : Memory)
    → IsAnswer zone m 0x4000
        (in_range ++ on_list)
        (0x5010 ∷ 0x5020 ∷ 0x5030 ∷ [])
        0x5000
        ((0x5000, 4, some 16), record desk { words = m })
unfolding bump_chunks
zone-answers m = record {
  first = refl;
  batch = (refl, omega arith, omega arith);
  words = λ a h. refl;
}

unit_allocate-IsRefilled_example :
    Returns
      (IsRefilled zone 0x5000 (0x5010 ∷ 0x5020 ∷ 0x5030 ∷ []) on_list in_range)
      (unit_allocate zone cached_unit 3 0x4000 desk)
unit_allocate-IsRefilled_example =
    unit_allocate-IsRefilled zone zone-IsStore 3 0x4000 cached_unit on_list in_range desk 0x5000
      (0x5010 ∷ 0x5020 ∷ 0x5030 ∷ []) cached_unit-IsCached none_huge (omega arith)
      (refl, (refl, (refl, (refl, tt)))) refl (λ a h. ground arith)
      λ m same. returns (zone-answers m)

clean_up-IsEmptied_example :
    Returns (λ (u, z). (u ≡ new) × (z.returned ≡ 0x2010)) (clean_up zone cached_unit 3 desk)
unfolding onto
clean_up-IsEmptied_example =
    clean_up-IsEmptied zone zone-IsStore (λ z. z.returned ≡ 0x2010) 3 cached_unit on_list in_range
      desk cached_unit-IsCached (λ e. absurd (omega (arith, e)))
      λ m head pos chain same. returns (chain.0)

abbrev cache : List ThreadCacheUnit
cache = empty_cache

aligned_64 : is_aligned 64 0x7fc0 ≡ true
unfolding is_aligned
aligned_64 = refl

short : (n i : ℕ) → (get_or new (replicate n new) i).list.length + 1 < 2 ^ 64
short zero i = omega arith
short (suc n) zero = omega arith
short (suc n) (suc i) = short n i

allocate-deallocate_example :
    (v : ℕ) × ((deallocate zone 0x7fc0 100 cache desk >>= λ (t, z). allocate zone 100 64 t z)
      ≡ ok (0x7fc0, cache, zone.with_memory (write desk.words 0x7fc0 v) desk))
allocate-deallocate_example =
    allocate-deallocate zone zone-IsStore 0x7fc0 100 64 cache desk (λ e. absurd (omega (arith, e)))
      aligned_64 (omega arith) (omega arith) refl λ i. short 64 i

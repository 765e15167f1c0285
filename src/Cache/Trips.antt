-- ===== src/Cache/Trips.antt =====
-- A chunk that comes back to the cache of a thread is the next one handed out.
use uni_alloc.Base.{
  ℕ, ◌+◌, ◌<◌, ◌≤◌, ◌^◌, ◌≡◌, ◌≢◌, refl, true, false, arith, ◌==◌, length, ltb, some, get_elem?,
  set, ne→==, eq→==,
}
use uni_alloc.Base.Array.{get_or, get_elem?-get_or, set-get_or, get_elem?-set, set-set_self}
use uni_alloc.Base.Run.{ok, ◌>>=◌}
use uni_alloc.Base.Words.{add64, sub64}
use uni_alloc.Memory.{is_aligned, write}
use uni_alloc.Memory.Chain.{write_self}
use uni_alloc.Linklist.{Linklist, push_unchecked, pop_unchecked_aligned}
use uni_alloc.SizeClass.{max_size, base}
use uni_alloc.SizeClass.Rounding.{get_size_class-inside}
use uni_alloc.Zone.{ZoneCalls}
use uni_alloc.Cache.{
  ThreadCacheUnit, ThreadCache, unit_allocate, unit_deallocate, reuse, allocate, deallocate,
  allocate_class, deallocate_class, new,
}
use uni_alloc.Cache.Units.{unit, IsStore}

module _ {Z : Type 0} (c : ZoneCalls Z) (store : IsStore c) (ptr align : ℕ) (ne : ptr ≢ 0)
    (fit : is_aligned align ptr ≡ true) where
  pushed : Linklist → Linklist
  pushed l = record { link = ptr; length = add64 l.length 1 }

  unit_deallocate-pushed :
      (l : Linklist) (p n s : ℕ) (z : Z)
      → unit_deallocate c (unit l p n s) ptr z
        ≡ ok (unit (pushed l) p n s, c.with_memory (write (c.memory z) ptr l.link) z)
  unfolding unit_deallocate push_unchecked pushed
  unit_deallocate-pushed l p n s z = rw (ne→== ptr 0 ne) refl

  unit_allocate-pushed :
      (l : Linklist) (p n s idx : ℕ) (z : Z)
      → l.length + 1 < 2 ^ 64
      → unit_allocate c
          (unit (pushed l) p n s)
          idx
          align
          (c.with_memory (write (c.memory z) ptr l.link) z)
        ≡ ok (ptr, unit l p n s, c.with_memory (write (c.memory z) ptr l.link) z)
  unfolding unit_allocate reuse pop_unchecked_aligned pushed
  unit_allocate-pushed l p n s idx z small =
      let m = write (c.memory z) ptr l.link in
      let longer : ltb 0 (add64 l.length 1) ≡ true = ground arith in
      let some_chunk : (add64 l.length 1 == 0) ≡ false = ground arith in
      let back : sub64 (add64 l.length 1) 1 ≡ l.length = omega arith in
      rw
        (
          longer,
          store.read m z,
          some_chunk,
          ne→== ptr 0 ne,
          fit,
          write_self (c.memory z) ptr l.link,
          back,
          store.replace m m z,
        )
        (rw (ne→== ptr 0 ne) refl)

  after : ThreadCacheUnit → ThreadCacheUnit
  after v = unit (pushed v.list) v.bump_ptr v.bump_count v.bump_unit

  module _ (t : ThreadCache) (i : ℕ) (z : Z) (inside : i < length t) (pos : 0 < i)
      (small : (get_or new t i).list.length + 1 < 2 ^ 64) where
    deallocate_class-after :
        (size : ℕ)
        → deallocate_class c (base i) ptr size t z
          ≡ ok (
            set t i (after (get_or new t i)),
            c.with_memory (write (c.memory z) ptr (get_or new t i).list.link) z,
          )
    unfolding deallocate_class after
    deallocate_class-after size =
        let v = get_or new t i in
        let step : unit_deallocate c v ptr z
            ≡ ok (after v, c.with_memory (write (c.memory z) ptr v.list.link) z) =
          unit_deallocate-pushed v.list v.bump_ptr v.bump_count v.bump_unit z in
        rw (ne→== i 0 (omega arith), get_elem?-get_or new t i inside, step) refl

    allocate_class-after :
        (size : ℕ)
        → allocate_class c
            (base i)
            size
            align
            (set t i (after (get_or new t i)))
            (c.with_memory (write (c.memory z) ptr (get_or new t i).list.link) z)
          ≡ ok (ptr, t, c.with_memory (write (c.memory z) ptr (get_or new t i).list.link) z)
    unfolding allocate_class after
    allocate_class-after size =
        let v = get_or new t i in
        let v' = after v in
        let found : get_elem? (set t i v') i ≡ some v' =
          rw (get_elem?-set t i i v' inside, eq→== i i refl) refl in
        let step : unit_allocate c v' i align (c.with_memory (write (c.memory z) ptr v.list.link) z)
            ≡ ok (ptr, v, c.with_memory (write (c.memory z) ptr v.list.link) z) =
          unit_allocate-pushed v.list v.bump_ptr v.bump_count v.bump_unit i z small in
        rw (ne→== i 0 (omega arith), found, step, set-set_self t i v' v, set-get_or new t i) refl

-- On a store, with a cache of 64 units whose lists are shorter than 2^64 - 1 chunks, deallocating a
-- chunk and then allocating with the same size, from 1 to MAX_SIZE, and an alignment that the chunk
-- has, returns that chunk and the cache as it was; only the word of the chunk has changed.
pub allocate-deallocate :
    {Z : Type 0} (c : ZoneCalls Z)
    → IsStore c
    → (ptr size align : ℕ) (t : ThreadCache) (z : Z) → ptr ≢ 0
    → is_aligned align ptr ≡ true
    → 0 < size
    → size ≤ max_size
    → length t ≡ 64
    → ((i : ℕ) → (get_or new t i).list.length + 1 < 2 ^ 64)
    → (v : ℕ) × ((deallocate c ptr size t z >>= λ (t', z'). allocate c size align t' z')
        ≡ ok (ptr, t, c.with_memory (write (c.memory z) ptr v) z))
unfolding deallocate allocate
allocate-deallocate c store ptr size align t z ne fit pos small all few =
    let (i, s, cl, some_class, inside, best) = get_size_class-inside size pos small in
    let given =
      deallocate_class-after c store ptr align ne fit t i z (omega arith) some_class (few i) size in
    let taken =
      allocate_class-after c store ptr align ne fit t i z (omega arith) some_class (few i) size in
    ((get_or new t i).list.link, rw (cl, given, taken) refl)

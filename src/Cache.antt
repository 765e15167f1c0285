-- ===== src/Cache.antt =====
-- unialloc/src/cache/thread_cache.rs: the cache of one thread, with a unit for each size class. A
-- unit keeps a free list and a range of chunks that are still to be cut from a slab. Its zone is the
-- argument `c`, and the words of the chunks are part of the zone's state.
pub mod Units
pub mod Reuse
pub mod Refill
pub mod Cleanup
pub mod Trips
pub mod Joined
mod Examples
use uni_alloc.Base.{
  ℕ, zero, suc, ◌+◌, ◌-◌, ◌%◌, ◌^◌, Bool, not, ◌&&◌, ltb, ◌==◌, if◌then◌else◌, List, [], ◌∷◌,
  Option, none, some, get_elem?, set,
}
use uni_alloc.Base.Run.{Run, ok, panic, out_of_fuel, assert, expect, ◌>>=◌, ◌>>◌}
use uni_alloc.Base.Array.{replicate}
use uni_alloc.Base.Words.{add64, sub64}
use uni_alloc.Memory.{Memory, is_aligned}
use uni_alloc.Linklist.{Linklist, push_unchecked, pop_unchecked_aligned}
use uni_alloc.Linklist
use uni_alloc.SizeClass.{SizeClass, base, large, get_size_class, total_size_class}
use uni_alloc.Slab.World.{as_usize}
use uni_alloc.Zone.{ZoneCalls}

-- `bump_count` and `bump_unit` are `i32` values as bit patterns.
pub record ThreadCacheUnit : Type 0 where
  pub list : Linklist
  pub bump_ptr : ℕ
  pub bump_count : ℕ
  pub bump_unit : ℕ

abbrev pub new : ThreadCacheUnit
new = record { list = Linklist.new; bump_ptr = 0; bump_count = 0; bump_unit = 0 }

-- `x > 0` for an `i32`.
unfoldable pub is_positive : ℕ → Bool
is_positive x = ltb 0 x && ltb x (2 ^ 31)

-- `bump_ptr += bump_unit as usize; bump_count -= 1`
unfoldable pub advance : ThreadCacheUnit → ThreadCacheUnit
advance u = record u {
  bump_ptr = add64 u.bump_ptr (as_usize u.bump_unit);
  bump_count = (u.bump_count + 2 ^ 32 - 1) % 2 ^ 32;
}

abbrev pub ThreadCache : Type 0
ThreadCache = List ThreadCacheUnit

abbrev pub empty_cache : ThreadCache
empty_cache = replicate total_size_class new

module _ {Z : Type 0} (c : ZoneCalls Z) where
  unfoldable pub free : ThreadCacheUnit → ℕ → Z → Run (ThreadCacheUnit × Z)
  free u ptr z = do
    (l, m) ← push_unchecked u.list ptr (c.memory z)
    ok (record u { list = l }, c.with_memory m z)

  -- The loop of `clean_up`. The count falls in every round, so one round more than it is enough.
  pub drain : ℕ → ThreadCacheUnit → Z → Run (ThreadCacheUnit × Z)
  drain zero u z = out_of_fuel
  drain (suc fuel) u z =
      let round = do (u', z') ← free u u.bump_ptr z; drain fuel (advance u') z'
      in if is_positive u.bump_count then round else ok (u, z)

  unfoldable pub clean_up : ThreadCacheUnit → ℕ → Z → Run (ThreadCacheUnit × Z)
  clean_up u idx z = do
    (u', z') ← drain (suc u.bump_count) u z
    z'' ← if ltb 0 u'.list.length then c.deallocate_batch_to_slab idx u'.list.link z' else ok z'
    ok (new, z'')

  -- The code behind the `return` of `deallocate` is never run.
  unfoldable pub unit_deallocate : ThreadCacheUnit → ℕ → Z → Run (ThreadCacheUnit × Z)
  unit_deallocate u ptr z = do
    (l, m) ← push_unchecked u.list ptr (c.memory z)
    ok (record u { list = l }, c.with_memory m z)

  -- Case 1 of `allocate`: a chunk of the free list, or null.
  unfoldable pub reuse : ThreadCacheUnit → ℕ → Z → Run (ℕ × ThreadCacheUnit × Z)
  reuse u align z =
      let popped = do
        (ans, l, m) ← pop_unchecked_aligned u.list align (c.memory z)
        ok (ans, record u { list = l }, c.with_memory m z)
      in if ltb 0 u.list.length then popped else ok (0, u, z)

  -- Case 2, the loop over the range: chunks without the alignment go to the free list.
  pub skim : ℕ → ℕ → ℕ → ThreadCacheUnit → Z → Run (ℕ × ThreadCacheUnit × Z)
  skim zero align ans u z = out_of_fuel
  skim (suc fuel) align ans u z =
      let round = do
        (ans', u', z') ←
            if is_aligned align u.bump_ptr
            then ok (u.bump_ptr, u, z)
            else do (u', z') ← free u u.bump_ptr z; ok (ans, u', z')
        skim fuel align ans' (advance u') z'
      in if is_positive u.bump_count && ans == 0 then round else ok (ans, u, z)

  -- The batch that the zone gave: `ptr` is handed out, and the unit keeps the rest.
  unfoldable pub keep_rest : ℕ × ℕ × Option ℕ → ThreadCacheUnit → Z → Run (ℕ × ThreadCacheUnit × Z)
  keep_rest (ptr, count, some bump) u z = do
    assert (not (ptr == 0))
    ok (
      ptr,
      record u {
        bump_ptr = add64 ptr bump;
        bump_count = sub64 count 1 % 2 ^ 32;
        bump_unit = bump % 2 ^ 32;
      },
      z,
    )
  keep_rest (ptr, count, none) u z = do
    assert (u.list.length == 0)
    assert (not (ptr == 0))
    ok (ptr, record u { list = record { link = c.memory z ptr; length = sub64 count 1 } }, z)

  unfoldable pub refill : ThreadCacheUnit → ℕ → ℕ → Z → Run (ℕ × ThreadCacheUnit × Z)
  refill u idx align z = do
    (batch, z') ← c.allocate_batch_from_slab idx align z
    keep_rest batch u z'

  unfoldable pub unit_allocate : ThreadCacheUnit → ℕ → ℕ → Z → Run (ℕ × ThreadCacheUnit × Z)
  unit_allocate u idx align z = do
    (reused, u1, z1) ← reuse u align z
    let rest = do
      (ans, u2, z2) ← skim (suc u1.bump_count) align 0 u1 z1
      if ans == 0 then refill u2 idx align z2 else ok (ans, u2, z2)
      in if reused == 0 then rest else ok (reused, u1, z1)

  -- The loop of `cleanup_cache_unchecked` over the units from `idx` on.
  pub clean_units : ℕ → List ThreadCacheUnit → Z → Run (List ThreadCacheUnit × Z)
  clean_units idx [] z = ok ([], z)
  clean_units idx (u ∷ us) z = do
    (u', z1) ← clean_up u idx z
    (us', z2) ← clean_units (suc idx) us z1
    ok (u' ∷ us', z2)

  unfoldable pub cleanup_cache_unchecked : ThreadCache → Z → Run (ThreadCache × Z)
  cleanup_cache_unchecked [] z = ok ([], z)
  cleanup_cache_unchecked (u ∷ us) z = do (us', z') ← clean_units 1 us z; ok (u ∷ us', z')

  -- By the class of the size. The zone never refuses a large request.
  unfoldable pub allocate_class : SizeClass → ℕ → ℕ → ThreadCache → Z → Run (ℕ × ThreadCache × Z)
  allocate_class (base idx) size align t z =
      let cached = do
        u ← expect (get_elem? t idx)
        (ans, u', z') ← unit_allocate u idx align z
        ok (ans, set t idx u', z')
      in if idx == 0 then ok (0x100000000000, t, z) else cached
  allocate_class (large cl) size align t z =
      let (ans, z') = c.allocate_large size z in ok (ans, t, z')

  unfoldable pub allocate : ℕ → ℕ → ThreadCache → Z → Run (ℕ × ThreadCache × Z)
  allocate size align t z = do cls ← get_size_class size; allocate_class cls size align t z

  unfoldable pub deallocate_class : SizeClass → ℕ → ℕ → ThreadCache → Z → Run (ThreadCache × Z)
  deallocate_class (base idx) ptr size t z =
      let cached = do
        u ← expect (get_elem? t idx)
        (u', z') ← unit_deallocate u ptr z
        ok (set t idx u', z')
      in if idx == 0 then ok (t, z) else cached
  deallocate_class (large cl) ptr size t z = ok (t, c.deallocate_large ptr size z)

  unfoldable pub deallocate : ℕ → ℕ → ThreadCache → Z → Run (ThreadCache × Z)
  deallocate ptr size t z = do cls ← get_size_class size; deallocate_class cls ptr size t z

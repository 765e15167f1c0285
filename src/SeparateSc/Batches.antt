-- ===== src/SeparateSc/Batches.antt =====
-- The operations of separate_sc.rs on batches of chunks.
use uni_alloc.Base.{
  ℕ, zero, suc, ◌+◌, ◌-◌, ◌^◌, not, ◌&&◌, ltb, leb, ◌==◌, if◌then◌else◌, List, Option, none, some,
  length, get_elem?, set,
}
use uni_alloc.Base.Run.{Run, ok, out_of_fuel, assert, expect, ◌>>=◌, ◌>>◌}
use uni_alloc.Base.Words.{add64, sub64, mul64}
use uni_alloc.Radix.Head.{RadixTree}
use uni_alloc.Radix.Head
use uni_alloc.Radix.Slabs.{align_12k, handle_rd_tree_insert}
use uni_alloc.SeparatePage.{ObjectPage, is_full}
use uni_alloc.SeparatePage
use uni_alloc.SeparateSc.{ScAllocator}
use uni_alloc.SeparateSc.Lists.{remove_partial, insert_full, insert_partial}
use uni_alloc.SeparateSc.Chunks.{
  header, set_header, field, set_field, drop, get_empty, search_partial, relist,
}
use uni_alloc.SeparateSc.Chunks

abbrev min : ℕ → ℕ → ℕ
min a b = if leb a b then a else b

-- `res_array[allocated + i] = ptr + i * pg_align` for the `left` indices from `i` on.
pub fill_all : ℕ → ℕ → ℕ → ℕ → ℕ → List ℕ → Run (List ℕ)
fill_all zero i allocated ptr pg_align res_array = ok res_array
fill_all (suc left) i allocated ptr pg_align res_array = do
  assert (ltb (allocated + i) (length res_array))
  fill_all left (suc i) allocated ptr pg_align
      (set res_array (allocated + i) (add64 ptr (mul64 i pg_align)))

-- `obj.allocate_batch` on the header at `idx` and its bit field.
unfoldable pub batch_in :
    ScAllocator → ℕ → List ℕ → ℕ → ℕ → Run (ℕ × List ℕ × ObjectPage × ScAllocator)
batch_in s idx res_array start count = do
  page ← header s idx
  words ← field s idx
  (n, res_array', page', words') ←
      SeparatePage.allocate_batch page res_array start count words s.pg_count s.pg_align
  ok (n, res_array', page', set_field (set_header s idx page') idx words')

-- `obj.allocate_all` on the header at `idx` and its bit field.
unfoldable pub all_in : ScAllocator → ℕ → Run (ℕ × ObjectPage × ScAllocator)
all_in s idx = do
  page ← header s idx
  words ← field s idx
  let (ptr, page', words') = SeparatePage.allocate_all page words s.pg_count
  ok (ptr, page', set_field (set_header s idx page') idx words')

-- The first loop of `allocate_batch_v2`, over partial slabs. A round hands out at least one chunk, so
-- one round more than `count` is enough.
pub batch_partial : ℕ → ScAllocator → List ℕ → ℕ → ℕ → Run (ℕ × List ℕ × ScAllocator)
batch_partial zero s res_array allocated count = out_of_fuel
batch_partial (suc fuel) s res_array allocated count =
    let round = do
      let cur_idx = s.partial_start
      (n, res_array', page, s1) ← batch_in s cur_idx res_array allocated (count - allocated)
      s2 ←
          if is_full page s1.pg_count
          then (remove_partial s1 cur_idx >>= λ s'. insert_full s' cur_idx)
          else ok s1
      batch_partial fuel s2 res_array' (allocated + n) count
    in if ltb 0 s.partial_count && ltb allocated count then round else ok (allocated, res_array, s)

module _ {Backend : Type 0} (page_bits : ℕ)
    (alloc : RadixTree × Backend → ℕ → ℕ × (RadixTree × Backend))
    (dealloc : RadixTree × Backend → ℕ → ℕ → RadixTree × Backend) where
  -- A slab that came from the backend is entered in the tree.
  unfoldable pub enter_new : ScAllocator → ℕ → Option ℕ → RadixTree → Run RadixTree
  enter_new s idx none ptr_map = ok ptr_map
  enter_new s idx (some a) ptr_map = handle_rd_tree_insert page_bits s.pg_num ptr_map (idx + 1) a

  -- The second loop, over empty slabs, of which each has at least one chunk.
  pub batch_empty :
      ℕ
      → ScAllocator
      → List ℕ
      → ℕ
      → ℕ
      → RadixTree
      → Backend
      → Run (ℕ × List ℕ × ScAllocator × RadixTree × Backend)
  batch_empty zero s res_array allocated count ptr_map b = out_of_fuel
  batch_empty (suc fuel) s res_array allocated count ptr_map b =
      let round = do
        (idx, addr, s1, (t1, b1)) ← get_empty page_bits alloc dealloc s (ptr_map, b)
        let whole = do
          (ptr, page, s2) ← all_in s1 idx
          res_array' ← fill_all s2.pg_count 0 allocated ptr s2.pg_align res_array
          s3 ← insert_full s2 idx
          ok (s2.pg_count, res_array', s3)
        let part = do
          (n, res_array', page, s2) ← batch_in s1 idx res_array allocated (count - allocated)
          s3 ← insert_partial s2 idx
          ok (n, res_array', s3)
        (n, res_array', s3) ← if leb s1.pg_count (count - allocated) then whole else part
        ptr_map' ← enter_new s3 idx addr t1
        batch_empty fuel s3 res_array' (allocated + n) count ptr_map' b1
      in if ltb allocated count then round else ok (allocated, res_array, s, ptr_map, b)

  -- `none` is the error ESIZE. The array and the first chunk, which is its last entry.
  unfoldable pub allocate_batch_v2 :
      ScAllocator
      → RadixTree
      → List ℕ
      → ℕ
      → Backend
      → Run (Option (ℕ × List ℕ) × ScAllocator × RadixTree × Backend)
  allocate_batch_v2 s ptr_map res_array count_p b =
      let count = min count_p (length res_array) in
      let filled = do
        (res, s1, ptr_map1, b1) ← Chunks.allocate page_bits alloc dealloc s 1 ptr_map b
        assert (not (res == 0))
        (n, array1, s2) ← batch_partial count s1 (set res_array (count - 1) res) 0 (count - 1)
        (n', array2, s3, ptr_map2, b2) ← batch_empty count s2 array1 n (count - 1) ptr_map1 b1
        assert (n' == count - 1)
        ok (some (res, array2), s3, ptr_map2, b2)
      in if count == 0 then ok (none, s, ptr_map, b) else filled

  -- A chunk of a partial slab, with the count 0, or a whole slab with its number of chunks. A null
  -- answer is the error ENOMEM.
  unfoldable pub allocate_batch :
      ScAllocator → ℕ → RadixTree → Backend → Run ((ℕ × ℕ × ℕ) × ScAllocator × RadixTree × Backend)
  allocate_batch s align ptr_map b = do
    (found, s0) ←
        if ltb 0 s.partial_count
        then search_partial page_bits alloc dealloc s.partial_count s s.partial_start align
        else ok (0, s)
    let whole = do
      (idx, addr, s1, (t1, b1)) ← get_empty page_bits alloc dealloc s0 (ptr_map, b)
      (ptr, page, s2) ← all_in s1 idx
      s3 ← if is_full page s2.pg_count then insert_full s2 idx else insert_partial s2 idx
      ptr_map' ← enter_new s3 idx addr t1
      ok ((ptr, s3.pg_align, s3.pg_count), s3, ptr_map', b1)
    if found == 0 then whole else ok ((found, s0.pg_align, 0), s0, ptr_map, b)

  -- The loop of `deallocate_batch` on what is left of the array. A round takes back at least one
  -- chunk, so one round more than `count` is enough.
  pub back_from :
      ℕ
      → ScAllocator
      → List ℕ
      → ℕ
      → ℕ
      → RadixTree
      → Backend
      → Run (ScAllocator × RadixTree × Backend)
  back_from zero s res_array deallocated count ptr_map b = out_of_fuel
  back_from (suc fuel) s res_array deallocated count ptr_map b =
      let round = do
        ptr ← expect (get_elem? res_array deallocated)
        let idx = sub64 (Head.get_mut (mul64 (align_12k page_bits ptr) (2 ^ 16)) ptr_map) 1
        page ← header s idx
        words ← field s idx
        (t, page', words') ←
            SeparatePage.deallocate_batch (2 ^ page_bits) page (drop deallocated res_array) words
              s.pg_align s.pg_num
        assert (not (t == 0))
        let s1 = set_field (set_header s idx page') idx words'
        (s2, ptr_map', b') ← relist page_bits alloc dealloc s1 idx page page' ptr_map b
        back_from fuel s2 res_array (deallocated + t) count ptr_map' b'
      in if ltb deallocated count then round else ok (s, ptr_map, b)

  unfoldable pub deallocate_batch :
      ScAllocator → List ℕ → ℕ → RadixTree → Backend → Run (ScAllocator × RadixTree × Backend)
  deallocate_batch s res_array count_p ptr_map b =
      let count = min count_p (length res_array) in
      if count == 0 then ok (s, ptr_map, b) else back_from (suc count) s res_array 0 count ptr_map b

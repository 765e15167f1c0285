-- ===== src/SeparateSc/Chunks.antt =====
-- The operations of separate_sc.rs on single chunks, with the headers and bit fields by index.
use uni_alloc.Base.{
  ℕ, zero, suc, ◌+◌, ◌-◌, ◌*◌, ◌/◌, ◌^◌, ◌&&◌, ltb, leb, ◌==◌, if◌then◌else◌, List, [], ◌∷◌, ◌++◌,
  Option, none, some, length, get_elem?, set,
}
use uni_alloc.Base.Array.{replicate, take}
use uni_alloc.Base.Run.{Run, ok, panic, out_of_fuel, assert, expect, ◌>>=◌, ◌>>◌}
use uni_alloc.Base.Words.{add64, sub64, mul64}
use uni_alloc.ArrayList.{push, get_next}
use uni_alloc.Radix.Head.{RadixTree}
use uni_alloc.Radix.Head
use uni_alloc.Radix.Slabs.{align_12k, handle_rd_tree_insert, handle_rd_tree_remove}
use uni_alloc.SeparatePage.{
  ObjectPage, is_full, is_empty, get_data_ptr, allocate_page, destroy_page,
}
use uni_alloc.SeparatePage
use uni_alloc.SeparateSc.{ScAllocator}
use uni_alloc.SeparateSc.Lists.{
  remove_full, insert_full, insert_partial, remove_partial, remove_uninit, take_empty, keep_uninit,
  keep_empty,
}

-- `pages.get_mut(idx).expect(..)`, and a write through it.
unfoldable pub header : ScAllocator → ℕ → Run ObjectPage
header s idx = expect (get_elem? s.pages.items idx)

unfoldable pub set_header : ScAllocator → ℕ → ObjectPage → ScAllocator
set_header s idx page = record s { pages = record s.pages { items = set s.pages.items idx page } }

-- The words of a bit field for one slab.
unfoldable pub field_words : ScAllocator → ℕ
field_words s = (s.pg_count + 32 - 1) / 32

abbrev pub drop : ℕ → List ℕ → List ℕ
drop zero xs = xs
drop (suc n) [] = []
drop (suc n) (x ∷ xs) = drop n xs

-- `&mut bitfields[idx * n..(idx + 1) * n]`; a slice that does not end inside panics.
unfoldable pub field : ScAllocator → ℕ → Run (List ℕ)
field s idx =
    let n = field_words s in
    if leb ((idx + 1) * n) (length s.bitfields)
    then ok (take n (drop (idx * n) s.bitfields))
    else panic

unfoldable pub set_field : ScAllocator → ℕ → List ℕ → ScAllocator
set_field s idx words =
    let n = field_words s in
    record s {
      bitfields = take (idx * n) s.bitfields ++ (words ++ drop ((idx + 1) * n) s.bitfields);
    }

module _ {Backend : Type 0} (page_bits : ℕ) (alloc : Backend → ℕ → ℕ × Backend)
    (dealloc : Backend → ℕ → ℕ → Backend) where
  abbrev page_size : ℕ
  page_size = 2 ^ page_bits

  unfoldable pub get_uninit : ScAllocator → Backend → Run (ℕ × ℕ × ScAllocator × Backend)
  get_uninit s b = do
    let pushed = record s {
      pages = push s.pages SeparatePage.new;
      bitfields = s.bitfields ++ replicate (field_words s) 0;
      uninit_start = length s.pages.items;
      uninit_count = add64 s.uninit_count 1;
    }
    let s1 = if s.uninit_count == 0 then pushed else s
    s2 ← remove_uninit s1 s1.uninit_start
    page ← header s2 s1.uninit_start
    (ptr, page', b') ← allocate_page page_size alloc dealloc page s2.pg_num b
    ok (s1.uninit_start, ptr, set_header s2 s1.uninit_start page', b')

  unfoldable pub get_empty : ScAllocator → Backend → Run (ℕ × Option ℕ × ScAllocator × Backend)
  get_empty s b =
      let kept = (do (idx, s') ← take_empty s; ok (idx, none, s', b)) in
      let made = (do (idx, ptr, s', b') ← get_uninit s b; ok (idx, some ptr, s', b')) in
      if ltb 0 s.empty_count then kept else made

  unfoldable pub back_uninit : ScAllocator → ℕ → Backend → Run (ℕ × ScAllocator × Backend)
  back_uninit s idx b = do
    s1 ← keep_uninit s idx
    page ← header s1 idx
    (ptr, page', b') ← destroy_page page_size alloc dealloc page s1.pg_num b
    ok (ptr, set_header s1 idx page', b')

  unfoldable pub try_back_ety : ScAllocator → ℕ → Run (Option ℕ)
  try_back_ety s idx =
      let given = (do page ← header s idx; ptr ← get_data_ptr page; ok (some ptr)) in
      if ltb 2048 s.empty_count then given else ok none

  unfoldable pub back_ety : ScAllocator → ℕ → Backend → Run (Option ℕ × ScAllocator × Backend)
  back_ety s idx b =
      let given = (do (ptr, s', b') ← back_uninit s idx b; ok (some ptr, s', b')) in
      let kept = (do s' ← keep_empty s idx; ok (none, s', b)) in
      if ltb 2048 s.empty_count then given else kept

  -- `obj.allocate` on the header at `idx` and its bit field.
  unfoldable pub allocate_in : ScAllocator → ℕ → ℕ → Run (ℕ × ObjectPage × ScAllocator)
  allocate_in s idx align = do
    page ← header s idx
    words ← field s idx
    let (ptr, page', words') =
        SeparatePage.allocate page_size page align words s.pg_count s.pg_align s.pg_num
    ok (ptr, page', set_field (set_header s idx page') idx words')

  -- The search of the partial list from `head` on. A round goes to the next header, so as many
  -- rounds as the list has headers are enough.
  pub search_partial : ℕ → ScAllocator → ℕ → ℕ → Run (ℕ × ScAllocator)
  search_partial zero s head align = out_of_fuel
  search_partial (suc fuel) s head align = do
    (ptr, page, s1) ← allocate_in s head align
    let next = do
      head' ← get_next s1.pages head
      if head' == s1.partial_start then ok (0, s1) else search_partial fuel s1 head' align
    let filled = do s2 ← remove_partial s1 head; s3 ← insert_full s2 head; ok (ptr, s3)
    if ptr == 0 then next else if is_full page s1.pg_count then filled else ok (ptr, s1)

-- The backend marks its free blocks in the tree that the slabs are entered in, so its calls get the
-- tree and may change it.
module _ {Backend : Type 0} (page_bits : ℕ)
    (alloc : RadixTree × Backend → ℕ → ℕ × (RadixTree × Backend))
    (dealloc : RadixTree × Backend → ℕ → ℕ → RadixTree × Backend) where
  -- A null answer is the error ENOMEM.
  unfoldable pub allocate :
      ScAllocator → ℕ → RadixTree → Backend → Run (ℕ × ScAllocator × RadixTree × Backend)
  allocate s align ptr_map b = do
    (found, s0) ←
        if ltb 0 s.partial_count
        then search_partial page_bits alloc dealloc s.partial_count s s.partial_start align
        else ok (0, s)
    let new_slab = do
      (idx, addr, s1, (t1, b1)) ← get_empty page_bits alloc dealloc s0 (ptr_map, b)
      (ptr, page, s2) ← allocate_in page_bits alloc dealloc s1 idx align
      s3 ← if is_full page s2.pg_count then insert_full s2 idx else insert_partial s2 idx
      ptr_map' ← elim addr [
        | none ↦ ok t1
        | some a ↦ handle_rd_tree_insert page_bits s3.pg_num t1 (idx + 1) a
      ]
      ok (ptr, s3, ptr_map', b1)
    if found == 0 then new_slab else ok (found, s0, ptr_map, b)

  -- A slab that became empty goes to the empty list, or back to the backend and out of the tree.
  unfoldable pub release :
      ScAllocator → ℕ → RadixTree → Backend → Run (ScAllocator × RadixTree × Backend)
  release s idx ptr_map b = do
    p ← try_back_ety page_bits alloc dealloc s idx
    ptr_map' ← elim p [
      | none ↦ ok ptr_map
      | some a ↦ handle_rd_tree_remove page_bits s.pg_num ptr_map a
    ]
    (_, s', (t', b')) ← back_ety page_bits alloc dealloc s idx (ptr_map', b)
    ok (s', t', b')

  -- The list of the header at `idx` after chunks came back: `page` is the header before, `page'` after.
  unfoldable pub relist :
      ScAllocator
      → ℕ
      → ObjectPage
      → ObjectPage
      → RadixTree
      → Backend
      → Run (ScAllocator × RadixTree × Backend)
  relist s idx page page' ptr_map b =
      let from_full = do
        s2 ← remove_full s idx
        if is_empty page'
            then release s2 idx ptr_map b
            else do s3 ← insert_partial s2 idx; ok (s3, ptr_map, b)
      in let from_partial = do s2 ← remove_partial s idx; release s2 idx ptr_map b
        in if is_full page s.pg_count
          then from_full
          else if is_empty page'
          then from_partial
          else ok (s, ptr_map, b)

  -- The tree holds the index plus 1, as an `i64`; 0 means that the address is in no slab.
  unfoldable pub deallocate :
      ScAllocator → ℕ → RadixTree → Backend → Run (ScAllocator × RadixTree × Backend)
  deallocate s ptr ptr_map b = do
    let entry = Head.get_mut (mul64 (align_12k page_bits ptr) (2 ^ 16)) ptr_map
    assert (ltb 0 entry && ltb entry (2 ^ 63))
    let idx = sub64 entry 1
    page ← header s idx
    words ← field s idx
    (page', words') ← SeparatePage.deallocate page ptr words s.pg_align >>= λ r. expect r
    let s1 = set_field (set_header s idx page') idx words'
    relist s1 idx page page' ptr_map b

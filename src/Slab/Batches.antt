-- ===== src/Slab/Batches.antt =====
-- The operations of efficient_sc.rs that move slabs between the lists and the backend, and the two
-- that the thread caches call, `allocate_batch_v2` and `deallocate_batch`.
pub mod Moves
pub mod Returned
pub mod Released
pub mod Reused
pub mod Renewed
mod Examples
use uni_alloc.Base.{
  ℕ, zero, suc, ◌+◌, ◌*◌, ◌%◌, ◌^◌, Bool, not, ◌&&◌, ltb, ◌==◌, if◌then◌else◌, Option, none, some,
}
use uni_alloc.Base.Run.{Run, ok, panic, out_of_fuel, assert, ◌>>=◌, ◌>>◌}
use uni_alloc.Base.Words.{add64, mul64}
use uni_alloc.Page.{ObjectPage, allocate_all, deallocate, is_full, is_empty}
use uni_alloc.Page
use uni_alloc.Page.Backing.{allocate_page, destroy_page}
use uni_alloc.Radix.Head
use uni_alloc.Radix.Slabs.{align_12k, handle_rd_tree_insert, handle_rd_tree_remove}
use uni_alloc.Bump.Pages
use uni_alloc.Slab.Defs.{ScAllocator, null}
use uni_alloc.Slab.Lists.{
  Headers, link, remove_full, insert_full, insert_partial, remove_partial, remove_uninit,
  remove_empty, try_insert_ety,
}
use uni_alloc.Slab.World.{World, Platform, as_usize, write_page}

module _ {Os Backend : Type 0} (c : Platform Os Backend) where
  abbrev page_size : ℕ
  page_size = 2 ^ c.page_bits

  -- The header at `idx` takes a slab from the backend; the address of the slab is returned too.
  unfoldable pub back_page :
      ScAllocator → ℕ → World Os Backend → Run (ℕ × ℕ × ScAllocator × World Os Backend)
  back_page s idx w = do
    (ptr, page, (t, b)) ←
        allocate_page page_size c.alloc c.dealloc (w.headers idx) s.pg_num (w.ptr_map, w.backend)
    ok (idx, ptr, s, record w { headers = write_page w.headers idx page; ptr_map = t; backend = b })

  -- A header from the uninit list or a new one, with a slab of its own.
  unfoldable pub get_uninit :
      ScAllocator → World Os Backend → Run (ℕ × ℕ × ScAllocator × World Os Backend)
  get_uninit s w =
      let used = do
        (idx, s', h) ← remove_uninit s w.headers
        back_page s' idx (record w { headers = h })
      in let fresh = do
        (memory, bump, os) ← Pages.alloc c.mmap c.header c.per_mapping w.pg_bump c.header w.os
        assert (not (memory == null))
        let h = write_page w.headers memory Page.new
        back_page s memory (record w { headers = h; pg_bump = bump; os = os })
        in if not (s.uninit_start == null) then used else fresh

  unfoldable pub get_empty :
      ScAllocator → World Os Backend → Run (ℕ × Option ℕ × ScAllocator × World Os Backend)
  get_empty s w =
      let kept = do
        (idx, s', h) ← remove_empty s w.headers
        ok (idx, none, s', record w { headers = h })
      in let made = do (idx, ptr, s', w') ← get_uninit s w; ok (idx, some ptr, s', w')
        in if not (s.empty_start == null) then kept else made

  unfoldable pub insert_uninit :
      ScAllocator → ℕ → World Os Backend → Run (ℕ × ScAllocator × World Os Backend)
  insert_uninit s idx w = do
    (head, h) ← link s.uninit_start idx w.headers
    (ptr, page, (t, b)) ←
        destroy_page page_size c.alloc c.dealloc (h idx) s.pg_num (w.ptr_map, w.backend)
    ok (
      ptr,
      record s { uninit_start = head },
      record w { headers = write_page h idx page; ptr_map = t; backend = b },
    )

  unfoldable pub insert_ety :
      ScAllocator → ℕ → World Os Backend → Run (Option ℕ × ScAllocator × World Os Backend)
  insert_ety s idx w =
      let given_back = do (ptr, s', w') ← insert_uninit s idx w; ok (some ptr, s', w')
      in let kept = do
        (head, h) ← link s.empty_start idx w.headers
        ok (
          none,
          record s { empty_start = head; empty_count = add64 s.empty_count 1 },
          record w { headers = h },
        )
        in if ltb 2048 s.empty_count then given_back else kept

  -- `allocate_all` on the header at `idx`, which then joins the full list.
  unfoldable pub hand_out :
      ScAllocator → ℕ → World Os Backend → Run ((ℕ × ℕ × Option ℕ) × World Os Backend)
  hand_out s idx w =
      let (page, ans) = allocate_all (w.headers idx) (as_usize s.pg_count) (as_usize s.pg_align) in
      ok (ans, record w { headers = write_page w.headers idx page })

  -- A slab that came from the backend is entered in the tree.
  unfoldable pub enter_new : ScAllocator → ℕ → Option ℕ → World Os Backend → Run (World Os Backend)
  enter_new s idx none w = ok w
  enter_new s idx (some addr) w = do
    t ← handle_rd_tree_insert c.page_bits s.pg_num w.ptr_map idx addr
    ok (record w { ptr_map = t })

  unfoldable pub allocate_batch_v2 :
      ScAllocator → ℕ → World Os Backend → Run ((ℕ × ℕ × Option ℕ) × ScAllocator × World Os Backend)
  allocate_batch_v2 s align w =
      let from_partial = do
        let idx = s.partial_start
        (ans, w1) ← hand_out s idx w
        (s1, h1) ← remove_partial s idx w1.headers
        (s2, h2) ← insert_full s1 idx h1
        ok (ans, s2, record w1 { headers = h2 })
      in let from_empty = do
        (idx, new_page, s1, w1) ← get_empty s w
        (ans, w2) ← hand_out s1 idx w1
        w3 ← enter_new s1 idx new_page w2
        (s2, h) ← insert_full s1 idx w3.headers
        ok (ans, s2, record w3 { headers = h })
        in if not (s.partial_start == null) && (align == 1) then from_partial else from_empty

  -- A slab that goes back to the backend leaves the tree.
  unfoldable pub leave_tree : ScAllocator → Option ℕ → World Os Backend → Run (World Os Backend)
  leave_tree s none w = ok w
  leave_tree s (some p) w = do
    t ← handle_rd_tree_remove c.page_bits s.pg_num w.ptr_map p
    ok (record w { ptr_map = t })

  -- The list of the header at `idx` after chunks came back to it; `back_partial` says that it was
  -- full before.
  unfoldable pub relist :
      ScAllocator → ℕ → Bool → World Os Backend → Run (ScAllocator × World Os Backend)
  relist s idx back_partial w =
      let emptied = do
        (s1, h1) ←
            if back_partial then remove_full s idx w.headers else remove_partial s idx w.headers
        p ← try_insert_ety s1 idx h1
        w1 ← leave_tree s1 p (record w { headers = h1 })
        (_, s2, w2) ← insert_ety s1 idx w1
        ok (s2, w2)
      in let reopened = do
        (s1, h1) ← remove_full s idx w.headers
        (s2, h2) ← insert_partial s1 idx h1
        ok (s2, record w { headers = h2 })
        in if is_empty (w.headers idx)
          then emptied
          else if back_partial
          then reopened
          else ok (s, w)

  -- The header that the tree has for the address; the upper 16 bits are not part of it.
  unfoldable pub header_of : ℕ → World Os Backend → ℕ
  header_of head w = Head.get_mut (mul64 (align_12k c.page_bits head) (2 ^ 16)) w.ptr_map % 2 ^ 48

  -- One round: the chunks from `head` on that lie in one slab go back to it.
  unfoldable pub take_back :
      ScAllocator → ℕ → World Os Backend → Run (ℕ × ScAllocator × World Os Backend)
  take_back s head w = do
    let idx = header_of head w
    assert (not (idx == 0))
    let back_partial = is_full (w.headers idx) (as_usize s.pg_count)
    (next, page, m) ← deallocate page_size (w.headers idx) head s.pg_num w.memory
    let w1 = record w { headers = write_page w.headers idx page; memory = m }
    (s', w') ← relist s idx back_partial w1
    ok (next, s', w')

  -- Every round takes back at least one chunk, so as many rounds as the batch has chunks are enough,
  -- and one more to see its end.
  pub deallocate_batch :
      ℕ → ScAllocator → ℕ → World Os Backend → Run (ScAllocator × World Os Backend)
  deallocate_batch zero s head w = out_of_fuel
  deallocate_batch (suc fuel) s head w =
      let round = do (next, s', w') ← take_back s head w; deallocate_batch fuel s' next w'
      in if head == 0 then ok (s, w) else round

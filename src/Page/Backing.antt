-- ===== src/Page/Backing.antt =====
-- `allocate_page` and `destroy_page`: a header takes its slab from the backend and gives it back.
-- The backend is the allocator of freelist/mod.rs; a call of it is an argument here, `alloc` with
-- the size in bytes, which answers 0 when it fails, and `dealloc` with the address and the size.
-- `Backend` is all the state that these calls may change, in the slab allocators also the radix tree.
use uni_alloc.Base.{ℕ, not, ◌==◌, if◌then◌else◌}
use uni_alloc.Base.Run.{Run, ok, panic, assert, ◌>>◌}
use uni_alloc.Base.Words.{mul64}
use uni_alloc.Page.{ObjectPage, is_inited}

module _ {Backend : Type 0} (page_size : ℕ) (alloc : Backend → ℕ → ℕ × Backend)
    (dealloc : Backend → ℕ → ℕ → Backend) where
  unfoldable pub allocate_page : ObjectPage → ℕ → Backend → Run (ℕ × ObjectPage × Backend)
  allocate_page s pg_num b = do
    let (ans, b') = alloc b (mul64 page_size pg_num)
    assert (not (ans == 0))
    ok (ans, record s { data_start = ans; ptr = 0; counter = 0 }, b')

  unfoldable pub destroy_page : ObjectPage → ℕ → Backend → Run (ℕ × ObjectPage × Backend)
  destroy_page s pg_num b =
      if is_inited s
      then ok (
        s.data_start,
        record s { data_start = 0; ptr = 0; counter = 0 },
        dealloc b s.data_start (mul64 page_size pg_num),
      )
      else panic

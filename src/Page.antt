-- ===== src/Page.antt =====
-- unialloc/src/page/efficient_page.rs: the header of one slab, with the free list of its chunks.
pub mod Chunks
mod Examples
pub mod Backing
use uni_alloc.Base.{
  ℕ, zero, suc, ◌+◌, ◌-◌, ◌*◌, Bool, not, ◌&&◌, ltb, leb, ◌==◌, if◌then◌else◌, Option, none, some,
}
use uni_alloc.Base.Run.{Run, ok, panic, out_of_fuel, assert, ◌>>=◌, ◌>>◌}
use uni_alloc.Base.Words.{add64, sub64, mul64}
use uni_alloc.Memory.{Memory, write}

pub record ObjectPage : Type 0 where
  pub counter : ℕ
  pub data_start : ℕ
  pub ptr : ℕ
  pub prev : ℕ
  pub next : ℕ

abbrev pub new : ObjectPage
new = record { counter = 0; data_start = 0; ptr = 0; prev = 0; next = 0 }

unfoldable pub has_next : ObjectPage → Bool
has_next s = not (s.next == 0)

unfoldable pub has_prev : ObjectPage → Bool
has_prev s = not (s.prev == 0)

unfoldable pub set_prev : ObjectPage → ℕ → ObjectPage
set_prev s nprev = record s { prev = nprev }

unfoldable pub set_next : ObjectPage → ℕ → ObjectPage
set_next s nnext = record s { next = nnext }

unfoldable pub is_inited : ObjectPage → Bool
is_inited s = not (s.data_start == 0)

unfoldable pub is_full : ObjectPage → ℕ → Bool
is_full s pg_count = leb pg_count s.counter

unfoldable pub is_empty : ObjectPage → Bool
is_empty s = s.counter == 0

unfoldable pub get_data_ptr : ObjectPage → Run ℕ
get_data_ptr s = if is_inited s then ok s.data_start else panic

-- The chunks handed out: the first address, how many, and the distance between chunks if they are
-- still to be cut.
unfoldable pub allocate_all : ObjectPage → ℕ → ℕ → ObjectPage × (ℕ × ℕ × Option ℕ)
allocate_all s pg_count pg_align =
    if s.counter == 0
    then (record s { counter = pg_count; ptr = 0 }, (s.data_start, pg_count, some pg_align))
    else (record s { counter = pg_count; ptr = 0 }, (s.ptr, sub64 pg_count s.counter, none))

-- `next >= base && next < base + pg_num * PAGE_SIZE`, with the size of the slab in bytes.
abbrev pub in_page : ℕ → ℕ → ℕ → Bool
in_page base bytes next = leb base next && ltb next (add64 base bytes)

-- The loop of `deallocate` over `cur`, `counter` and `next`.
pub walk : ℕ → Memory → ℕ → ℕ → ℕ → ℕ → ℕ → Run (ℕ × ℕ × ℕ)
walk zero m base bytes cur counter next = out_of_fuel
walk (suc fuel) m base bytes cur counter next =
    let rest = walk fuel m base bytes next (add64 counter 1) (m next) in
    if in_page base bytes next then rest else ok (cur, counter, next)

module _ (page_size : ℕ) where
  -- Takes the chunks from `free_ptr` on, as far as they lie in this slab, into the free list, and
  -- returns the chunk behind them. No more chunks than `counter` may come back, so `counter`
  -- rounds are enough.
  unfoldable pub deallocate : ObjectPage → ℕ → ℕ → Memory → Run (ℕ × ObjectPage × Memory)
  deallocate s free_ptr pg_num m = do
    let bytes = mul64 pg_num page_size
    assert (leb s.data_start free_ptr)
    assert (ltb free_ptr (add64 s.data_start bytes))
    assert (ltb 0 s.counter)
    (cur, counter, next) ← walk s.counter m s.data_start bytes free_ptr 1 (m free_ptr)
    assert (leb counter s.counter)
    ok (next, record s { ptr = free_ptr; counter = sub64 s.counter counter }, write m cur s.ptr)

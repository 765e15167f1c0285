-- ===== src/Slab/Lists.antt =====
-- The page lists of efficient_sc.rs. The four lists are circular and run through the `prev` and
-- `next` fields of the page headers; the source writes the same link code out for each of them.
pub mod Links
use uni_alloc.Base.{ℕ, zero, suc, ◌+◌, ◌-◌, Bool, not, ltb, ◌==◌, if◌then◌else◌, Option, none, some}
use uni_alloc.Base.Run.{Run, ok, panic, assert, ◌>>=◌, ◌>>◌}
use uni_alloc.Base.Words.{add64, sub64}
use uni_alloc.Page.{ObjectPage, set_prev, set_next, get_data_ptr}
use uni_alloc.Slab.Defs.{ScAllocator, null}

-- The page headers by their addresses.
abbrev pub Headers : Type 0
Headers = ℕ → ObjectPage

unfoldable pub modify : Headers → ℕ → (ObjectPage → ObjectPage) → Headers
modify h a f b = if a == b then f (h b) else h b

-- `get_prev()` and `get_next()` panic on a null link.
abbrev pub deref : ℕ → Run ℕ
deref a = if a == null then panic else ok a

-- A page joins a list behind its last page, before the head.
unfoldable pub link : ℕ → ℕ → Headers → Run (ℕ × Headers)
link head idx h =
    let alone : Headers = modify (modify h idx (λ s. set_prev s idx)) idx (λ s. set_next s idx) in
    let join = do
      prev ← deref (h head).prev
      let h1 = modify h idx (λ s. set_prev s prev)
      let h2 = modify h1 idx (λ s. set_next s head)
      let h3 = modify h2 prev (λ s. set_next s idx)
      ok (head, modify h3 head (λ s. set_prev s idx))
    in if head == null then ok (idx, alone) else join

-- The neighbours of a page are linked to each other; the page's successor is returned.
unfoldable pub unlink : ℕ → Headers → Run (ℕ × Headers)
unlink idx h = do
  prev ← deref (h idx).prev
  after ← deref (h idx).next
  let h1 = modify h after (λ s. set_prev s prev)
  next ← deref (h1 idx).next
  before ← deref (h1 idx).prev
  ok (next, modify h1 before (λ s. set_next s next))

-- A page leaves a list; the new head is returned.
unfoldable pub delete : ℕ → ℕ → Headers → Run (ℕ × Headers)
unfolding unlink
delete head idx h = do
  assert (not (head == null))
  head_next ← deref (h head).next
  let last = assert (idx == head) >> ok (null, h)
  let inner = unlink idx h >>= λ (next, h'). ok (if head == idx then next else head, h')
  if head_next == head then last else inner

unfoldable pub remove_full : ScAllocator → ℕ → Headers → Run (ScAllocator × Headers)
unfolding delete unlink
remove_full s idx h = do
  (head, h') ← delete s.full_start idx h
  ok (record s { full_start = head }, h')

unfoldable pub insert_full : ScAllocator → ℕ → Headers → Run (ScAllocator × Headers)
unfolding link
insert_full s idx h = do
  (head, h') ← link s.full_start idx h
  ok (record s { full_start = head }, h')

unfoldable pub insert_partial : ScAllocator → ℕ → Headers → Run (ScAllocator × Headers)
unfolding link
insert_partial s idx h = do
  (head, h') ← link s.partial_start idx h
  ok (record s { partial_start = head }, h')

unfoldable pub remove_partial : ScAllocator → ℕ → Headers → Run (ScAllocator × Headers)
unfolding delete unlink
remove_partial s idx h = do
  (head, h') ← delete s.partial_start idx h
  ok (record s { partial_start = head }, h')

-- The page removed is the head.
unfoldable pub remove_uninit : ScAllocator → Headers → Run (ℕ × ScAllocator × Headers)
unfolding delete unlink
remove_uninit s h = do
  (head, h') ← delete s.uninit_start s.uninit_start h
  ok (s.uninit_start, record s { uninit_start = head }, h')

unfoldable pub remove_empty : ScAllocator → Headers → Run (ℕ × ScAllocator × Headers)
unfolding unlink
remove_empty s h = do
  assert (not (s.empty_start == null))
  assert (ltb 0 s.empty_count)
  (next, h') ← unlink s.empty_start h
  let head = if ltb 1 s.empty_count then next else null
  ok (s.empty_start, record s { empty_start = head; empty_count = sub64 s.empty_count 1 }, h')

-- The data pointer is needed only for its check: the caller takes the slab off the radix tree.
unfoldable pub try_insert_ety : ScAllocator → ℕ → Headers → Run (Option ℕ)
try_insert_ety s idx h =
    if ltb 2048 s.empty_count then (do p ← get_data_ptr (h idx); ok (some p)) else ok none

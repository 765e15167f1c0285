-- ===== src/SeparateSc/Lists.antt =====
-- The four lists of separate_sc.rs: each has the index of its first header and a count, which tells
-- whether the index means anything.
use uni_alloc.Base.{ℕ, ◌==◌, if◌then◌else◌}
use uni_alloc.Base.Run.{Run, ok, ◌>>=◌}
use uni_alloc.Base.Words.{add64, sub64}
use uni_alloc.ArrayList.{ArrayLinkedList, get_next, remove_node, reset_links, insert_to_prev}
use uni_alloc.SeparateSc.{ScAllocator}

-- The steps that the four removals share, and those that the four insertions share.
unfoldable pub unlink {ℓ} : {A : Type ℓ} → ℕ → ℕ → ArrayLinkedList A → Run (ℕ × ArrayLinkedList A)
unlink start idx pages = do
  start' ← if idx == start then get_next pages idx else ok start
  pages' ← remove_node pages idx
  ok (start', pages')

unfoldable pub link_last {ℓ} :
    {A : Type ℓ} → ℕ → ℕ → ℕ → ArrayLinkedList A → Run (ℕ × ArrayLinkedList A)
link_last start count idx pages =
    let first = (do pages' ← reset_links pages idx; ok (idx, pages')) in
    let last = (do pages' ← insert_to_prev pages start idx; ok (start, pages')) in
    if count == 0 then first else last

unfoldable pub remove_full : ScAllocator → ℕ → Run ScAllocator
remove_full s idx = do
  (start, pages) ← unlink s.full_start idx s.pages
  ok (record s { full_start = start; full_count = sub64 s.full_count 1; pages = pages })

unfoldable pub insert_full : ScAllocator → ℕ → Run ScAllocator
insert_full s idx = do
  (start, pages) ← link_last s.full_start s.full_count idx s.pages
  ok (record s { full_start = start; full_count = add64 s.full_count 1; pages = pages })

unfoldable pub insert_partial : ScAllocator → ℕ → Run ScAllocator
insert_partial s idx = do
  (start, pages) ← link_last s.partial_start s.partial_count idx s.pages
  ok (record s { partial_start = start; partial_count = add64 s.partial_count 1; pages = pages })

unfoldable pub remove_partial : ScAllocator → ℕ → Run ScAllocator
remove_partial s idx = do
  (start, pages) ← unlink s.partial_start idx s.pages
  ok (record s { partial_start = start; partial_count = sub64 s.partial_count 1; pages = pages })

unfoldable pub remove_uninit : ScAllocator → ℕ → Run ScAllocator
remove_uninit s idx = do
  (start, pages) ← unlink s.uninit_start idx s.pages
  ok (record s { uninit_start = start; uninit_count = sub64 s.uninit_count 1; pages = pages })

-- The first empty header leaves its list.
unfoldable pub take_empty : ScAllocator → Run (ℕ × ScAllocator)
take_empty s = do
  start ← get_next s.pages s.empty_start
  pages ← remove_node s.pages s.empty_start
  ok (
    s.empty_start,
    record s { empty_start = start; empty_count = sub64 s.empty_count 1; pages = pages },
  )

unfoldable pub keep_uninit : ScAllocator → ℕ → Run ScAllocator
keep_uninit s idx = do
  (start, pages) ← link_last s.uninit_start s.uninit_count idx s.pages
  ok (record s { uninit_start = start; uninit_count = add64 s.uninit_count 1; pages = pages })

unfoldable pub keep_empty : ScAllocator → ℕ → Run ScAllocator
keep_empty s idx = do
  (start, pages) ← link_last s.empty_start s.empty_count idx s.pages
  ok (record s { empty_start = start; empty_count = add64 s.empty_count 1; pages = pages })

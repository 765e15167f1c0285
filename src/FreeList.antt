-- ===== src/FreeList.antt =====
-- unialloc/src/freelist/mod.rs: the page backend. It keeps free blocks in lists by their number of pages,
-- linked through their first words, and marks the first and the last page of a block in the
-- radix tree. The array of lists is taken to be there, with all lists empty at first; each operation runs
-- alone.
pub mod Blocks
pub mod Marks
pub mod Moves
pub mod Joining
pub mod Serving
pub mod Requests
pub mod Allocating
pub mod Freeing
pub mod Trips
pub mod Global
mod Examples
use uni_alloc.Base.{
  ℕ, zero, suc, ◌+◌, ◌-◌, ◌*◌, ◌/◌, ◌%◌, ◌^◌, Bool, ltb, ◌==◌, if◌then◌else◌, Option, none, some,
}
use uni_alloc.Base.Run.{Run, ok, panic, assert, ◌>>=◌, ◌>>◌}
use uni_alloc.Base.Words.{add64, sub64, mul64}
use uni_alloc.Radix.Head.{RadixTree}
use uni_alloc.Radix.Head
use uni_alloc.Bump.Backend.{BumpAlloc, pg_size}
use uni_alloc.Bump.Backend

-- `BACKEND_MAX_PAGE` of size_class/tc_size_class.rs.
abbrev pub backend_max_page : ℕ
backend_max_page = 128

-- The heads of the lists by index, the links of `DoubleLinkedList` by address, and what the backend
-- shares: the tree, `BUMP` and the operating system.
pub record FreeList (Os : Type 0) : Type 0 where
  pub lists : ℕ → Option ℕ
  pub prev : ℕ → Option ℕ
  pub next : ℕ → Option ℕ
  pub rd_tree : RadixTree
  pub bump : BumpAlloc
  pub os : Os

unfoldable pub put {ℓ} : {A : Type ℓ} → (ℕ → A) → ℕ → A → ℕ → A
put f i v j = if j == i then v else f j

-- `(-(idx as i64 + 1)) << 48`, as a bit pattern.
unfoldable pub marker : ℕ → ℕ
marker idx = mul64 (sub64 0 (add64 idx 1)) (2 ^ 48)

-- `-(v >> 48)`, with a number below 0 as 0: the number of pages that a marker says.
unfoldable pub flag : ℕ → ℕ
flag v = if ltb v (2 ^ 63) then 0 else 2 ^ 16 - v / 2 ^ 48

-- `-v > 0`, where negating the least number wraps.
unfoldable pub is_marked : ℕ → Bool
is_marked v = ltb (2 ^ 63) v

-- The entry of an address.
abbrev pub entry_of : ℕ → ℕ
entry_of ptr = mul64 ptr (2 ^ 16)

-- `(size + PG_SIZE - 1) / PG_SIZE - 1`
unfoldable pub index_for : ℕ → ℕ
index_for size = sub64 (sub64 (add64 size pg_size) 1 / pg_size) 1

module _ {Os : Type 0} where
  -- `core::ptr::write(node, DoubleLinkedList::new())`
  unfoldable pub new_node : ℕ → FreeList Os → FreeList Os
  new_node node s = record s { prev = put s.prev node none; next = put s.next node none }

  unfoldable pub push_before_head : ℕ → ℕ → FreeList Os → FreeList Os
  push_before_head head new_node s = record s {
    prev = put (put s.prev head (some new_node)) new_node none;
    next = put s.next new_node (some head);
  }

  -- The new head of the list, where the code knows it.
  unfoldable pub remove_current : ℕ → FreeList Os → Option ℕ × FreeList Os
  remove_current node s = elim (s.prev node) [
    | some prev ↦ elim (s.next node) [
      | some next ↦ (
        none,
        record s { next = put s.next prev (some next); prev = put s.prev next (some prev) },
      )
      | none ↦ (none, record s { next = put s.next prev none })
    ]
    | none ↦ elim (s.next node) [
      | some next ↦ (some next, record s { prev = put s.prev next none })
      | none ↦ (none, s)
    ]
  ]

  -- The marks of the block at `ptr` go.
  unfoldable pub unmark : ℕ → ℕ → FreeList Os → Run (FreeList Os)
  unmark idx ptr s = do
    t ← Head.remove (entry_of ptr) 1 s.rd_tree
    t' ← Head.remove (entry_of (add64 ptr (mul64 idx pg_size))) 1 t
    ok (record s { rd_tree = t' })

  unfoldable pub remove_one : ℕ → FreeList Os → Run (Option ℕ × FreeList Os)
  remove_one idx s = do
    assert (ltb idx backend_max_page)
    elim (s.lists idx) [
      | none ↦ ok (none, s)
      | some ans ↦ do
        s1 ← unmark idx ans s
        let (head, s2) = remove_current ans s1
        ok (some ans, record s2 { lists = put s2.lists idx head })
    ]

  unfoldable pub remove_spec_one : ℕ → ℕ → FreeList Os → Run (Option ℕ × FreeList Os)
  remove_spec_one idx ptr s =
      let removed = do
        s1 ← unmark idx ptr s
        let (head, s2) = remove_current ptr s1
        ok (
          some ptr,
          elim head [ none ↦ s2 | some h ↦ record s2 { lists = put s2.lists idx (some h) } ],
        )
      in do
        assert (ltb idx backend_max_page)
        if is_marked (Head.get_mut (entry_of ptr) s.rd_tree)
            then (elim (s.next ptr) [
              | none ↦ ok (none, s)
              | some prev_next ↦ if prev_next == ptr then removed else ok (none, s)
            ])
            else ok (none, s)

  unfoldable pub insert_one : ℕ → ℕ → FreeList Os → Run (FreeList Os)
  insert_one idx node s = do
    assert (ltb idx backend_max_page)
    let s1 : FreeList Os = elim (s.lists idx) [
      | none ↦ s
      | some head ↦ push_before_head head node s
    ]
    t ← Head.insert (entry_of node) (marker idx) 1 s1.rd_tree
    t' ← Head.insert (entry_of (add64 node (mul64 idx pg_size))) (marker idx) 1 t
    ok (record s1 { rd_tree = t'; lists = put s1.lists idx (some node) })

  -- The loop over the lists of larger blocks: the rest of the block goes back. `rounds` is the number of
  -- lists left.
  pub split_larger : ℕ → ℕ → ℕ → FreeList Os → Run (Option ℕ × FreeList Os)
  split_larger zero parent_idx origin s = ok (none, s)
  split_larger (suc rounds) parent_idx origin s = do
    (found, s1) ← remove_one parent_idx s
    elim found [
      | some parent ↦ do
        let remain = add64 parent (mul64 pg_size (add64 origin 1))
        s2 ← insert_one (sub64 (sub64 parent_idx origin) 1) remain (new_node remain s1)
        ok (some parent, s2)
      | none ↦ split_larger rounds (suc parent_idx) origin s1
    ]

  module _ (mmap : Os → ℕ → ℕ × Os) (munmap : Os → ℕ → ℕ → Os) where
    unfoldable pub bump_alloc : ℕ → FreeList Os → Option ℕ × FreeList Os
    bump_alloc size s =
        let (ptr, bump, os) = Backend.alloc mmap munmap s.bump size s.os in
        (ptr, record s { bump = bump; os = os })

    -- `none` is an error.
    unfoldable pub alloc : ℕ → FreeList Os → Run (Option ℕ × FreeList Os)
    alloc size s =
        let origin = index_for size in
        let listed = do
          (found, s1) ← remove_one origin s
          elim found [
            | some ans ↦ ok (some ans, s1)
            | none ↦ do
              (split, s2) ← split_larger (backend_max_page - (origin + 1)) (origin + 1) origin s1
              elim split [ some ans ↦ ok (some ans, s2) | none ↦ ok (bump_alloc size s2) ]
          ]
        in if ltb origin backend_max_page then listed else ok (bump_alloc size s)

    -- A neighbour that a mark shows: its first page and its index in the array of lists.
    unfoldable pub combine : ℕ → ℕ → FreeList Os → Run (Option ℕ × FreeList Os)
    combine pages start s =
        let neighbour = remove_spec_one (pages - 1) start s in
        if pages == 0 then ok (none, s) else neighbour

    unfoldable pub free : ℕ → ℕ → FreeList Os → Run (FreeList Os)
    free ptr size s = do
      let origin = index_for size
      let pflag = flag (Head.get_mut (entry_of (sub64 ptr pg_size)) s.rd_tree)
      (before, s1) ← combine pflag (sub64 ptr (mul64 pflag pg_size)) s
      let ptr1 : ℕ = elim before [ none ↦ ptr | some p ↦ p ]
      let idx1 : ℕ = elim before [ none ↦ origin | some p ↦ add64 origin pflag ]
      let next = add64 ptr (mul64 (add64 origin 1) pg_size)
      let nflag = flag (Head.get_mut (entry_of next) s1.rd_tree)
      (after, s2) ← combine nflag next s1
      let idx2 : ℕ = elim after [ none ↦ idx1 | some p ↦ add64 idx1 nflag ]
      if ltb idx2 backend_max_page
          then insert_one idx2 ptr1 (new_node ptr1 s2)
          else ok (record s2 { os = munmap s2.os ptr1 (mul64 (add64 idx2 1) pg_size) })

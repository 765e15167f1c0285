-- ===== src/Buddy.antt =====
-- unialloc/src/buddy_system/buddy.rs: the tree of a buddy allocator, flat in an array of bytes. The
-- node with number `n` (from 1) is at the index `n - 1`; its byte is 0 if nothing below it is free,
-- else one more than the order of the largest free block. The module is not compiled at present.
pub mod Space
pub mod Nodes
pub mod Taking
pub mod Giving
pub mod Trips
pub mod Fresh
mod Examples
use uni_alloc.Base.{
  ℕ, zero, suc, ◌+◌, ◌-◌, ◌*◌, ◌/◌, ◌%◌, ◌^◌, Bool, true, false, not, ◌&&◌, ◌||◌, ltb, leb, ◌==◌,
  if◌then◌else◌, List, [], ◌∷◌, Option, none, some,
}
use uni_alloc.Base.Run.{Run, ok, assert, ◌>>=◌, ◌>>◌}
use uni_alloc.Base.Words.{add64}

-- The bytes `order_free` of the blocks.
abbrev pub FlatBlocks : Type 0
FlatBlocks = ℕ → ℕ

abbrev pub new_free : ℕ → ℕ
new_free order = suc order

abbrev pub new_used : ℕ
new_used = 0

unfoldable pub blocks_in_tree : ℕ → ℕ
blocks_in_tree levels = 2 ^ levels - 1

unfoldable pub blocks_in_level : ℕ → ℕ
unfolding blocks_in_tree
blocks_in_level level = blocks_in_tree (level + 1) - blocks_in_tree level

unfoldable pub left_child : ℕ → ℕ
left_child index = 2 * index

unfoldable pub parent : ℕ → ℕ
parent index = index / 2

unfoldable pub max : ℕ → ℕ → ℕ
max a b = if leb a b then b else a

unfoldable pub set_block : FlatBlocks → ℕ → ℕ → FlatBlocks
set_block t i v j = if i == j then v else t j

-- `write_bytes(dst.add(offset), value, count)`
unfoldable pub write_bytes : FlatBlocks → ℕ × ℕ × ℕ → FlatBlocks
write_bytes t (offset, value, count) i =
    if leb offset i && ltb i (offset + count) then value else t i

-- The table of `new` for x86_64.
abbrev pub new_rows : List (ℕ × ℕ × ℕ)
new_rows =
    (0, 23, 1)
    ∷ (1, 22, 2)
    ∷ (3, 21, 4)
    ∷ (7, 20, 8)
    ∷ (15, 19, 16)
    ∷ (31, 18, 32)
    ∷ (63, 17, 64)
    ∷ (127, 16, 128)
    ∷ (255, 15, 256)
    ∷ (511, 14, 512)
    ∷ (1023, 13, 1024)
    ∷ (2047, 12, 2048)
    ∷ (4095, 11, 4096)
    ∷ (8191, 10, 8192)
    ∷ (16383, 9, 16384)
    ∷ (32767, 8, 32768)
    ∷ (65535, 7, 65536)
    ∷ (131071, 6, 131072)
    ∷ (262143, 5, 262144)
    ∷ (524287, 4, 524288)
    ∷ (1048575, 3, 1048576)
    ∷ (2097151, 2, 2097152)
    ∷ (4194303, 1, 4194304)
    ∷ []

pub write_rows : FlatBlocks → List (ℕ × ℕ × ℕ) → FlatBlocks
write_rows t [] = t
write_rows t (row ∷ rows) = write_rows (write_bytes t row) rows

unfoldable pub new : FlatBlocks → FlatBlocks
unfolding write_rows
new t = write_rows t new_rows

-- LEVEL_COUNT, BASE_ORDER and MAX_ORDER.
module _ (levels base_order max_order : ℕ) where
  unfoldable pub block : FlatBlocks → ℕ → Run ℕ
  block t index = do assert (ltb index (blocks_in_tree levels)); ok (t index)

  unfoldable pub block_mut : FlatBlocks → ℕ → ℕ → Run FlatBlocks
  block_mut t index order_free = do
    assert (ltb index (blocks_in_tree levels))
    ok (set_block t index order_free)

  -- The way down of `allocate`, `left` levels from `level` on.
  unfoldable pub descend : ℕ → ℕ → ℕ → ℕ → ℕ → FlatBlocks → Run (ℕ × ℕ)
  descend zero level desired_order node_index addr t = ok (node_index, addr)
  descend (suc left) level desired_order node_index addr t = do
    let left_child_index = left_child node_index
    o ← block t (left_child_index - 1)
    let go_left = not (o == 0) && ltb desired_order o
    let node' = if go_left then left_child_index else left_child_index + 1
    let half = 2 ^ (base_order + max_order - level - 1)
    let addr' = if go_left then addr else add64 addr half
    descend left (suc level) desired_order node' addr' t

  -- One round of the way up of `allocate`, and `left` rounds: all but the last, then the last.
  unfoldable pub climb_step : ℕ → FlatBlocks → Run (ℕ × FlatBlocks)
  climb_step node_index t = do
    let right_index = node_index / 2 * 2
    l ← block t (right_index - 1)
    r ← block t right_index
    t' ← block_mut t (parent node_index - 1) (max l r)
    ok (parent node_index, t')

  unfoldable pub climb : ℕ → ℕ → FlatBlocks → Run (ℕ × FlatBlocks)
  climb zero node_index t = ok (node_index, t)
  climb (suc left) node_index t = do (node', t') ← climb left node_index t; climb_step node' t'

  -- The root holds at most MAX_ORDER + 1, so behind the test the order is at most MAX_ORDER.
  unfoldable pub allocate : FlatBlocks → ℕ → Run (Option ℕ × FlatBlocks)
  allocate t desired_order = do
    root ← block t 0
    let max_level = max_order - desired_order
    let found = do
      (node_index, addr) ← descend max_level 0 desired_order 1 0 t
      t1 ← block_mut t (node_index - 1) new_used
      (_, t2) ← climb max_level node_index t1
      ok (some addr, t2)
    if root == 0 || ltb (root - 1) desired_order then ok (none, t) else found

  unfoldable pub update_block : FlatBlocks → ℕ → ℕ → Run FlatBlocks
  update_block t node_index order = do
    assert (not (order == 0))
    assert (not (node_index == 0))
    let left_index = left_child node_index - 1
    l ← block t left_index
    r ← block t (left_index + 1)
    block_mut t (node_index - 1) (if l == order && r == order then order + 1 else max l r)

  -- `left` rounds, for the `left` orders above `order`: all but the last, then the last.
  unfoldable pub update_blocks_above : ℕ → FlatBlocks → ℕ → ℕ → Run (ℕ × FlatBlocks)
  update_blocks_above zero t index order = ok (index, t)
  update_blocks_above (suc left) t index order = do
    (node', t') ← update_blocks_above left t index order
    t'' ← update_block t' (parent node') (order + suc left)
    ok (parent node', t'')

  unfoldable pub deallocate : FlatBlocks → ℕ → ℕ → Run FlatBlocks
  deallocate t ptr order = do
    assert (leb order max_order)
    let level = max_order - order
    let index = blocks_in_tree level + ptr / 2 ^ (order + base_order) + 1
    assert (ltb index (blocks_in_tree levels))
    o ← block t (index - 1)
    assert (o == 0)
    t' ← block_mut t (index - 1) (new_free order)
    (_, t'') ← update_blocks_above (max_order - order) t' index order
    ok t''

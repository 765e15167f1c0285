-- ===== src/Radix/Examples.antt =====
-- The tree on slabs near the end of a node.
use uni_alloc.Base.{◌+◌, ◌^◌, ◌≡◌, arith, none}
use uni_alloc.Base.Run.{Returns}
use uni_alloc.Radix.Head.{RadixTree, insert, remove}
use uni_alloc.Radix.Lookup.{key_of, IsUpdate, insert-IsUpdate, remove-IsUpdate}
use uni_alloc.Radix.Wide.Keys.{IsEntered, insert-IsEntered}
use uni_alloc.Radix.Wide
use uni_alloc.Radix.Slabs.{
  handle_rd_tree_insert, handle_rd_tree_insert-IsUpdate, align_12k, align_12k-eq,
}

abbrev empty : RadixTree
empty idx = none

insert-IsUpdate_example : Returns (IsUpdate 262140 4 7 empty) (insert (key_of 262140) 7 4 empty)
insert-IsUpdate_example = insert-IsUpdate 262140 4 7 empty (omega arith) (omega arith)

remove-IsUpdate_example : Returns (IsUpdate 262140 4 0 empty) (remove (key_of 262140) 4 empty)
remove-IsUpdate_example = remove-IsUpdate 262140 4 empty (omega arith) (omega arith)

-- A slab of four pages over the end of a node.
handle_rd_tree_insert-IsUpdate_example :
    Returns (IsUpdate 262142 4 0x7000 empty) (handle_rd_tree_insert 12 4 empty 0x7000 0x3fffe000)
handle_rd_tree_insert-IsUpdate_example =
    handle_rd_tree_insert-IsUpdate 12 4 0x3fffe000 empty 0x7000 (omega arith) (omega arith)
      (omega arith)

align_12k-eq_example : align_12k 14 0x12345 ≡ 0x4000
align_12k-eq_example = align_12k-eq 14 0x12345 (omega arith)

abbrev no_nodes : Wide.Tree 5
no_nodes i = none

-- Two keys in the middle of an array.
insert-IsEntered_example :
    Returns (IsEntered (2 ^ 100 + 5) 2 4 no_nodes) (Wide.insert 5 (2 ^ 100 + 5) 4 2 no_nodes)
insert-IsEntered_example = insert-IsEntered (2 ^ 100 + 5) 4 2 no_nodes (omega arith) (omega arith)

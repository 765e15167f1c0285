-- ===== src/Radix/Head.antt =====
-- `RadixNodeHead`: an array of 2^18 nodes, each null until a value is first inserted below it.
-- A node comes from mmap, whose memory reads as zeros; the mapping is taken to succeed, and the
-- compare_exchange that publishes the node too, since one thread runs at a time here.
use uni_alloc.Base.{ℕ, ◌*◌, ◌%◌, ◌^◌, Option, none, some}
use uni_alloc.Base.Run.{Run, ok, ◌>>=◌}
use uni_alloc.Radix.Bottom.{Node, index_of, put}
use uni_alloc.Radix.Bottom

abbrev pub RadixTree : Type 0
RadixTree = ℕ → Option Node

-- `k << 18`, the key for the level below.
unfoldable pub key_below : ℕ → ℕ
key_below k = k * 2 ^ 18 % 2 ^ 64

-- The memory of a new node.
abbrev pub allocate_node : Node
allocate_node i = 0

-- The node to insert in, a new one where there is none.
abbrev pub node_of : Option Node → Node
node_of none = allocate_node
node_of (some node) = node

unfoldable pub insert : ℕ → ℕ → ℕ → RadixTree → Run RadixTree
insert k v n t = do
  node ← Bottom.insert (key_below k) v n (node_of (t (index_of k)))
  ok (put t (index_of k) (some node))

-- `remove` below the node that the key leads to.
unfoldable pub remove_below : Option Node → ℕ → ℕ → RadixTree → Run RadixTree
remove_below none k n t = ok t
remove_below (some node) k n t = do
  node' ← Bottom.remove (key_below k) n node
  ok (put t (index_of k) (some node'))

unfoldable pub remove : ℕ → ℕ → RadixTree → Run RadixTree
unfolding remove_below
remove k n t = remove_below (t (index_of k)) k n t

unfoldable pub get_mut : ℕ → RadixTree → ℕ
get_mut k t = elim (t (index_of k)) [ none ↦ 0 | some node ↦ Bottom.get_mut (key_below k) node ]

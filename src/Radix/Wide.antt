-- ===== src/Radix/Wide.antt =====
-- unialloc/src/collections/radix_tree_128.rs: trees with keys of 128 bits, of any number of head levels
-- over a bottom level. A node comes from mmap, as in Head. Values and counts are `i32` as bit patterns.
pub mod Leaves
pub mod Keys
use uni_alloc.Base.{
  ℕ, zero, suc, ◌+◌, ◌-◌, ◌*◌, ◌/◌, ◌%◌, ◌^◌, ◌≤◌, ◌<◌, ◌≡◌, refl, sym, ◌∙◌, ap, Bool, ltb, leb,
  ◌&&◌, ◌==◌, if◌then◌else◌, lt→ltb, arith, Option, none, some, Bool-cases, inl, inr, ==→eq, true,
  false,
}
use mathlib.Core.Path.{fun_ext}
use uni_alloc.Base.Run.{Run, ok, panic, Returns, returns, Returns-bind, Returns-map, ◌>>=◌}
use uni_alloc.Base.Words.{add64}
use uni_alloc.Slab.World.{as_usize}
use uni_alloc.Radix.Bottom.{put, filled}

-- A tree with so many head levels.
abbrev pub Tree : ℕ → Type 0
Tree zero = ℕ → ℕ
Tree (suc h) = ℕ → Option (Tree h)

-- `(mask & k) >> 107` of a head, and `(mask & k) >> 105` of the bottom level.
pub head_index : ℕ → ℕ
head_index k = k % 2 ^ 128 / 2 ^ 107

pub bottom_index : ℕ → ℕ
bottom_index k = k % 2 ^ 128 / 2 ^ 105

-- `k << 21`
pub below : ℕ → ℕ
below k = k * 2 ^ 21 % 2 ^ 128

-- The memory of a new node.
abbrev pub new_node : (h : ℕ) → Tree h
new_node zero = λ i. 0
new_node (suc h) = λ i. none

abbrev pub node_of : (h : ℕ) → Option (Tree h) → Tree h
node_of h none = new_node h
node_of h (some node) = node

-- `for i in 0..n as usize { self.nodes[idx + i] = v; }`, where an index outside the array panics.
pub fill : ℕ → ℕ → ℕ → (ℕ → ℕ) → Run (ℕ → ℕ)
unfolding put
fill zero idx v node = ok node
fill (suc n) idx v node =
    let rest = fill n (add64 idx 1) v (put node idx v) in if ltb idx (2 ^ 23) then rest else panic

pub insert : (h : ℕ) → ℕ → ℕ → ℕ → Tree h → Run (Tree h)
insert zero k v n node = fill (as_usize n) (bottom_index k) v node
insert (suc h) k v n t = do
  node ← insert h (below k) v n (node_of h (t (head_index k)))
  ok (put t (head_index k) (some node))

pub remove : (h : ℕ) → ℕ → ℕ → Tree h → Run (Tree h)
remove zero k n node = fill (as_usize n) (bottom_index k) 0 node
remove (suc h) k n t = elim (t (head_index k)) [
  | none ↦ ok t
  | some node ↦ do node' ← remove h (below k) n node; ok (put t (head_index k) (some node'))
]

-- -1 where there is no node.
pub get_mut : (h : ℕ) → ℕ → Tree h → ℕ
get_mut zero k node = node (bottom_index k)
get_mut (suc h) k t = elim (t (head_index k)) [
  | none ↦ 2 ^ 32 - 1
  | some node ↦ get_mut h (below k) node
]

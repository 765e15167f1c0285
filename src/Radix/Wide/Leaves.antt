-- ===== src/Radix/Wide/Leaves.antt =====
-- The arrays that keys of a tree with 128-bit keys lead to, and what `insert` does to them.
use uni_alloc.Base.{
  sym, ℕ, zero, suc, ◌+◌, ◌-◌, ◌^◌, ◌≤◌, ◌≡◌, refl, sym, ◌∙◌, ap, Bool, ◌&&◌, ◌==◌, if◌then◌else◌,
  lt→ltb, arith, Option, none, some, Bool-cases, inl, inr, ==→eq, true, false,
}
use mathlib.Core.Path.{fun_ext}
use uni_alloc.Base.Run.{◌>>=◌, ok, Returns, returns, Returns-bind}
use uni_alloc.Base.Words.{add64}
use uni_alloc.Slab.World.{as_usize}
use uni_alloc.Radix.Bottom.{put, filled}
use uni_alloc.Radix.Wide.{
  remove, Tree, head_index, bottom_index, below, new_node, node_of, fill, insert, get_mut,
}

fill-filled :
    (n idx v : ℕ) (node : ℕ → ℕ) → idx + n ≤ 2 ^ 23 → fill n idx v node ≡ ok (filled n idx v node)
unfolding fill put
fill-filled zero idx v node h = ap ok (fun_ext λ j. ground arith)
fill-filled (suc n) idx v node h =
    let next : add64 idx 1 ≡ idx + 1 = omega arith in
    let rest = fill-filled n (idx + 1) v (put node idx v) (omega arith) in
    rw (lt→ltb idx (2 ^ 23) (omega arith), next, rest) (ap ok (fun_ext λ j. ground arith))

-- The array of values that a key leads to.
pub leaf : (h : ℕ) → ℕ → Tree h → Option (ℕ → ℕ)
leaf zero k node = some node
leaf (suc h) k t = elim (t (head_index k)) [ none ↦ none | some node ↦ leaf h (below k) node ]

abbrev leaf_of : (h : ℕ) → ℕ → Option (Tree h) → Option (ℕ → ℕ)
leaf_of h k none = none
leaf_of h k (some node) = leaf h (below k) node

-- The place in that array.
unfoldable pub slot : ℕ → ℕ → ℕ
slot zero k = bottom_index k
slot (suc h) k = slot h (below k)

-- Two keys lead to the same array.
unfoldable pub same_leaf : ℕ → ℕ → ℕ → Bool
same_leaf zero k q = true
same_leaf (suc h) k q = (head_index q == head_index k) && same_leaf h (below k) (below q)

abbrev pub or_zeros : Option (ℕ → ℕ) → ℕ → ℕ
or_zeros none i = 0
or_zeros (some node) i = node i

-- The value at a place of an array, -1 if there is none.
abbrev pub value_in : Option (ℕ → ℕ) → ℕ → ℕ
value_in none i = 2 ^ 32 - 1
value_in (some node) i = node i

pub get_mut-leaf : (h k : ℕ) (t : Tree h) → get_mut h k t ≡ value_in (leaf h k t) (slot h k)
unfolding get_mut leaf slot
get_mut-leaf zero k t = refl
get_mut-leaf (suc h) k t = go (t (head_index k)) (get_mut-leaf h (below k))
  where
    go :
        (o : Option (Tree h))
        → ((node : Tree h)
            → get_mut h (below k) node ≡ value_in (leaf h (below k) node) (slot h (below k)))
        → (elim o [ none ↦ 2 ^ 32 - 1 | some node ↦ get_mut h (below k) node ])
          ≡ value_in (leaf_of h k o) (slot h (below k))
    go none ih = refl
    go (some node) ih = ih node

leaf-put :
    (h i q : ℕ) (t : Tree (suc h)) (node : Tree h)
    → leaf (suc h) q (put t i (some node))
      ≡ (if head_index q == i then leaf h (below q) node else leaf (suc h) q t)
unfolding leaf put
leaf-put h i q t node = go (head_index q == i)
  where
    go :
        (c : Bool)
        → leaf_of h q (if c then some node else t (head_index q))
          ≡ (if c then leaf h (below q) node else leaf_of h q (t (head_index q)))
    go true = refl
    go false = refl

new_node-zeros : (h k i : ℕ) → or_zeros (leaf h k (new_node h)) i ≡ 0
unfolding leaf
new_node-zeros zero k i = refl
new_node-zeros (suc h) k i = refl

-- The node that `insert` goes on in has the same arrays, or has none but what it gets.
leaf_of-zeros :
    (h k i : ℕ) (o : Option (Tree h))
    → or_zeros (leaf h (below k) (node_of h o)) i ≡ or_zeros (leaf_of h k o) i
unfolding leaf
leaf_of-zeros h k i none = new_node-zeros h (below k) i
leaf_of-zeros h k i (some node) = refl

new_node-other : (h k q : ℕ) → same_leaf h k q ≡ false → leaf h q (new_node h) ≡ none
unfolding leaf same_leaf
new_node-other zero k q e = absurd (ground arith)
new_node-other (suc h) k q e = refl

leaf_of-other :
    (h k q : ℕ) (o : Option (Tree h))
    → same_leaf h k (below q) ≡ false
    → leaf h (below q) (node_of h o) ≡ leaf_of h q o
unfolding leaf
leaf_of-other h k q none e = new_node-other h k (below q) e
leaf_of-other h k q (some node) e = refl

-- What `insert` and `remove` do to the arrays.
abbrev pub LeafIs : (h k n v : ℕ) → Tree h → Tree h → Type 0
LeafIs h k n v t t' =
    (q : ℕ)
    → leaf h q t' ≡ (
        if same_leaf h k q
        then some (filled n (slot h k) v (or_zeros (leaf h k t)))
        else leaf h q t)

either_leaf :
    (c : Bool) (a a' b b' : Option (ℕ → ℕ))
    → a ≡ a'
    → (c ≡ false → b ≡ b')
    → (if c then a else b) ≡ (if c then a' else b')
either_leaf true a a' b b' e f = e
either_leaf false a a' b b' e f = f refl

same_leaf-suc :
    (h k q : ℕ)
    → same_leaf (suc h) k q ≡ ((head_index q == head_index k) && same_leaf h (below k) (below q))
unfolding same_leaf
same_leaf-suc h k q = refl

LeafIs-put :
    (h k n v : ℕ) (t : Tree (suc h)) (node : Tree h)
    → LeafIs h (below k) n v (node_of h (t (head_index k))) node
    → LeafIs (suc h) k n v t (put t (head_index k) (some node))
LeafIs-put h k n v t node is q =
    leaf-put h (head_index k) q t node ∙ elim (Bool-cases (head_index q == head_index k)) [
      | inr other ↦ rw (other, same_leaf-suc h k q, other) refl
      | inl same ↦
          rw (same, same_leaf-suc h k q, same) (here (==→eq (head_index q) (head_index k) same))
    ]
  where
    here :
        head_index q ≡ head_index k
        → leaf h (below q) node ≡ (
            if same_leaf h (below k) (below q)
            then some (filled n (slot (suc h) k) v (or_zeros (leaf (suc h) k t)))
            else leaf (suc h) q t)
    here e =
        unfold leaf slot in
        (is (below q)
          ∙ either_leaf (same_leaf h (below k) (below q)) _ _ _ _
              (ap (λ (old : ℕ → ℕ). some (filled n (slot h (below k)) v old))
                (fun_ext λ i. leaf_of-zeros h k i (t (head_index k))))
              λ f.
                leaf_of-other h (below k) q (t (head_index k)) f
                ∙ ap (λ j. leaf_of h q (t j)) (sym e))

LeafIs-bottom :
    (k n v : ℕ) (node : Tree zero) → LeafIs zero k n v node (filled n (bottom_index k) v node)
unfolding leaf slot same_leaf
LeafIs-bottom k n v node q = refl

pub insert-LeafIs :
    (h k v n : ℕ) (t : Tree h)
    → slot h k + as_usize n ≤ 2 ^ 23
    → Returns (LeafIs h k (as_usize n) v t) (insert h k v n t)
unfolding insert slot
insert-LeafIs zero k v n t fits =
    rw (fill-filled (as_usize n) (bottom_index k) v t fits)
      (returns (LeafIs-bottom k (as_usize n) v t))
insert-LeafIs (suc h) k v n t fits =
    Returns-bind (insert-LeafIs h (below k) v n (node_of h (t (head_index k))) fits)
      λ node is. returns (LeafIs-put h k (as_usize n) v t node is)

pub same_leaf-leaf : (h k q : ℕ) (t : Tree h) → same_leaf h k q ≡ true → leaf h q t ≡ leaf h k t
unfolding same_leaf leaf
same_leaf-leaf zero k q t e = refl
same_leaf-leaf (suc h) k q t e =
    ap (λ j. leaf_of h q (t j)) (==→eq (head_index q) (head_index k) (ground arith))
    ∙ below_same (t (head_index k)) λ x. same_leaf-leaf h (below k) (below q) x (ground arith)
  where
    below_same :
        (o : Option (Tree h))
        → ((x : Tree h) → leaf h (below q) x ≡ leaf h (below k) x)
        → leaf_of h q o ≡ leaf_of h k o
    below_same none ih = refl
    below_same (some x) ih = ih x

abbrev pub zeroed : ℕ → ℕ → Option (ℕ → ℕ) → Option (ℕ → ℕ)
zeroed n i none = none
zeroed n i (some node) = some (filled n i 0 node)

abbrev pub LeafZeroed : (h k n : ℕ) → Tree h → Tree h → Type 0
LeafZeroed h k n t t' =
    (q : ℕ)
    → leaf h q t' ≡ (if same_leaf h k q then zeroed n (slot h k) (leaf h k t) else leaf h q t)

none_either : (c : Bool) (a b : Option (ℕ → ℕ)) → a ≡ none → b ≡ none → none ≡ (if c then a else b)
none_either true a b e f = sym e
none_either false a b e f = sym f

LeafZeroed-none :
    (h k n : ℕ) (t : Tree (suc h)) → t (head_index k) ≡ none → LeafZeroed (suc h) k n t t
unfolding leaf same_leaf
LeafZeroed-none h k n t e q = elim (Bool-cases (head_index q == head_index k)) [
  | inr other ↦ rw other refl
  | inl same ↦
      let f = ap t (==→eq (head_index q) (head_index k) same) ∙ e in
      rw same (
        ap (leaf_of h q) f
        ∙ none_either (same_leaf h (below k) (below q)) _ _
            (ap (λ o. zeroed n (slot (suc h) k) (leaf_of h k o)) e) (ap (leaf_of h q) f))
]

LeafZeroed-put :
    (h k n : ℕ) (t : Tree (suc h)) (x node : Tree h)
    → t (head_index k) ≡ some x
    → LeafZeroed h (below k) n x node
    → LeafZeroed (suc h) k n t (put t (head_index k) (some node))
unfolding leaf same_leaf slot
LeafZeroed-put h k n t x node e is q =
    leaf-put h (head_index k) q t node ∙ elim (Bool-cases (head_index q == head_index k)) [
      | inr other ↦ rw other refl
      | inl same ↦
          let f = ap t (==→eq (head_index q) (head_index k) same) ∙ e in
          rw same (
            is (below q)
            ∙ either_leaf (same_leaf h (below k) (below q)) _ _ _ _
                (ap (λ o. zeroed n (slot h (below k)) (leaf_of h k o)) (sym e))
                λ _. ap (leaf_of h q) (sym f))
    ]

LeafZeroed-bottom :
    (k n : ℕ) (node : Tree zero) → LeafZeroed zero k n node (filled n (bottom_index k) 0 node)
unfolding leaf slot same_leaf
LeafZeroed-bottom k n node q = refl

pub remove-LeafZeroed :
    (h k n : ℕ) (t : Tree h)
    → slot h k + as_usize n ≤ 2 ^ 23
    → Returns (LeafZeroed h k (as_usize n) t) (remove h k n t)
unfolding remove slot
remove-LeafZeroed zero k n t fits =
    rw (fill-filled (as_usize n) (bottom_index k) 0 t fits)
      (returns (LeafZeroed-bottom k (as_usize n) t))
remove-LeafZeroed (suc h) k n t fits =
    go (t (head_index k)) refl λ x. remove-LeafZeroed h (below k) n x fits
  where
    go :
        (o : Option (Tree h))
        → t (head_index k) ≡ o
        → ((x : Tree h) → Returns (LeafZeroed h (below k) (as_usize n) x) (remove h (below k) n x))
        → Returns (LeafZeroed (suc h) k (as_usize n) t) (elim o [
          | none ↦ ok t
          | some node ↦ do node' ← remove h (below k) n node; ok (put t (head_index k) (some node'))
        ])
    go none e ih = (returns (LeafZeroed-none h k (as_usize n) t e))
    go (some x) e ih =
        (Returns-bind (ih x) λ node is. returns (LeafZeroed-put h k (as_usize n) t x node e is))

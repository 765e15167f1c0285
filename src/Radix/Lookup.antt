-- ===== src/Radix/Lookup.antt =====
-- The tree as a map from page numbers to values. A page number has 36 bits, 18 for each level.
use uni_alloc.Base.{
  ℕ, ◌+◌, ◌*◌, ◌/◌, ◌%◌, ◌^◌, ◌≤◌, ◌<◌, ◌≡◌, refl, ltb, leb, ◌&&◌, ◌==◌, if◌then◌else◌, arith,
  Option, none, some, ◌∙◌, Bool, sym, ==→eq, ap, true, false,
}
use mathlib.Core.Path.{ap₂, subst}
use uni_alloc.Base.Run.{ok, Returns, returns, Returns-map}
use uni_alloc.Radix.Bottom.{Node, width, index_of, put, fill-filled, filled}
use uni_alloc.Radix.Bottom
use uni_alloc.Radix.Head.{RadixTree, key_below, node_of, insert, remove, remove_below, get_mut}

-- The key of a page: the callers shift its address, a multiple of 4096, by 16.
abbrev pub key_of : ℕ → ℕ
key_of page = page * 4096 * 2 ^ 16 % 2 ^ 64

abbrev pub lookup : RadixTree → ℕ → ℕ
lookup t page = get_mut (key_of page) t

-- The same value by the two indices of the page.
abbrev value_at : RadixTree → ℕ → ℕ → ℕ
value_at t i j = node_of (t i) j

index_of-key_of : (page : ℕ) → page < 2 ^ 36 → index_of (key_of page) ≡ page / 2 ^ 18
unfolding index_of
index_of-key_of page h = omega arith

index_of-key_below : (page : ℕ) → page < 2 ^ 36 → index_of (key_below (key_of page)) ≡ page % 2 ^ 18
unfolding index_of key_below
index_of-key_below page h = omega arith

get_mut-value_at :
    (t : RadixTree) (k : ℕ) → get_mut k t ≡ value_at t (index_of k) (index_of (key_below k))
unfolding get_mut Bottom.get_mut
get_mut-value_at t k = ground arith

lookup-value_at :
    (t : RadixTree) (page : ℕ)
    → page < 2 ^ 36
    → lookup t page ≡ value_at t (page / 2 ^ 18) (page % 2 ^ 18)
lookup-value_at t page h =
    get_mut-value_at t (key_of page)
    ∙ ap₂ (λ i j. value_at t i j) (index_of-key_of page h) (index_of-key_below page h)

-- The pages from `page` on, `n` of them, have the value `v`, and the others the one they had.
abbrev pub IsUpdate : ℕ → ℕ → ℕ → RadixTree → RadixTree → Type 0
IsUpdate page n v t t' =
    (q : ℕ) → q < 2 ^ 36 → lookup t' q ≡ (if leb page q && ltb q (page + n) then v else lookup t q)

-- The tree with `n` values `v` from the place `j` of its node `i` on.
abbrev patched : RadixTree → ℕ → ℕ → ℕ → ℕ → RadixTree
patched t i j n v = put t i (some (filled n j v (node_of (t i))))

chosen :
    (c : Bool) (o : Option Node) (f : Node) (b : ℕ)
    → node_of (if c then some f else o) b ≡ (if c then f b else node_of o b)
chosen true o f b = refl
chosen false o f b = refl

same_place :
    (t : RadixTree) (i j n v a b : ℕ) (c : Bool)
    → (a == i) ≡ c
    → (if c then filled n j v (node_of (t i)) b else value_at t a b)
      ≡ (if c && (leb j b && ltb b (j + n)) then v else value_at t a b)
same_place t i j n v a b true e =
    ap (λ (d : ℕ). if leb j b && ltb b (j + n) then v else value_at t d b) (sym (==→eq a i e))
same_place t i j n v a b false e = refl

value_at-patched :
    (t : RadixTree) (i j n v a b : ℕ)
    → value_at (patched t i j n v) a b
      ≡ (if (a == i) && (leb j b && ltb b (j + n)) then v else value_at t a b)
unfolding put
value_at-patched t i j n v a b =
    chosen (a == i) (t a) (filled n j v (node_of (t i))) b ∙ same_place t i j n v a b (a == i) refl

insert-patched :
    (k v n : ℕ) (t : RadixTree)
    → index_of (key_below k) + n ≤ width
    → insert k v n t ≡ ok (patched t (index_of k) (index_of (key_below k)) n v)
unfolding insert Bottom.insert
insert-patched k v n t fits =
    rw (fill-filled n (index_of (key_below k)) v (node_of (t (index_of k))) fits) refl

in_range :
    (page n q : ℕ)
    → page % 2 ^ 18 + n ≤ width
    → ((q / 2 ^ 18 == page / 2 ^ 18)
        && (leb (page % 2 ^ 18) (q % 2 ^ 18) && ltb (q % 2 ^ 18) (page % 2 ^ 18 + n)))
      ≡ (leb page q && ltb q (page + n))
in_range page n q fits = ground arith

patched-IsUpdate :
    (page n v : ℕ) (t : RadixTree)
    → page % 2 ^ 18 + n ≤ width
    → IsUpdate page n v t (patched t (page / 2 ^ 18) (page % 2 ^ 18) n v)
patched-IsUpdate page n v t fits q b =
    lookup-value_at _ q b
    ∙ value_at-patched t (page / 2 ^ 18) (page % 2 ^ 18) n v (q / 2 ^ 18) (q % 2 ^ 18)
    ∙ ap₂ (λ (c : Bool) (x : ℕ). if c then v else x) (in_range page n q fits)
        (sym (lookup-value_at t q b))

pub insert-IsUpdate :
    (page n v : ℕ) (t : RadixTree)
    → page < 2 ^ 36
    → page % 2 ^ 18 + n ≤ width
    → Returns (IsUpdate page n v t) (insert (key_of page) v n t)
insert-IsUpdate page n v t h fits =
    let top = index_of-key_of page h in
    let low = index_of-key_below page h in
    let inside = subst (λ (j : ℕ). j + n ≤ width) (sym low) fits in
    let placed =
      insert-patched (key_of page) v n t inside
      ∙ ap₂ (λ (i j : ℕ). ok (patched t i j n v)) top low in
    subst (Returns (IsUpdate page n v t)) (sym placed) (returns (patched-IsUpdate page n v t fits))

-- Two trees with the same values.
abbrev SameValues : RadixTree → RadixTree → Type 0
SameValues t t' = (a b : ℕ) → value_at t' a b ≡ value_at t a b

either : (c : Bool) (x : ℕ) → (if c then x else x) ≡ x
either true x = refl
either false x = refl

no_node :
    (t : RadixTree) (i j n a b : ℕ)
    → t i ≡ none
    → value_at t a b ≡ (if (a == i) && (leb j b && ltb b (j + n)) then 0 else value_at t a b)
no_node t i j n a b e = go (a == i) refl
  where
    go :
        (c : Bool)
        → (a == i) ≡ c
        → value_at t a b ≡ (if c && (leb j b && ltb b (j + n)) then 0 else value_at t a b)
    go true f = rw (==→eq a i f, e) (sym (either (leb j b && ltb b (j + n)) 0))
    go false f = refl

remove_below-SameValues :
    (k n : ℕ) (t : RadixTree) (o : Option Node)
    → t (index_of k) ≡ o
    → index_of (key_below k) + n ≤ width
    → Returns
        (SameValues (patched t (index_of k) (index_of (key_below k)) n 0))
        (remove_below o k n t)
unfolding remove_below Bottom.remove
remove_below-SameValues k n t none e fits = returns λ a b.
    no_node t (index_of k) (index_of (key_below k)) n a b e
    ∙ sym (value_at-patched t (index_of k) (index_of (key_below k)) n 0 a b)
remove_below-SameValues k n t (some node) e fits =
    rw (fill-filled n (index_of (key_below k)) 0 node fits) (returns λ a b. rw e refl)

-- `remove` puts 0 at the pages from `page` on.
pub remove-IsUpdate :
    (page n : ℕ) (t : RadixTree)
    → page < 2 ^ 36
    → page % 2 ^ 18 + n ≤ width
    → Returns (IsUpdate page n 0 t) (remove (key_of page) n t)
unfolding remove
remove-IsUpdate page n t h fits =
    let top = index_of-key_of page h in
    let low = index_of-key_below page h in
    let inside = subst (λ (j : ℕ). j + n ≤ width) (sym low) fits in
    Returns-map (remove_below-SameValues (key_of page) n t _ refl inside) λ t' same q b.
      lookup-value_at t' q b
      ∙ same (q / 2 ^ 18) (q % 2 ^ 18)
      ∙ ap₂ (λ (i j : ℕ). value_at (patched t i j n 0) (q / 2 ^ 18) (q % 2 ^ 18)) top low
      ∙ sym (lookup-value_at (patched t (page / 2 ^ 18) (page % 2 ^ 18) n 0) q b)
      ∙ patched-IsUpdate page n 0 t fits q b

-- ===== src/Radix/Wide/Keys.antt =====
-- Trees with keys of 128 bits and five head levels, the ones of the source's test, as maps of keys.
use uni_alloc.Base.{
  not, ℕ, ◌+◌, ◌/◌, ◌%◌, ◌^◌, ◌≤◌, ◌<◌, ◌≡◌, refl, ◌∙◌, ap, Bool, ltb, leb, ◌&&◌, ◌==◌,
  if◌then◌else◌, arith, Option, none, some, Bool-cases, inl, inr, true, false,
}
use uni_alloc.Base.Run.{Returns, Returns-map}
use uni_alloc.Slab.World.{as_usize}
use uni_alloc.Radix.Wide.{remove, Tree, head_index, bottom_index, below, insert, get_mut}
use uni_alloc.Radix.Wide.Leaves.{
  leaf, zeroed, LeafZeroed, remove-LeafZeroed, slot, same_leaf, LeafIs, value_in, or_zeros,
  get_mut-leaf, same_leaf-leaf, insert-LeafIs,
}

-- The tree of the source's test has five head levels: the array of a key is that of its upper 105 bits, and
-- the place in it that of the others.
slot-full : (k : ℕ) → k < 2 ^ 128 → slot 5 k ≡ k % 2 ^ 23
unfolding slot below bottom_index
slot-full k h = omega arith

digit :
    (a b : ℕ) (rest : Bool)
    → ((a / 2 ^ 21 == b / 2 ^ 21) && ((a % 2 ^ 21 == b % 2 ^ 21) && rest)) ≡ ((a == b) && rest)
digit a b rest = ground arith

-- The digits of a key that the five heads take, of its upper 105 bits.
module _ (k : ℕ) (h : k < 2 ^ 128) where
  first_digit : head_index k ≡ k / 2 ^ 23 / 2 ^ 21 / 2 ^ 21 / 2 ^ 21 / 2 ^ 21
  unfolding head_index
  first_digit = omega arith

  second_digit : head_index (below k) ≡ k / 2 ^ 23 / 2 ^ 21 / 2 ^ 21 / 2 ^ 21 % 2 ^ 21
  unfolding head_index below
  second_digit = omega arith

  third_digit : head_index (below (below k)) ≡ k / 2 ^ 23 / 2 ^ 21 / 2 ^ 21 % 2 ^ 21
  unfolding head_index below
  third_digit = omega arith

  fourth_digit : head_index (below (below (below k))) ≡ k / 2 ^ 23 / 2 ^ 21 % 2 ^ 21
  unfolding head_index below
  fourth_digit = omega arith

  fifth_digit : head_index (below (below (below (below k)))) ≡ k / 2 ^ 23 % 2 ^ 21
  unfolding head_index below
  fifth_digit = omega arith

same_leaf-full :
    (k q : ℕ) → k < 2 ^ 128 → q < 2 ^ 128 → same_leaf 5 k q ≡ (q / 2 ^ 23 == k / 2 ^ 23)
unfolding same_leaf
same_leaf-full k q h g =
    let a = k / 2 ^ 23 in
    let b = q / 2 ^ 23 in
    rw
      (
        first_digit k h,
        first_digit q g,
        second_digit k h,
        second_digit q g,
        third_digit k h,
        third_digit q g,
        fourth_digit k h,
        fourth_digit q g,
        fifth_digit k h,
        fifth_digit q g,
        digit (b / 2 ^ 21 / 2 ^ 21 / 2 ^ 21) (a / 2 ^ 21 / 2 ^ 21 / 2 ^ 21),
        digit (b / 2 ^ 21 / 2 ^ 21) (a / 2 ^ 21 / 2 ^ 21),
        digit (b / 2 ^ 21) (a / 2 ^ 21),
        digit b a,
      )
      (ground arith)

get_mut-full :
    (q : ℕ) (t : Tree 5) → q < 2 ^ 128 → get_mut 5 q t ≡ value_in (leaf 5 q t) (q % 2 ^ 23)
get_mut-full q t h = get_mut-leaf 5 q t ∙ ap (value_in (leaf 5 q t)) (slot-full q h)

-- The keys of an array that is not there read as -1.
abbrev pub is_missing : ℕ → Tree 5 → Bool
is_missing k t = elim (leaf 5 k t) [ none ↦ true | some node ↦ false ]

-- The keys from `k` on, `n` of them, have the value `v`; in an array that was not there the other keys have 0
-- now, and all other keys the value they had.
abbrev pub IsEntered : (k n v : ℕ) → Tree 5 → Tree 5 → Type 0
IsEntered k n v t t' =
    (q : ℕ)
    → q < 2 ^ 128
    → get_mut 5 q t' ≡ (
        if leb k q && ltb q (k + n)
        then v
        else if (q / 2 ^ 23 == k / 2 ^ 23) && is_missing k t
        then 0
        else get_mut 5 q t)

outside :
    (k n q : ℕ)
    → k % 2 ^ 23 + n ≤ 2 ^ 23
    → (q / 2 ^ 23 == k / 2 ^ 23) ≡ false
    → (leb k q && ltb q (k + n)) ≡ false
outside k n q fits e = ground arith

inside :
    (k n q : ℕ)
    → k % 2 ^ 23 + n ≤ 2 ^ 23
    → (q / 2 ^ 23 == k / 2 ^ 23) ≡ true
    → (leb (k % 2 ^ 23) (q % 2 ^ 23) && ltb (q % 2 ^ 23) (k % 2 ^ 23 + n))
      ≡ (leb k q && ltb q (k + n))
inside k n q fits e = ground arith

was_there :
    (c : Bool) (v i : ℕ) (o : Option (ℕ → ℕ))
    → (if c then v else or_zeros o i)
      ≡ (if c then v else if elim o [ none ↦ true | some node ↦ false ] then 0 else value_in o i)
was_there c v i none = refl
was_there c v i (some node) = refl

LeafIs-IsEntered :
    (k n v : ℕ) (t t' : Tree 5)
    → k < 2 ^ 128
    → k % 2 ^ 23 + n ≤ 2 ^ 23
    → LeafIs 5 k n v t t'
    → IsEntered k n v t t'
LeafIs-IsEntered k n v t t' h fits is q g =
    rw (get_mut-full q t' g, is q, same_leaf-full k q h g, slot-full k h, get_mut-full q t g)
      (elim (Bool-cases (q / 2 ^ 23 == k / 2 ^ 23)) [
        | inr other ↦ rw (other, outside k n q fits other) refl
        | inl same ↦
            rw
              (same, same_leaf-leaf 5 k q t (same_leaf-full k q h g ∙ same), inside k n q fits same)
              (was_there (leb k q && ltb q (k + n)) v (q % 2 ^ 23) (leaf 5 k t))
      ])

-- For keys of 128 bits, `insert` of `n` keys that are in one array of 2^23 returns a tree in which these
-- keys have the value; in an array that was not there the other keys have 0 then, and all other keys
-- have the value they had.
pub insert-IsEntered :
    (k v n : ℕ) (t : Tree 5)
    → k < 2 ^ 128
    → k % 2 ^ 23 + n ≤ 2 ^ 23
    → Returns (IsEntered k n v t) (insert 5 k v n t)
unfolding as_usize
insert-IsEntered k v n t h fits =
    let count : as_usize n ≡ n = ground arith in
    Returns-map (insert-LeafIs 5 k v n t (rw (slot-full k h, count) fits))
      λ t' is. LeafIs-IsEntered k n v t t' h fits (rw count at is)

-- The keys from `k` on, `n` of them, have 0 if their array is there, and all other keys the value they had.
abbrev pub IsCleared : (k n : ℕ) → Tree 5 → Tree 5 → Type 0
IsCleared k n t t' =
    (q : ℕ)
    → q < 2 ^ 128
    → get_mut 5 q t'
      ≡ (if (leb k q && ltb q (k + n)) && not (is_missing k t) then 0 else get_mut 5 q t)

only_there :
    (c : Bool) (n j i : ℕ) (o : Option (ℕ → ℕ))
    → (leb j i && ltb i (j + n)) ≡ c
    → value_in (zeroed n j o) i
      ≡ (if c && not (elim o [ none ↦ true | some node ↦ false ]) then 0 else value_in o i)
only_there true n j i none e = refl
only_there false n j i none e = refl
only_there true n j i (some node) e = rw e refl
only_there false n j i (some node) e = rw e refl

LeafZeroed-IsCleared :
    (k n : ℕ) (t t' : Tree 5)
    → k < 2 ^ 128
    → k % 2 ^ 23 + n ≤ 2 ^ 23
    → LeafZeroed 5 k n t t'
    → IsCleared k n t t'
LeafZeroed-IsCleared k n t t' h fits is q g =
    rw (get_mut-full q t' g, is q, same_leaf-full k q h g, slot-full k h, get_mut-full q t g)
      (elim (Bool-cases (q / 2 ^ 23 == k / 2 ^ 23)) [
        | inr other ↦ rw (other, outside k n q fits other) refl
        | inl same ↦
            rw (same, same_leaf-leaf 5 k q t (same_leaf-full k q h g ∙ same))
              (only_there (leb k q && ltb q (k + n)) n (k % 2 ^ 23) (q % 2 ^ 23) (leaf 5 k t)
                (inside k n q fits same))
      ])

-- For keys of 128 bits, `remove` of `n` keys that are in one array of 2^23 returns a tree in which these
-- keys have 0 if their array was there, and all other keys have the value they had.
pub remove-IsCleared :
    (k n : ℕ) (t : Tree 5)
    → k < 2 ^ 128
    → k % 2 ^ 23 + n ≤ 2 ^ 23
    → Returns (IsCleared k n t) (remove 5 k n t)
unfolding as_usize
remove-IsCleared k n t h fits =
    let count : as_usize n ≡ n = ground arith in
    Returns-map (remove-LeafZeroed 5 k n t (rw (slot-full k h, count) fits))
      λ t' is. LeafZeroed-IsCleared k n t t' h fits (rw count at is)

-- ===== src/Buddy/Trips.antt =====
-- A block that is allocated and given back leaves the array as it was.
use mathlib.Core.Path.{subst}
use uni_alloc.Base.{ℕ, suc, ◌+◌, ◌-◌, ◌^◌, ◌<◌, ◌≤◌, ◌≡◌, ◌∙◌, lt→ltb, arith, inl, inr, Bool-cases}
use uni_alloc.Base.Run.{Returns, Returns-bind, Returns-map, ◌>>=◌, expect}
use uni_alloc.Buddy.{FlatBlocks, allocate, deallocate}
use uni_alloc.Buddy.Space.{Space, value, value_le, place, take, take-IsTake}
use uni_alloc.Buddy.Nodes.{Stands, Stands-IsNormal, Stands-unique, SameBut, under}
use uni_alloc.Buddy.Taking.{allocate-Stands}
use uni_alloc.Buddy.Giving.{deallocate-Stands}

-- Every byte is that of a node, in the tree or not.
all_same :
    (t s s' : FlatBlocks) (k : ℕ) (b : Space)
    → Stands t 1 k b
    → Stands s' 1 k b
    → SameBut 1 k t s
    → SameBut 1 k s s'
    → (i : ℕ) → s' i ≡ t i
all_same t s s' k b before after one two i =
    subst (λ x. s' x ≡ t x) (suc-minus_one i)
      (elim (Bool-cases (under k 1 (suc i))) [
        | inl inside ↦ Stands-unique t s' 1 k b before after (suc i) inside
        | inr outside ↦ two (suc i) (omega arith) outside ∙ one (suc i) (omega arith) outside
      ])
  where
    suc-minus_one : (i : ℕ) → suc i - 1 ≡ i
    suc-minus_one i = omega arith

-- In an array that holds the whole tree, of blocks of fewer than 64 address bits: if there is a free
-- block of the order asked for, and the one that is found is not the last of the array, allocating
-- it and giving it back returns, and every byte of the array is as it was.
pub deallocate-allocate_bytes :
    (levels base_order max_order order : ℕ) (t : FlatBlocks) (b : Space)
    → max_order < levels
    → base_order + max_order < 64
    → Stands t 1 max_order b
    → order < value max_order b
    → 2 ^ (max_order - order) + place (max_order - order) order max_order b + 1 < 2 ^ levels
    → Returns
        (λ t'. (i : ℕ) → t' i ≡ t i)
        (allocate levels base_order max_order t order >>= λ (p, s).
          expect p >>= λ ptr. deallocate levels base_order max_order s ptr order)
deallocate-allocate_bytes levels base_order max_order order t b fits small st room inside =
    let m = max_order - order in
    let q = place m order max_order b in
    let le : order ≤ max_order = omega (arith, value_le max_order b) in
    let tk =
      take-IsTake m order max_order b (omega arith) (Stands-IsNormal t 1 max_order b st) room in
    Returns-bind
      (rw (lt→ltb order (value max_order b) room) at
        (allocate-Stands levels base_order max_order order t b fits small st))
      λ (p, s) (e, taken, same). rw e (
        Returns-map
          (deallocate-Stands levels base_order max_order order q s (take m order max_order b) fits
            le taken tk.inside tk.out inside)
          λ s' (given, again).
            all_same t s s' max_order b st (subst (λ c. Stands s' 1 max_order c) tk.back given) same
              again)

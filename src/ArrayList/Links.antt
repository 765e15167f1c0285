-- ===== src/ArrayList/Links.antt =====
-- The vector holds a set of circular lists: the links of each node lead inside the vector, and the
-- two link functions are inverse to each other. Every operation keeps it so.
use uni_alloc.Base.{
  ℕ, suc, ◌<◌, ◌^◌, ◌≡◌, ◌≢◌, refl, ap, ◌∙◌, ◌==◌, if◌then◌else◌, some, List, [], ◌∷◌, ◌++◌, length,
  arith, length-append, lt→ltb, le→ltb,
}
use mathlib.Core.Path.{subst}
use uni_alloc.Base.Run.{ok, panic, Returns, returns, Returns-bind}
use uni_alloc.ArrayList.{
  ArrayLinkedList, update, push, remove_node, pop, insert_to_next, insert_to_prev, get_prev,
  get_next, set_prev, set_next, vec_pop, tail,
}

-- The links of `n` nodes.
pub record IsLinked (n : ℕ) (prev next : ℕ → ℕ) : Type 0 where
  pub prev_lt : (i : ℕ) → i < n → prev i < n
  pub next_lt : (i : ℕ) → i < n → next i < n
  pub next-prev : (i : ℕ) → i < n → next (prev i) ≡ i
  pub prev-next : (i : ℕ) → i < n → prev (next i) ≡ i

-- The links without `idx`, which is left alone.
abbrev pub skipped : (ℕ → ℕ) → ℕ → ℕ → ℕ
skipped f idx j = if j == idx then idx else if f j == idx then f idx else f j

module _ (n : ℕ) (prev next : ℕ → ℕ) (linked : IsLinked n prev next) (idx : ℕ) (h : idx < n) where
  skipped-IsLinked : IsLinked n (skipped prev idx) (skipped next idx)
  skipped-IsLinked = record {
    prev_lt = λ i b. ground (arith, linked.prev_lt i b, linked.prev_lt idx h);
    next_lt = λ i b. ground (arith, linked.next_lt i b, linked.next_lt idx h);
    next-prev =
        λ i b. ground (arith, linked.next-prev i b, linked.next-prev idx h, linked.prev-next idx h);
    prev-next =
        λ i b. ground (arith, linked.prev-next i b, linked.next-prev idx h, linked.prev-next idx h);
  }

-- The links with `idx`, which was alone, between `a` and `b`.
abbrev joined_prev : (ℕ → ℕ) → ℕ → ℕ → ℕ → ℕ → ℕ
joined_prev prev a b idx = update (update prev b idx) idx a

abbrev joined_next : (ℕ → ℕ) → ℕ → ℕ → ℕ → ℕ → ℕ
joined_next next a b idx = update (update next a idx) idx b

module _ (n : ℕ) (prev next : ℕ → ℕ) (linked : IsLinked n prev next) (a b idx : ℕ) (ha : a < n)
    (hb : b < n) (h : idx < n) (forth : next a ≡ b) (back : prev b ≡ a) (other : idx ≢ a)
    (alone_prev : prev idx ≡ idx) (alone_next : next idx ≡ idx) where
  joined-IsLinked : IsLinked n (joined_prev prev a b idx) (joined_next next a b idx)
  unfolding update
  joined-IsLinked = record {
    prev_lt = λ i l. ground (arith, linked.prev_lt i l);
    next_lt = λ i l. ground (arith, linked.next_lt i l);
    next-prev = λ i l. ground (arith, linked.next-prev i l);
    prev-next = λ i l. ground (arith, linked.prev-next i l);
  }

IsLinked-cong :
    (n : ℕ) (prev next prev' next' : ℕ → ℕ)
    → ((i : ℕ) → i < n → prev' i ≡ prev i)
    → ((i : ℕ) → i < n → next' i ≡ next i)
    → IsLinked n prev next
    → IsLinked n prev' next'
IsLinked-cong n prev next prev' next' p q linked = record {
  prev_lt = λ i b. ground (arith, p i b, linked.prev_lt i b);
  next_lt = λ i b. ground (arith, q i b, linked.next_lt i b);
  next-prev = λ i b. ground (arith, p i b, q (prev i) (linked.prev_lt i b), linked.next-prev i b);
  prev-next = λ i b. ground (arith, q i b, p (next i) (linked.next_lt i b), linked.prev-next i b);
}

module _ {ℓ} {A : Type ℓ} (l : ArrayLinkedList A) where
  abbrev pub WellLinked : Type 0
  WellLinked = IsLinked (length l.items) l.prev l.next

  pub remove_node-eq :
      (idx : ℕ)
      → idx < length l.items
      → l.next idx < length l.items
      → l.prev idx < length l.items
      → remove_node l idx
        ≡ ok (record l {
          prev = update (update l.prev (l.next idx) (l.prev idx)) idx idx;
          next = update (update l.next (l.prev idx) (l.next idx)) idx idx;
        })
  unfolding remove_node get_prev get_next set_prev set_next
  remove_node-eq idx h after before =
      rw
        (
          lt→ltb idx (length l.items) h,
          lt→ltb _ _ after,
          lt→ltb _ _ before,
          lt→ltb idx (length l.items) h,
          lt→ltb idx (length l.items) h,
        )
        refl

  -- A node that is removed is left alone, and its neighbours are linked to each other.
  pub remove_node-WellLinked :
      (idx : ℕ)
      → WellLinked
      → idx < length l.items
      → Returns
          (λ l'.
            (l'.items ≡ l.items)
            × IsLinked (length l.items) l'.prev l'.next
            × ((j : ℕ) → j < length l.items → l'.next j ≡ skipped l.next idx j))
          (remove_node l idx)
  remove_node-WellLinked idx linked h =
      rw (remove_node-eq idx h (linked.next_lt idx h) (linked.prev_lt idx h)) (
        returns (
          refl,
          IsLinked-cong (length l.items) (skipped l.prev idx) (skipped l.next idx) _ _ same_prev
              same_next (skipped-IsLinked (length l.items) l.prev l.next linked idx h),
          same_next,
        ))
    where
      same_prev :
          (j : ℕ)
          → j < length l.items
          → update (update l.prev (l.next idx) (l.prev idx)) idx idx j ≡ skipped l.prev idx j
      same_prev j b = unfold update in ground (arith, linked.next-prev j b, linked.prev-next idx h)

      same_next :
          (j : ℕ)
          → j < length l.items
          → update (update l.next (l.prev idx) (l.next idx)) idx idx j ≡ skipped l.next idx j
      same_next j b = unfold update in ground (arith, linked.prev-next j b, linked.next-prev idx h)

  module _ (base idx : ℕ) (linked : WellLinked) (h : base < length l.items)
      (k : idx < length l.items) (other : idx ≢ base)
      (alone : (l.prev idx ≡ idx) × (l.next idx ≡ idx)) where
    -- A node that is alone comes behind `base`.
    pub insert_to_next-WellLinked :
        Returns
          (λ l'.
            (l'.items ≡ l.items)
            × IsLinked (length l.items) l'.prev l'.next
            × (l'.next base ≡ idx)
            × (l'.next idx ≡ l.next base)
            × ((j : ℕ) → j ≢ base → j ≢ idx → l'.next j ≡ l.next j))
          (insert_to_next l base idx)
    unfolding insert_to_next update get_next set_next set_prev
    insert_to_next-WellLinked =
        rw
          (
            lt→ltb base (length l.items) h,
            lt→ltb _ _ (linked.next_lt base h),
            lt→ltb base (length l.items) h,
            lt→ltb idx (length l.items) k,
            lt→ltb idx (length l.items) k,
          )
          (returns (
            refl,
            joined-IsLinked (length l.items) l.prev l.next linked base (l.next base) idx h
                (linked.next_lt base h) k refl (linked.prev-next base h) other alone.0 alone.1,
            ground arith,
            ground arith,
            λ j p q. ground arith,
          ))

    -- A node that is alone comes before `base`.
    pub insert_to_prev-WellLinked :
        Returns
          (λ l'.
            (l'.items ≡ l.items)
            × IsLinked (length l.items) l'.prev l'.next
            × (l'.next idx ≡ base)
            × (l'.next (l.prev base) ≡ idx)
            × ((j : ℕ) → j ≢ l.prev base → j ≢ idx → l'.next j ≡ l.next j))
          (insert_to_prev l base idx)
    unfolding insert_to_prev update get_prev set_next set_prev
    insert_to_prev-WellLinked =
        rw
          (
            lt→ltb base (length l.items) h,
            lt→ltb _ _ (linked.prev_lt base h),
            lt→ltb base (length l.items) h,
            lt→ltb idx (length l.items) k,
            lt→ltb idx (length l.items) k,
          )
          (returns (
            refl,
            joined-IsLinked (length l.items) l.prev l.next linked (l.prev base) base idx
                (linked.prev_lt base h) h k (linked.next-prev base h) refl apart alone.0 alone.1,
            ground arith,
            ground (arith, apart),
            λ j p q. ground arith,
          ))
      where
        apart : idx ≢ l.prev base
        apart e = other (ground (arith, linked.next-prev base h))

  -- A new node is alone, at the end of the vector.
  pub push-WellLinked :
      (item : A)
      → WellLinked
      → IsLinked (suc (length l.items)) (push l item).prev (push l item).next
        × ((push l item).next (length l.items) ≡ length l.items)
        × (length (push l item).items ≡ suc (length l.items))
  unfolding push update
  push-WellLinked item linked = (
    record {
      prev_lt = λ i b. ground (arith, linked.prev_lt i);
      next_lt = λ i b. ground (arith, linked.next_lt i);
      next-prev = λ i b. ground (arith, linked.next-prev i, linked.prev_lt i);
      prev-next = λ i b. ground (arith, linked.prev-next i, linked.next_lt i);
    },
    ground arith,
    omega (arith, length-append l.items (item ∷ [])),
  )

-- The last of the nodes is alone: without it the others are still linked.
IsLinked-init :
    (n : ℕ) (prev next : ℕ → ℕ) → IsLinked (suc n) prev next → next n ≡ n → IsLinked n prev next
IsLinked-init n prev next linked alone =
    let last = linked.prev-next n (omega arith) in
    record {
      prev_lt = λ i b. ground (arith, linked.prev_lt i, linked.next-prev i);
      next_lt = λ i b. ground (arith, linked.next_lt i, linked.prev-next i);
      next-prev = λ i b. linked.next-prev i (omega arith);
      prev-next = λ i b. linked.prev-next i (omega arith);
    }

module _ {ℓ} {A : Type ℓ} where
  vec_pop_lem :
      (x : A) (xs : List A)
      → (r : A × List A) × (vec_pop (x ∷ xs) ≡ some r) × (x ∷ xs ≡ r.1 ++ (r.0 ∷ []))
  vec_pop_lem x [] = ((x, []), refl, refl)
  vec_pop_lem x (y ∷ ys) =
      let (r, e, f) = vec_pop_lem y ys in ((r.0, x ∷ r.1), rw e refl, ap (◌∷◌ x) f)

  -- `pop` on a vector with an item takes the last one out.
  pub pop-WellLinked :
      (l : ArrayLinkedList A) (x : A) (xs : List A)
      → l.items ≡ x ∷ xs
      → length l.items < 2 ^ 64
      → WellLinked l
      → Returns
          (λ (o, l'). WellLinked l' × ((y : A) × (o ≡ some y) × (l.items ≡ l'.items ++ (y ∷ []))))
          (pop l)
  unfolding pop tail
  pop-WellLinked l x xs e small linked =
      let (r, f, g) = vec_pop_lem x xs in
      let last = length r.1 in
      let whole : length l.items ≡ suc last =
        ap length (e ∙ g) ∙ omega (arith, length-append r.1 (r.0 ∷ [])) in
      let place : tail l ≡ last = omega arith in
      Returns-bind (remove_node-WellLinked l (tail l) linked (omega arith))
        λ l1 (same, linked1, skip).
          let alone : l1.next last ≡ last = ground (arith, skip last) in
          rw (ap vec_pop (same ∙ e) ∙ f) (
            returns {a = (some r.0, record l1 { items = r.1 })} (
              IsLinked-init last l1.prev l1.next
                  (subst (λ n. IsLinked n l1.prev l1.next) whole linked1) alone,
              (r.0, refl, e ∙ g),
            ))

  -- `pop` on an empty vector fails.
  pub pop-empty : (l : ArrayLinkedList A) → length l.items ≡ 0 → pop l ≡ panic
  unfolding pop tail remove_node get_prev
  pop-empty l h = rw (le→ltb (tail l) (length l.items) (omega arith)) refl

-- ===== src/FreeList/Joining.antt =====
-- A block joins a list of the page backend.
use uni_alloc.Base.{
  ℕ, ◌+◌, ◌*◌, ◌≡◌, ◌≤◌, ◌⊎◌, inl, inr, none, some, List, [], ◌∷◌, ◌==◌, true, false, arith, refl,
  sym, ◌∙◌, ap, Bool-cases, ==→eq, lt→ltb,
}
use uni_alloc.Base.Run.{Returns, returns, Returns-bind, Returns-then}
use uni_alloc.Memory.Chain.{has, has_ne}
use uni_alloc.Radix.Head.{RadixTree}
use uni_alloc.Radix.Head
use uni_alloc.Radix.Lookup.{lookup}
use uni_alloc.FreeList.{
  FreeList, entry_of, marker, put, insert_one, push_before_head, backend_max_page,
}
use uni_alloc.FreeList.Blocks.{
  Linked, Linked-frame, AreApart, IsBlock, Holds, pushed_prev, pushed_next, pushed-Linked,
}
use uni_alloc.FreeList.Marks.{is_end, EndsAre, mark_lem}
use uni_alloc.FreeList.Moves.{other_list}

-- The block does not overlap any of these.
abbrev pub IsFresh : (ℕ → List ℕ) → ℕ → ℕ → Type 0
IsFresh ls i a =
    (j b : ℕ) → has b (ls j) ≡ true → (a + (i + 1) * 4096 ≤ b) ⊎ (b + (j + 1) * 4096 ≤ a)

module _ (ls : ℕ → List ℕ) (i a : ℕ) (fresh : IsFresh ls i a) where
  pub fresh_out : (j : ℕ) → has a (ls j) ≡ false
  fresh_out j = elim (Bool-cases (has a (ls j))) [
    | inl there ↦ absurd (omega (arith, fresh j a there))
    | inr out ↦ out
  ]

  -- With the new block, what is in a list was there or is the new block.
  pub old_or_new :
      (j b : ℕ) → has b (put ls i (a ∷ ls i) j) ≡ true → ((j ≡ i) × (b ≡ a)) ⊎ (has b (ls j) ≡ true)
  unfolding put
  old_or_new j b h = elim (Bool-cases (j == i)) [
    | inl e ↦
        let h' : has b (a ∷ ls i) ≡ true = rw e at h in
        elim (Bool-cases (b == a)) [
          | inl f ↦ inl (==→eq j i e, ==→eq b a f)
          | inr f ↦ inr (ap (λ k. has b (ls k)) (==→eq j i e) ∙ ground arith)
        ]
    | inr e ↦ inr (rw e at h)
  ]

  old_stays : (j b : ℕ) → has b (ls j) ≡ true → has b (put ls i (a ∷ ls i) j) ≡ true
  unfolding put
  old_stays j b h = elim (Bool-cases (j == i)) [
    | inl e ↦ let there = ap (λ k. has b (ls k)) (sym (==→eq j i e)) ∙ h in rw e (ground arith)
    | inr e ↦ rw e h
  ]

  module _ {Os : Type 0} (s : FreeList Os) (holds : Holds s ls) (block : IsBlock i a) where
    new-AreApart :
        (j b k c : ℕ)
        → ((j ≡ i) × (b ≡ a)) ⊎ (has b (ls j) ≡ true)
        → ((k ≡ i) × (c ≡ a)) ⊎ (has c (ls k) ≡ true)
        → AreApart j b k c
    new-AreApart j b k c (inl (e, f)) (inl (g, h)) = inl (e ∙ sym g, f ∙ sym h)
    new-AreApart j b k c (inl (e, f)) (inr old) = rw (e, f) (inr (fresh k c old))
    new-AreApart j b k c (inr old) (inl (g, h)) =
        rw (g, h)
          (elim (fresh j b old) [ inl below ↦ inr (inr below) | inr above ↦ inr (inl above) ])
    new-AreApart j b k c (inr old) (inr old') = holds.apart j b k c old old'

    joined : RadixTree → FreeList Os
    joined t = record s {
      prev = pushed_prev (ls i) a s.prev;
      next = pushed_next (ls i) a s.next;
      rd_tree = t;
      lists = put s.lists i (some a);
    }

    pushed_other :
        (j : ℕ)
        → (j == i) ≡ false
        → Linked (pushed_next (ls i) a s.next) (pushed_prev (ls i) a s.prev) none (ls j)
    pushed_other j other = go (ls i) refl
      where
        go :
            (xs : List ℕ)
            → ls i ≡ xs
            → Linked (pushed_next xs a s.next) (pushed_prev xs a s.prev) none (ls j)
        go [] e = holds.linked j
        go (y ∷ ys) e =
            let there : has y (ls i) ≡ true = rw e (ground arith) in
            let y_out = other_list s ls holds i j y there other in
            Linked-frame s.next s.prev _ _ none (ls j)
              (λ b h.
                let b_a = has_ne b a (ls j) h (fresh_out j) in
                let b_y = has_ne b y (ls j) h y_out in unfold put in (ground arith, ground arith))
              (holds.linked j)

    joined-Holds :
        (t : RadixTree)
        → EndsAre i a (marker i) s.rd_tree t
        → s.next a ≡ none
        → s.prev a ≡ none
        → Holds (joined t) (put ls i (a ∷ ls i))
    unfolding put joined
    joined-Holds t marked bare bare' = record {
      heads = λ j. elim (Bool-cases (j == i)) [ inl e ↦ rw e refl | inr e ↦ rw e (holds.heads j) ];
      linked = λ j. elim (Bool-cases (j == i)) [
        | inl e ↦ rw e (
            pushed-Linked s.next s.prev a (ls i) (holds.linked i) (holds.distinct i) (fresh_out i)
              bare bare')
        | inr e ↦ rw e (pushed_other j e)
      ];
      distinct = λ j. elim (Bool-cases (j == i)) [
        | inl e ↦ rw e (fresh_out i, holds.distinct i)
        | inr e ↦ rw e (holds.distinct j)
      ];
      blocks = λ j b h. elim (old_or_new j b h) [
        | inl (e, f) ↦ rw (e, f) block
        | inr old ↦ holds.blocks j b old
      ];
      apart = λ j b k c h m. new-AreApart j b k c (old_or_new j b h) (old_or_new k c m);
      marks = λ q h. elim (Bool-cases (is_end i a q)) [
        | inl e ↦
            let same : lookup t q ≡ marker i = rw (marked q h, e) refl in
            let whole = block.aligned in
            inr (record {
              idx = i;
              block = a;
              member = ground arith;
              value = same;
              page = ground arith;
            })
        | inr e ↦
            let same : lookup t q ≡ lookup s.rd_tree q = rw (marked q h, e) refl in
            elim (holds.marks q h) [
              | inl small ↦ inl (rw same small)
              | inr m ↦ inr (
                  rw same (record {
                    idx = m.idx;
                    block = m.block;
                    member = old_stays m.idx m.block m.member;
                    value = m.value;
                    page = m.page;
                  }))
            ]
      ];
    }

    linked_in : FreeList Os
    linked_in = elim (s.lists i) [ none ↦ s | some head ↦ push_before_head head a s ]

    linked_in-eq :
        linked_in
        ≡ record s { prev = pushed_prev (ls i) a s.prev; next = pushed_next (ls i) a s.next }
    unfolding linked_in push_before_head
    linked_in-eq = go (ls i) refl
      where
        go :
            (xs : List ℕ)
            → ls i ≡ xs
            → linked_in
              ≡ record s { prev = pushed_prev xs a s.prev; next = pushed_next xs a s.next }
        go [] e = ground (arith, holds.heads i, e)
        go (y ∷ ys) e = ground (arith, holds.heads i, e)

    -- The block becomes the first of its list.
    pub insert_one-Holds :
        s.next a ≡ none
        → s.prev a ≡ none
        → Returns
            (λ s'. Holds s' (put ls i (a ∷ ls i)) × (s'.bump ≡ s.bump) × (s'.os ≡ s.os))
            (insert_one i a s)
    unfolding insert_one joined linked_in
    insert_one-Holds bare bare' =
        rw (lt→ltb i backend_max_page block.listed, linked_in-eq)
          (Returns-then (Head.insert (entry_of a) (marker i) 1 s.rd_tree) _ _ (
            Returns-bind (mark_lem i a block (marker i) s.rd_tree)
              λ t marked. returns (joined-Holds t marked bare bare', refl, refl)))

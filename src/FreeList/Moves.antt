-- ===== src/FreeList/Moves.antt =====
-- A block of the page backend leaves its list, or joins one.
use uni_alloc.Base.{
  ℕ, ◌≡◌, ◌<◌, ◌⊎◌, inl, inr, Option, none, some, List, [], ◌∷◌, ◌==◌, true, false, arith, refl,
  sym, ◌∙◌, ap, Bool-cases, ==→eq, lt→ltb,
}
use mathlib.Core.Path.{subst}
use uni_alloc.Base.Run.{Returns, returns, Returns-bind}
use uni_alloc.Memory.Chain.{has, IsDistinct}
use uni_alloc.Radix.Head.{RadixTree}
use uni_alloc.Radix.Lookup.{lookup}
use uni_alloc.FreeList.{FreeList, put, remove_one, backend_max_page}
use uni_alloc.FreeList.Blocks.{
  head_of, Linked, Linked-frame, IsMark, Holds, cleared, cleared-Linked, cleared-other,
  remove_current-head,
}
use uni_alloc.FreeList.Marks.{is_end, EndsAre, unmark_lem}

module _ {Os : Type 0} (s : FreeList Os) (ls : ℕ → List ℕ) (holds : Holds s ls) where
  pub other_list : (i j b : ℕ) → has b (ls i) ≡ true → (j == i) ≡ false → has b (ls j) ≡ false
  other_list i j b h other = elim (Bool-cases (has b (ls j))) [
    | inl there ↦ absurd (ground (arith, holds.apart i b j b h there))
    | inr out ↦ out
  ]

  module _ (i a : ℕ) (rest : List ℕ) (here : ls i ≡ a ∷ rest) where
    first_in : has a (ls i) ≡ true
    first_in = rw here (ground arith)

    rest_in : (b : ℕ) → has b rest ≡ true → has b (ls i) ≡ true
    rest_in b h = rw here (ground arith)

    kept : (j b : ℕ) → has b (put ls i rest j) ≡ true → has b (ls j) ≡ true
    unfolding put
    kept j b h = elim (Bool-cases (j == i)) [
      | inl e ↦ ap (λ k. has b (ls k)) (==→eq j i e) ∙ rest_in b (rw e at h)
      | inr e ↦ rw e at h
    ]

    -- A mark at another page is one of another block.
    IsMark-stays :
        (q : ℕ)
        → IsMark ls q (lookup s.rd_tree q)
        → is_end i a q ≡ false
        → IsMark (put ls i rest) q (lookup s.rd_tree q)
    unfolding put
    IsMark-stays q m other = record {
      idx = m.idx;
      block = m.block;
      member = elim (Bool-cases (m.idx == i)) [
        | inl e ↦
            let there : has m.block (a ∷ rest) ≡ true =
              sym (ap (has m.block) (ap ls (==→eq m.idx i e) ∙ here)) ∙ m.member in
            let page = m.page in
            let whole = (holds.blocks i a first_in).aligned in
            let same = ==→eq m.idx i e in
            rw e (elim (Bool-cases (m.block == a)) [
              | inl f ↦ absurd (ground (arith, ==→eq m.block a f))
              | inr f ↦ ground arith
            ])
        | inr e ↦ rw e m.member
      ];
      value = m.value;
      page = m.page;
    }

    -- The first block of a list leaves it.
    removed-Holds :
        (t : RadixTree)
        → EndsAre i a 0 s.rd_tree t
        → Holds
            (record s {
              rd_tree = t;
              prev = cleared rest s.prev;
              lists = put s.lists i (head_of rest);
            })
            (put ls i rest)
    unfolding put
    removed-Holds t gone =
        let l = subst (Linked s.next s.prev none) here (holds.linked i) in
        let d = subst IsDistinct here (holds.distinct i) in
        record {
          heads =
              λ j. elim (Bool-cases (j == i)) [ inl e ↦ rw e refl | inr e ↦ rw e (holds.heads j) ];
          linked = λ j. elim (Bool-cases (j == i)) [
            | inl e ↦ rw e (cleared-Linked s a rest l d.1)
            | inr e ↦ rw e (
                Linked-frame s.next s.prev s.next (cleared rest s.prev) none (ls j)
                  (λ b h.
                    let out : has b rest ≡ false = elim (Bool-cases (has b rest)) [
                      | inl there ↦ absurd (ground (arith, other_list i j b (rest_in b there) e))
                      | inr out ↦ out
                    ] in
                    (refl, cleared-other s.prev rest b out))
                  (holds.linked j))
          ];
          distinct = λ j. elim (Bool-cases (j == i)) [
            | inl e ↦ rw e d.1
            | inr e ↦ rw e (holds.distinct j)
          ];
          blocks = λ j b h. holds.blocks j b (kept j b h);
          apart = λ j b k c h m. holds.apart j b k c (kept j b h) (kept k c m);
          marks = λ q h. elim (Bool-cases (is_end i a q)) [
            | inl e ↦ inl (rw (gone q h, e) (omega arith))
            | inr e ↦
                let same : lookup t q ≡ lookup s.rd_tree q = rw (gone q h, e) refl in
                elim (holds.marks q h) [
                  | inl small ↦ inl (rw same small)
                  | inr m ↦ inr (rw same (IsMark-stays q m e))
                ]
          ];
        }

  -- The list at `i` is empty and nothing changes, or its first block comes out.
  abbrev pub Removed : ℕ → Option ℕ → FreeList Os → Type 0
  Removed i o s' =
      ((ls i ≡ []) × (o ≡ none) × (s' ≡ s))
      ⊎ ((a : ℕ) × (rest : List ℕ) × (ls i ≡ a ∷ rest)
          × (o ≡ some a)
          × Holds s' (put ls i rest)
          × (s'.bump ≡ s.bump)
          × (s'.os ≡ s.os))

  pub remove_one-Holds :
      (i : ℕ) → i < backend_max_page → Returns (λ (o, s'). Removed i o s') (remove_one i s)
  unfolding remove_one
  remove_one-Holds i small = by_list (ls i) refl
    where
      by_list : (xs : List ℕ) → ls i ≡ xs → Returns (λ (o, s'). Removed i o s') (remove_one i s)
      by_list [] e =
          let h : s.lists i ≡ none = holds.heads i ∙ ap head_of e in
          rw (lt→ltb i backend_max_page small, h) (returns {a = (none, s)} (inl (e, refl, refl)))
      by_list (a ∷ rest) e =
          let h : s.lists i ≡ some a = holds.heads i ∙ ap head_of e in
          let block = holds.blocks i a (first_in i a rest e) in
          let l = subst (Linked s.next s.prev none) e (holds.linked i) in
          rw (lt→ltb i backend_max_page small, h)
            (Returns-bind (unmark_lem i a block s) λ s1 (t, same, gone).
              rw (same, remove_current-head (record s { rd_tree = t }) a rest l)
                (returns (inr (a, rest, e, refl, removed-Holds i a rest e t gone, refl, refl))))

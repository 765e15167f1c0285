-- ===== src/FreeList/Freeing.antt =====
-- `free` of the page backend. A neighbour that is free is found by its mark, but it is joined only if its
-- node is its own successor, which no node of a list is: blocks are never put together.
use uni_alloc.Base.{
  ℕ, suc, ◌+◌, ◌-◌, ◌*◌, ◌/◌, ◌%◌, ◌^◌, ◌≡◌, ◌≤◌, ◌<◌, ◌⊎◌, inl, inr, Option, none, some, List, [],
  ◌∷◌, ◌==◌, true, false, arith, refl, ◌∙◌, ap, Bool-cases, ==→eq, lt→ltb, ltb,
}
use mathlib.Core.Path.{subst}
use uni_alloc.Base.Words.{add64, sub64, mul64}
use uni_alloc.Base.Run.{ok, Returns, returns, Returns-map}
use uni_alloc.Memory.Chain.{has, IsDistinct}
use uni_alloc.Bump.Backend.{pg_size}
use uni_alloc.Radix.Head
use uni_alloc.Radix.Lookup.{lookup}
use uni_alloc.FreeList.{
  FreeList, put, new_node, remove_spec_one, combine, free, flag, marker, entry_of, index_for,
  backend_max_page,
}
use uni_alloc.FreeList.Requests.{index_for-eq}
use uni_alloc.FreeList.Blocks.{Linked, IsBlock, IsMark, Holds}
use uni_alloc.FreeList.Joining.{IsFresh, fresh_out, insert_one-Holds}
use uni_alloc.FreeList.Serving.{new_node-Holds, new_node-next, new_node-prev}

-- No node of a list is its own successor.
Linked-next :
    (next prev : ℕ → Option ℕ) (before : Option ℕ) (xs : List ℕ) (x : ℕ)
    → Linked next prev before xs
    → IsDistinct xs
    → has x xs ≡ true
    → (next x ≡ none) ⊎ ((y : ℕ) × (next x ≡ some y) × ((y == x) ≡ false))
Linked-next next prev before [] x l d h = absurd (ground arith)
Linked-next next prev before (z ∷ []) x (_, e, _) d h = inl (ap next (==→eq x z (ground arith)) ∙ e)
Linked-next next prev before (z ∷ (y ∷ ys)) x (_, e, l) d h = elim (Bool-cases (x == z)) [
  | inl same ↦ inr (y, ap next (==→eq x z same) ∙ e, ground arith)
  | inr other ↦ Linked-next next prev (some z) (y ∷ ys) x l d.1 (ground arith)
]

flag-marker : (idx : ℕ) → idx < backend_max_page → flag (marker idx) ≡ suc idx
unfolding flag marker
flag-marker idx h = ground arith

flag-small : (v : ℕ) → v < 2 ^ 63 → flag v ≡ 0
unfolding flag
flag-small v h = ground arith

module _ {Os : Type 0} (s : FreeList Os) (ls : ℕ → List ℕ) (holds : Holds s ls) where
  remove_spec_one-none :
      (idx b : ℕ) → has b (ls idx) ≡ true → remove_spec_one idx b s ≡ ok (none, s)
  unfolding remove_spec_one
  remove_spec_one-none idx b h =
      let block = holds.blocks idx b h in
      let listed = lt→ltb idx backend_max_page block.listed in
      elim (Linked-next s.next s.prev none (ls idx) b (holds.linked idx) (holds.distinct idx) h) [
        | inl e ↦ rw (listed, e) (ground arith)
        | inr (y, e, other) ↦ rw (listed, e, other) (ground arith)
      ]

  module _ (mmap : Os → ℕ → ℕ × Os) (munmap : Os → ℕ → ℕ → Os) where
    combine-none :
        (q start v : ℕ)
        → lookup s.rd_tree q ≡ v
        → q < 2 ^ 36
        → ((m : IsMark ls q v) → start ≡ m.block)
        → combine mmap munmap (flag v) start s ≡ ok (none, s)
    unfolding combine
    combine-none q start v e h found =
        elim (subst (λ w. (w < 2 ^ 63) ⊎ IsMark ls q w) e (holds.marks q h)) [
          | inl small ↦ rw (flag-small v small) refl
          | inr m ↦
              let block = holds.blocks m.idx m.block m.member in
              let pages : flag v ≡ suc m.idx = ap flag m.value ∙ flag-marker m.idx block.listed in
              let none_out = remove_spec_one-none m.idx m.block m.member in
              let idx : suc m.idx - 1 ≡ m.idx = omega arith in
              rw (pages, idx, found m, none_out) (ground arith)
        ]

-- The block at `ptr` is the first of the list at `i`, or went back to the system.
abbrev pub Given :
    {Os : Type 0} → (Os → ℕ → ℕ → Os) → ℕ → FreeList Os → (ℕ → List ℕ) → ℕ → FreeList Os → Type 0
Given munmap ptr s ls i s' =
    ((i < backend_max_page) × Holds s' (put ls i (ptr ∷ ls i)))
    ⊎ ((backend_max_page ≤ i) × (s' ≡ record s { os = munmap s.os ptr ((i + 1) * 4096) }))

module _ {Os : Type 0} (mmap : Os → ℕ → ℕ × Os) (munmap : Os → ℕ → ℕ → Os) (ptr size : ℕ)
    (s : FreeList Os) (ls : ℕ → List ℕ) (holds : Holds s ls) (aligned : ptr % 4096 ≡ 0)
    (positive : 4096 ≤ ptr) (below : ptr + (index_for size + 1) * 4096 < 2 ^ 48)
    (fresh : IsFresh ls (index_for size) ptr) where
  abbrev origin : ℕ
  origin = index_for size

  before_page :
      Head.get_mut (entry_of (sub64 ptr pg_size)) s.rd_tree ≡ lookup s.rd_tree (ptr / 4096 - 1)
  before_page =
      let place : sub64 ptr pg_size ≡ (ptr / 4096 - 1) * 4096 = omega arith in
      ap (λ k. Head.get_mut (entry_of k) s.rd_tree) place

  after_page :
      Head.get_mut (entry_of (add64 ptr (mul64 (add64 origin 1) pg_size))) s.rd_tree
      ≡ lookup s.rd_tree (ptr / 4096 + origin + 1)
  after_page =
      let place : add64 ptr (mul64 (add64 origin 1) pg_size) ≡ (ptr / 4096 + origin + 1) * 4096 =
        omega arith in
      ap (λ k. Head.get_mut (entry_of k) s.rd_tree) place

  before_block :
      (v : ℕ) (m : IsMark ls (ptr / 4096 - 1) v) → sub64 ptr (mul64 (flag v) pg_size) ≡ m.block
  before_block v m =
      let block = holds.blocks m.idx m.block m.member in
      let pages : flag v ≡ suc m.idx = ap flag m.value ∙ flag-marker m.idx block.listed in
      let apart = fresh m.idx m.block m.member in
      let page = m.page in let listed = block.listed in rw pages (omega arith)

  after_block :
      (v : ℕ) (m : IsMark ls (ptr / 4096 + origin + 1) v)
      → add64 ptr (mul64 (add64 origin 1) pg_size) ≡ m.block
  after_block v m =
      let block = holds.blocks m.idx m.block m.member in
      let apart = fresh m.idx m.block m.member in
      let page = m.page in let listed = block.listed in omega arith

  pub free-Given : Returns (Given munmap ptr s ls origin) (free mmap munmap ptr size s)
  unfolding free
  free-Given =
      let no_before =
        combine-none s ls holds mmap munmap (ptr / 4096 - 1)
          (sub64 ptr (mul64 (flag (lookup s.rd_tree (ptr / 4096 - 1))) pg_size))
          (lookup s.rd_tree (ptr / 4096 - 1)) refl (omega arith) (before_block _) in
      let no_after =
        combine-none s ls holds mmap munmap (ptr / 4096 + origin + 1)
          (add64 ptr (mul64 (add64 origin 1) pg_size)) (lookup s.rd_tree (ptr / 4096 + origin + 1))
          refl (omega arith) (after_block _) in
      rw (before_page, no_before, after_page, no_after)
        (elim (Bool-cases (ltb (index_for size) backend_max_page)) [
          | inl e ↦
              let fits : index_for size < backend_max_page = ground arith in
              let block : IsBlock (index_for size) ptr = record {
                listed = fits;
                aligned = aligned;
                positive = positive;
                below = below;
              } in
              let out = fresh_out ls (index_for size) ptr fresh in
              rw e (
                Returns-map
                  (insert_one-Holds ls (index_for size) ptr fresh (new_node ptr s)
                    (new_node-Holds s ls holds ptr out) block (new_node-next ptr s)
                    (new_node-prev ptr s))
                  λ s' (holds', _, _). inl (fits, holds'))
          | inr e ↦
              let pages : mul64 (add64 (index_for size) 1) pg_size ≡ (index_for size + 1) * 4096 =
                omega arith in
              rw (e, pages) (returns (inr (ground arith, refl)))
        ])

module _ {Os : Type 0} (mmap : Os → ℕ → ℕ × Os) (munmap : Os → ℕ → ℕ → Os) where
  -- On free lists that hold disjoint blocks, a block that takes `i + 1` pages, where `size + 4095` is
  -- below 2^64, at a page other than 0, that ends below 2^48 and is apart from all free blocks, becomes
  -- the first of the list of blocks of `i + 1` pages when it is given back; if there is no such list,
  -- these pages go back to the system. Blocks are never put together.
  pub free-Holds :
      (ptr size i : ℕ) (s : FreeList Os) (ls : ℕ → List ℕ)
      → i * 4096 < size
      → size ≤ (i + 1) * 4096
      → size + 4095 < 2 ^ 64
      → Holds s ls
      → ptr % 4096 ≡ 0
      → 4096 ≤ ptr
      → ptr + (i + 1) * 4096 < 2 ^ 48
      → IsFresh ls i ptr
      → Returns
          (λ s'.
            ((i < backend_max_page) × Holds s' (put ls i (ptr ∷ ls i)))
            ⊎ ((backend_max_page ≤ i) × (s' ≡ record s { os = munmap s.os ptr ((i + 1) * 4096) })))
          (free mmap munmap ptr size s)
  free-Holds ptr size i s ls more fits word holds aligned positive below fresh =
      let same = index_for-eq size i more fits word in
      subst (λ k. Returns (Given munmap ptr s ls k) (free mmap munmap ptr size s)) same
        (free-Given mmap munmap ptr size s ls holds aligned positive (rw same below)
          (rw same fresh))

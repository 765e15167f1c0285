-- ===== src/FreeList/Marks.antt =====
-- What marking a block of the page backend, or taking its marks away, does to the tree.
use uni_alloc.Base.{
  ℕ, ◌+◌, ◌*◌, ◌/◌, ◌%◌, ◌^◌, ◌≡◌, ◌<◌, ◌||◌, Bool, ◌==◌, arith, refl, sym, ap, if◌then◌else◌,
}
use uni_alloc.Base.Run.{Returns, returns, Returns-bind, Returns-map, ◌>>=◌}
use uni_alloc.Base.Words.{add64, mul64}
use uni_alloc.Radix.Head.{RadixTree}
use uni_alloc.Radix.Head
use uni_alloc.Radix.Lookup.{key_of, lookup, IsUpdate, insert-IsUpdate, remove-IsUpdate}
use uni_alloc.FreeList.{FreeList, entry_of, unmark}
use uni_alloc.FreeList.Blocks.{IsBlock}

-- The first and the last page of a block.
abbrev pub is_end : ℕ → ℕ → ℕ → Bool
is_end i a q = (q == a / 4096) || (q == a / 4096 + i)

-- These two pages have the value `v`, and the others the one they had.
abbrev pub EndsAre : ℕ → ℕ → ℕ → RadixTree → RadixTree → Type 0
EndsAre i a v t t' = (q : ℕ) → q < 2 ^ 36 → lookup t' q ≡ (if is_end i a q then v else lookup t q)

pub entry-key : (a : ℕ) → a % 4096 ≡ 0 → entry_of a ≡ key_of (a / 4096)
entry-key a h =
    let whole : a / 4096 * 4096 ≡ a = omega arith in ap (λ b. b * 2 ^ 16 % 2 ^ 64) (sym whole)

module _ (i a : ℕ) (block : IsBlock i a) where
  last_entry-key : entry_of (add64 a (mul64 i 4096)) ≡ key_of (a / 4096 + i)
  last_entry-key =
      let last : add64 a (mul64 i 4096) ≡ (a / 4096 + i) * 4096 =
        omega (arith, block.aligned, block.below, block.listed) in
      ap (λ b. b * 2 ^ 16 % 2 ^ 64) last

  two_updates :
      (v : ℕ) (t t1 t2 : RadixTree)
      → IsUpdate (a / 4096) 1 v t t1
      → IsUpdate (a / 4096 + i) 1 v t1 t2
      → EndsAre i a v t t2
  two_updates v t t1 t2 first last q h = ground (arith, first q h, last q h)

  pub mark_lem :
      (v : ℕ) (t : RadixTree)
      → Returns (EndsAre i a v t) (
          Head.insert (entry_of a) v 1 t >>= λ t1.
          Head.insert (entry_of (add64 a (mul64 i 4096))) v 1 t1)
  mark_lem v t =
      rw (entry-key a block.aligned, last_entry-key)
        (Returns-bind (insert-IsUpdate (a / 4096) 1 v t (omega (arith, block.below)) (omega arith))
          λ t1 first.
            Returns-map
              (insert-IsUpdate (a / 4096 + i) 1 v t1 (omega (arith, block.below, block.aligned))
                (omega arith))
              (λ t2 last. two_updates v t t1 t2 first last))

  pub unmark_lem :
      {Os : Type 0} (s : FreeList Os)
      → Returns
          (λ s'. (t : RadixTree) × (s' ≡ record s { rd_tree = t }) × EndsAre i a 0 s.rd_tree t)
          (unmark i a s)
  unfolding unmark
  unmark_lem s =
      rw (entry-key a block.aligned, last_entry-key)
        (Returns-bind
          (remove-IsUpdate (a / 4096) 1 s.rd_tree (omega (arith, block.below)) (omega arith))
          λ t1 first.
            Returns-bind
              (remove-IsUpdate (a / 4096 + i) 1 t1 (omega (arith, block.below, block.aligned))
                (omega arith))
              (λ t2 last. returns (t2, refl, two_updates 0 s.rd_tree t1 t2 first last)))

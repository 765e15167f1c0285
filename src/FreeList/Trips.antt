-- ===== src/FreeList/Trips.antt =====
-- A block that is given back to the page backend is the next one of its size that goes out.
use uni_alloc.Base.{
  ℕ, ◌+◌, ◌*◌, ◌%◌, ◌^◌, ◌≡◌, ◌≤◌, ◌<◌, inl, inr, Option, some, List, ◌∷◌, ◌==◌, arith, refl, sym,
  ◌∙◌, ap, Bool-cases, ==→eq,
}
use mathlib.Core.Path.{subst, fun_ext}
use uni_alloc.Base.Run.{Returns, Returns-bind, Returns-map, ◌>>=◌}
use uni_alloc.FreeList.{FreeList, put, alloc, free, index_for, backend_max_page}
use uni_alloc.FreeList.Blocks.{Holds}
use uni_alloc.FreeList.Joining.{IsFresh}
use uni_alloc.FreeList.Allocating.{IsServed, alloc-Outcome}
use uni_alloc.FreeList.Freeing.{free-Given}

put_back : (ls : ℕ → List ℕ) (i a : ℕ) → put (put ls i (a ∷ ls i)) i (ls i) ≡ ls
unfolding put
put_back ls i a =
    fun_ext λ j. elim (Bool-cases (j == i)) [
      | inl e ↦ rw e (ap ls (sym (==→eq j i e)))
      | inr e ↦ rw e refl
    ]

put_self : (ls : ℕ → List ℕ) (i : ℕ) (xs : List ℕ) → put ls i xs i ≡ xs
unfolding put
put_self ls i xs = ground arith

cons_inj : (a b : ℕ) (xs ys : List ℕ) → a ∷ xs ≡ b ∷ ys → (a ≡ b) × (xs ≡ ys)
cons_inj a b xs ys e = (cc, cc)

module _ {Os : Type 0} (ls : ℕ → List ℕ) (i ptr : ℕ) (o : Option ℕ) (s' : FreeList Os) where
  served_again : IsServed (put ls i (ptr ∷ ls i)) i o s' → (o ≡ some ptr) × Holds s' ls
  served_again sv = elim (Bool-cases (sv.q == i)) [
    | inl e ↦
        let same = ==→eq sv.q i e in
        let here : ptr ∷ ls i ≡ sv.a ∷ sv.rest =
          sym (ap (put ls i (ptr ∷ ls i)) same ∙ put_self ls i (ptr ∷ ls i)) ∙ sv.here in
        let (f, g) = cons_inj ptr sv.a (ls i) sv.rest here in
        let ls1 = put ls i (ptr ∷ ls i) in
        let now : Holds s' (put ls1 sv.q sv.rest) = rw e at (sv.holds) in
        let back : put ls1 sv.q sv.rest ≡ ls =
          ap (λ q. put ls1 q sv.rest) same ∙ ap (put ls1 i) (sym g) ∙ put_back ls i ptr in
        (sv.given ∙ ap some (sym f), subst (Holds s') back now)
    | inr e ↦
        let empty = sv.first i (omega arith) (ground (arith, sv.larger)) in
        let full = put_self ls i (ptr ∷ ls i) in absurd (cc)
  ]

module _ {Os : Type 0} (mmap : Os → ℕ → ℕ × Os) (munmap : Os → ℕ → ℕ → Os) (ptr size : ℕ)
    (s : FreeList Os) (ls : ℕ → List ℕ) (holds : Holds s ls) (aligned : ptr % 4096 ≡ 0)
    (positive : 4096 ≤ ptr) (below : ptr + (index_for size + 1) * 4096 < 2 ^ 48)
    (fresh : IsFresh ls (index_for size) ptr) (listed : index_for size < backend_max_page) where
  -- On free lists that hold disjoint blocks, giving a block of at most 128 whole pages, not at page 0,
  -- that ends below 2^48 and is apart from all free blocks, back and asking for the same size returns that block, and the
  -- lists hold what they held.
  pub alloc-free :
      Returns
        (λ (o, s'). (o ≡ some ptr) × Holds s' ls)
        (free mmap munmap ptr size s >>= λ s1. alloc mmap munmap size s1)
  alloc-free =
      Returns-bind (free-Given mmap munmap ptr size s ls holds aligned positive below fresh)
        λ s1 given. elim given [
          | inr (large, _) ↦ absurd (omega arith)
          | inl (_, holds1) ↦
              let i = index_for size in
              Returns-map (alloc-Outcome mmap munmap size s1 (put ls i (ptr ∷ ls i)) holds1)
                λ (o, s2) out. elim out [
                  | inl (empty, _) ↦
                      let none_here = empty i (omega arith) listed in
                      let full = put_self ls i (ptr ∷ ls i) in absurd (cc)
                  | inr sv ↦ served_again ls i ptr o s2 sv
                ]
        ]

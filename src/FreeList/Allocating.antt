-- ===== src/FreeList/Allocating.antt =====
-- `alloc` of the page backend: the first list with a block that is large enough, or the bump allocator.
use uni_alloc.Base.{
  ℕ, suc, ◌+◌, ◌-◌, ◌*◌, ◌^◌, ◌≡◌, ◌≢◌, ◌≤◌, ◌<◌, ◌⊎◌, inl, inr, Option, some, List, ◌∷◌, ◌==◌,
  arith, refl, Bool-cases, ne→==, eq→==, if◌then◌else◌, ltb,
}
use mathlib.Core.Path.{subst}
use uni_alloc.Base.Run.{Returns, returns, Returns-bind}
use uni_alloc.FreeList.{FreeList, put, alloc, bump_alloc, index_for, backend_max_page}
use uni_alloc.FreeList.Requests.{index_for-eq}
use uni_alloc.FreeList.Blocks.{Holds}
use uni_alloc.FreeList.Moves.{remove_one-Holds}
use uni_alloc.FreeList.Joining.{IsFresh}
use uni_alloc.FreeList.Serving.{
  AreEmpty, more_empty, after_split, first-IsFresh, split_larger-Split,
}

larger_ne : (q o : ℕ) → o + 1 ≤ q → q ≢ o
larger_ne q o h e = omega arith

-- The lists after their block `a` of the list at `q` was given out.
abbrev pub after_alloc : (ℕ → List ℕ) → ℕ → ℕ → ℕ → List ℕ → ℕ → List ℕ
after_alloc ls origin q a rest =
    if q == origin then put ls q rest else after_split ls origin q a rest

module _ {Os : Type 0} where
  -- What a request for `origin + 1` pages gets: the first block of the first list with blocks that are
  -- large enough. The pages given out overlap no free block any more.
  pub record IsServed (ls : ℕ → List ℕ) (origin : ℕ) (o : Option ℕ) (s' : FreeList Os)
      : Type 0 where
    pub q : ℕ
    pub a : ℕ
    pub rest : List ℕ
    pub larger : origin ≤ q
    pub listed : q < backend_max_page
    pub first : AreEmpty ls origin q
    pub here : ls q ≡ a ∷ rest
    pub given : o ≡ some a
    pub holds : Holds s' (after_alloc ls origin q a rest)
    pub free : IsFresh (after_alloc ls origin q a rest) origin a

module _ {Os : Type 0} (mmap : Os → ℕ → ℕ × Os) (munmap : Os → ℕ → ℕ → Os) (size : ℕ)
    (s : FreeList Os) (ls : ℕ → List ℕ) (holds : Holds s ls) where
  -- A request for `i + 1` pages is answered from the lists, or they have no block that is large enough.
  abbrev pub Outcome : ℕ → Option ℕ × FreeList Os → Type 0
  Outcome i (o, s') =
      (AreEmpty ls i backend_max_page × ((o, s') ≡ bump_alloc mmap munmap size s))
      ⊎ IsServed ls i o s'

  pub alloc-Outcome : Returns (Outcome (index_for size)) (alloc mmap munmap size s)
  unfolding alloc
  alloc-Outcome = elim (Bool-cases (ltb (index_for size) backend_max_page)) [
    | inr large ↦
        rw large
          (returns {a = bump_alloc mmap munmap size s} (inl (λ r h k. absurd (ground arith), refl)))
    | inl fits ↦ rw fits (
        Returns-bind (remove_one-Holds s ls holds (index_for size) (ground arith))
          λ (o, s1) removed. elim removed [
            | inr (a, rest, e, f, holds1, _, _) ↦
                let same = eq→== (index_for size) (index_for size) refl in
                rw f (
                  returns {a = (some a, s1)} (
                    inr (record {
                      q = index_for size;
                      a = a;
                      rest = rest;
                      larger = omega arith;
                      listed = ground arith;
                      first = λ r h k. absurd (omega arith);
                      here = e;
                      given = refl;
                      holds = rw same holds1;
                      free = rw same (first-IsFresh s ls holds (index_for size) a rest e);
                    })))
            | inl (e, f, g) ↦
                let p = index_for size + 1 in
                let next : p ≡ suc (index_for size) = omega arith in
                rw (f, g)
                  (Returns-bind
                    (split_larger-Split (backend_max_page - p) p (index_for size) s ls holds
                      (omega arith) (ground arith))
                    λ (o', s2) split. elim split [
                      | inl (empty, f', g') ↦
                          rw (f', g')
                            (returns {a = bump_alloc mmap munmap size s} (
                              inl (
                                more_empty ls (index_for size) backend_max_page e
                                    (subst (λ k. AreEmpty ls k backend_max_page) next empty),
                                refl,
                              )))
                      | inr sp ↦
                          let other =
                            ne→== sp.q (index_for size)
                              (larger_ne sp.q (index_for size) sp.larger) in
                          rw (sp.given) (
                            returns {a = (some sp.a, s2)} (
                              inr (record {
                                q = sp.q;
                                a = sp.a;
                                rest = sp.rest;
                                larger = omega (arith, sp.larger);
                                listed = sp.listed;
                                first =
                                    more_empty ls (index_for size) sp.q e
                                      (subst (λ k. AreEmpty ls k sp.q) next sp.first);
                                here = sp.here;
                                given = refl;
                                holds = rw other (sp.holds);
                                free = rw other (sp.free);
                              })))
                    ])
          ])
  ]

  -- On free lists that hold disjoint blocks, `alloc` serves a request that takes `i + 1` pages, where
  -- `size + 4095` is below 2^64, from the first list with blocks of that many pages or more, and keeps
  -- what is left of the block; if there is none, the lists stay and the bump allocator answers.
  pub alloc-IsServed :
      (i : ℕ)
      → i * 4096 < size
      → size ≤ (i + 1) * 4096
      → size + 4095 < 2 ^ 64
      → Returns (Outcome i) (alloc mmap munmap size s)
  alloc-IsServed i more fits word =
      subst (λ k. Returns (Outcome k) (alloc mmap munmap size s))
        (index_for-eq size i more fits word) alloc-Outcome

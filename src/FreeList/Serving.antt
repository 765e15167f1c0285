-- ===== src/FreeList/Serving.antt =====
-- `alloc` of the page backend on its abstract view.
use uni_alloc.Base.{
  ℕ, zero, suc, ◌+◌, ◌-◌, ◌*◌, ◌≡◌, ◌≤◌, ◌<◌, ◌⊎◌, inl, inr, Option, none, some, List, [], ◌∷◌,
  ◌==◌, true, false, arith, refl, ◌∙◌, ap, Bool-cases, ==→eq,
}
use uni_alloc.Base.Words.{add64, sub64, mul64}
use mathlib.Core.Path.{subst}
use uni_alloc.Base.Run.{Returns, returns, Returns-bind, Returns-map}
use uni_alloc.Memory.Chain.{has, IsDistinct, has_ne}
use uni_alloc.FreeList.{FreeList, put, new_node, insert_one, split_larger, backend_max_page}
use uni_alloc.Bump.Backend.{pg_size}
use uni_alloc.FreeList.Blocks.{Linked-frame, IsBlock, Holds}
use uni_alloc.FreeList.Moves.{remove_one-Holds}
use uni_alloc.FreeList.Joining.{IsFresh, fresh_out, old_or_new, insert_one-Holds}

module _ {Os : Type 0} (b : ℕ) (s : FreeList Os) where
  pub new_node-next : (new_node b s).next b ≡ none
  unfolding new_node put
  new_node-next = ground arith

  pub new_node-prev : (new_node b s).prev b ≡ none
  unfolding new_node put
  new_node-prev = ground arith

  new_node-bump : (new_node b s).bump ≡ s.bump
  unfolding new_node
  new_node-bump = refl

  new_node-os : (new_node b s).os ≡ s.os
  unfolding new_node
  new_node-os = refl

module _ {Os : Type 0} (s : FreeList Os) (ls : ℕ → List ℕ) (holds : Holds s ls) where
  -- The words of a block outside the lists may change.
  pub new_node-Holds : (a : ℕ) → ((j : ℕ) → has a (ls j) ≡ false) → Holds (new_node a s) ls
  unfolding new_node put
  new_node-Holds a out = record {
    heads = holds.heads;
    linked = λ j.
        Linked-frame s.next s.prev _ _ none (ls j)
          (λ b h. let other = has_ne b a (ls j) h (out j) in (ground arith, ground arith))
          (holds.linked j);
    distinct = holds.distinct;
    blocks = holds.blocks;
    apart = holds.apart;
    marks = holds.marks;
  }

  -- The first block of a list does not overlap the other blocks.
  pub first-IsFresh : (q a : ℕ) (rest : List ℕ) → ls q ≡ a ∷ rest → IsFresh (put ls q rest) q a
  unfolding put
  first-IsFresh q a rest here j b h = elim (Bool-cases (j == q)) [
    | inl e ↦
        let in_rest : has b rest ≡ true = rw e at h in
        let d = subst IsDistinct here (holds.distinct q) in
        let there : has b (ls j) ≡ true = rw (==→eq j q e, here) (ground arith) in
        elim (holds.apart q a j b (rw here (ground arith)) there) [
          | inl (_, same) ↦ absurd (ground (arith, has_ne b a rest in_rest d.0))
          | inr apart ↦ apart
        ]
    | inr e ↦
        let there : has b (ls j) ≡ true = rw e at h in
        elim (holds.apart q a j b (rw here (ground arith)) there) [
          | inl (same, _) ↦ absurd (ground arith)
          | inr apart ↦ apart
        ]
  ]

-- The address of what is left of a block without its first `origin + 1` pages.
abbrev pub rest_of : ℕ → ℕ → ℕ
rest_of origin a = a + (origin + 1) * 4096

-- The block `a` has left the list at `q`, and what is left of it is the first of the list for its size.
abbrev pub after_split : (ℕ → List ℕ) → ℕ → ℕ → ℕ → List ℕ → ℕ → List ℕ
after_split ls origin q a rest =
    let ls1 = put ls q rest in let i = q - origin - 1 in put ls1 i (rest_of origin a ∷ ls1 i)

-- Neither list from `p` up to `q` has a block.
abbrev pub AreEmpty : (ℕ → List ℕ) → ℕ → ℕ → Type 0
AreEmpty ls p q = (r : ℕ) → p ≤ r → r < q → ls r ≡ []

pub more_empty : (ls : ℕ → List ℕ) (p q : ℕ) → ls p ≡ [] → AreEmpty ls (suc p) q → AreEmpty ls p q
more_empty ls p q e empty r h k = elim (Bool-cases (r == p)) [
  | inl same ↦ ap ls (==→eq r p same) ∙ e
  | inr other ↦ empty r (ground arith) k
]

module _ {Os : Type 0} where
  -- The first list with a block from `p` on gives its first block, of which the rest goes back.
  pub record IsSplit (s : FreeList Os) (ls : ℕ → List ℕ) (origin p : ℕ) (o : Option ℕ)
      (s' : FreeList Os) : Type 0 where
    pub q : ℕ
    pub a : ℕ
    pub rest : List ℕ
    pub larger : p ≤ q
    pub listed : q < backend_max_page
    pub first : AreEmpty ls p q
    pub here : ls q ≡ a ∷ rest
    pub given : o ≡ some a
    pub holds : Holds s' (after_split ls origin q a rest)
    pub free : IsFresh (after_split ls origin q a rest) origin a
    pub bump : s'.bump ≡ s.bump
    pub os : s'.os ≡ s.os

  abbrev pub Split : FreeList Os → (ℕ → List ℕ) → ℕ → ℕ → Option ℕ × FreeList Os → Type 0
  Split s ls origin p (o, s') =
      (AreEmpty ls p backend_max_page × (o ≡ none) × (s' ≡ s)) ⊎ IsSplit s ls origin p o s'

  IsSplit-block :
      (s s1 : FreeList Os) (ls : ℕ → List ℕ) (p origin a : ℕ) (rest : List ℕ)
      → Holds s ls
      → origin < p
      → ls p ≡ a ∷ rest
      → Holds s1 (put ls p rest)
      → s1.bump ≡ s.bump
      → s1.os ≡ s.os
      → Returns (IsSplit s ls origin p (some a)) (
          insert_one
            (sub64 (sub64 p origin) 1)
            (add64 a (mul64 pg_size (add64 origin 1)))
            (new_node (add64 a (mul64 pg_size (add64 origin 1))) s1))
  IsSplit-block s s1 ls p origin a rest holds lt here holds1 bump os =
      let block = holds.blocks p a (rw here (ground arith)) in
      let i = p - origin - 1 in
      let b = rest_of origin a in
      let idx : sub64 (sub64 p origin) 1 ≡ i = omega (arith, block.listed) in
      let place : add64 a (mul64 pg_size (add64 origin 1)) ≡ b =
        omega (arith, block.below, block.listed) in
      let whole = first-IsFresh s ls holds p a rest here in
      let fresh : IsFresh (put ls p rest) i b = λ j c h. elim (whole j c h) [
        | inl above ↦ inl (omega arith)
        | inr below ↦ inr (omega arith)
      ] in
      let rest_block : IsBlock i b = record {
        listed = omega (arith, block.listed);
        aligned = omega (arith, block.aligned);
        positive = omega (arith, block.positive);
        below = omega (arith, block.below);
      } in
      let out = fresh_out (put ls p rest) i b fresh in
      rw (idx, place)
        (Returns-map
          (insert_one-Holds (put ls p rest) i b fresh (new_node b s1)
            (new_node-Holds s1 (put ls p rest) holds1 b out) rest_block (new_node-next b s1)
            (new_node-prev b s1))
          λ s2 (holds2, bump2, os2). record {
            q = p;
            a = a;
            rest = rest;
            larger = omega arith;
            listed = block.listed;
            first = λ r h k. absurd (omega arith);
            here = here;
            given = refl;
            holds = holds2;
            free = λ j c h. elim (old_or_new (put ls p rest) i b fresh j c h) [
              | inl (_, e) ↦ inl (omega arith)
              | inr old ↦ elim (whole j c old) [
                | inl above ↦ inl (omega arith)
                | inr below ↦ inr (omega arith)
              ]
            ];
            bump = bump2 ∙ new_node-bump b s1 ∙ bump;
            os = os2 ∙ new_node-os b s1 ∙ os;
          })

  later_Split :
      (s : FreeList Os) (ls : ℕ → List ℕ) (origin p : ℕ) (o : Option ℕ) (s' : FreeList Os)
      → ls p ≡ []
      → Split s ls origin (suc p) (o, s')
      → Split s ls origin p (o, s')
  later_Split s ls origin p o s' e (inl (empty, f, g)) =
      inl (more_empty ls p backend_max_page e empty, f, g)
  later_Split s ls origin p o s' e (inr split) = inr (record {
    q = split.q;
    a = split.a;
    rest = split.rest;
    larger = omega (arith, split.larger);
    listed = split.listed;
    first = more_empty ls p split.q e split.first;
    here = split.here;
    given = split.given;
    holds = split.holds;
    free = split.free;
    bump = split.bump;
    os = split.os;
  })

  pub split_larger-Split :
      (rounds p origin : ℕ) (s : FreeList Os) (ls : ℕ → List ℕ)
      → Holds s ls
      → origin < p
      → p + rounds ≡ backend_max_page
      → Returns (Split s ls origin p) (split_larger rounds p origin s)
  unfolding split_larger
  split_larger-Split zero p origin s ls holds lt all =
      returns (inl (λ r h k. absurd (omega arith), refl, refl))
  split_larger-Split (suc rounds) p origin s ls holds lt all =
      Returns-bind (remove_one-Holds s ls holds p (omega arith)) λ (o, s1) removed. elim removed [
        | inl (e, f, g) ↦
            rw (f, g)
              (Returns-map
                (split_larger-Split rounds (suc p) origin s ls holds (omega arith) (omega arith))
                λ (o', s') split. later_Split s ls origin p o' s' e split)
        | inr (a, rest, e, f, holds1, bump, os) ↦ rw f (
            Returns-bind (IsSplit-block s s1 ls p origin a rest holds lt e holds1 bump os)
              λ s2 split. returns (inr split))
      ]

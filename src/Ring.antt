-- ===== src/Ring.antt =====
-- Circular doubly linked lists, over the two functions that give each node's successor and
-- predecessor: the page lists of a slab allocator and the vector-based list are of this kind.
pub mod Edit
use uni_alloc.Base.{
  ℕ, zero, suc, ◌≡◌, refl, ◌∙◌, sym, Bool, true, false, ◌||◌, List, [], ◌∷◌, ◌++◌, arith, ◌==◌,
}
use uni_alloc.Memory.Chain.{has, IsDistinct, last_of, has-append}

-- From `p` the successors lead through `xs` to `stop`, and the predecessors back.
abbrev pub Segment : (ℕ → ℕ) → (ℕ → ℕ) → ℕ → List ℕ → ℕ → Type 0
Segment next prev p [] stop = (next p ≡ stop) × (prev stop ≡ p)
Segment next prev p (x ∷ xs) stop = (next p ≡ x) × (prev x ≡ p) × Segment next prev x xs stop

-- The nodes `xs` form a ring, the first of them its head; the head of an empty ring is null.
abbrev pub IsRing : (ℕ → ℕ) → (ℕ → ℕ) → ℕ → List ℕ → Type 0
IsRing next prev head [] = head ≡ 0
IsRing next prev head (x ∷ xs) =
    (head ≡ x) × Segment next prev x xs x × IsDistinct (x ∷ xs) × (has 0 (x ∷ xs) ≡ false)

module _ (next prev : ℕ → ℕ) where
  pub Segment-frame :
      (next' prev' : ℕ → ℕ) (p : ℕ) (xs : List ℕ) (stop : ℕ)
      → ((a : ℕ) → has a (p ∷ xs) ≡ true → next' a ≡ next a)
      → ((a : ℕ) → has a (stop ∷ xs) ≡ true → prev' a ≡ prev a)
      → Segment next prev p xs stop
      → Segment next' prev' p xs stop
  Segment-frame next' prev' p [] stop f g s =
      (f p (ground arith) ∙ s.0, g stop (ground arith) ∙ s.1)
  Segment-frame next' prev' p (x ∷ xs) stop f g s = (
    f p (ground arith) ∙ s.0,
    g x (ground arith) ∙ s.1,
    Segment-frame next' prev' x xs stop (λ a h. f a (ground arith)) (λ a h. g a (ground arith)) s.2,
  )

  pub Segment-append :
      (p : ℕ) (xs : List ℕ) (y : ℕ) (ys : List ℕ) (stop : ℕ)
      → Segment next prev p xs y
      → Segment next prev y ys stop
      → Segment next prev p (xs ++ (y ∷ ys)) stop
  Segment-append p [] y ys stop s t = (s.0, s.1, t)
  Segment-append p (x ∷ xs) y ys stop s t = (s.0, s.1, Segment-append x xs y ys stop s.2 t)

  pub Segment-split :
      (p : ℕ) (xs : List ℕ) (y : ℕ) (ys : List ℕ) (stop : ℕ)
      → Segment next prev p (xs ++ (y ∷ ys)) stop
      → Segment next prev p xs y × Segment next prev y ys stop
  Segment-split p [] y ys stop s = ((s.0, s.1), s.2)
  Segment-split p (x ∷ xs) y ys stop s =
      let (front, back) = Segment-split x xs y ys stop s.2 in ((s.0, s.1, front), back)

  pub prev_stop :
      (p : ℕ) (xs : List ℕ) (stop : ℕ) → Segment next prev p xs stop → prev stop ≡ last_of p xs
  unfolding last_of
  prev_stop p [] stop s = s.1
  prev_stop p (x ∷ xs) stop s = prev_stop x xs stop s.2

  -- The links of the nodes of a segment lead to its nodes.
  pub Segment-next :
      (p : ℕ) (xs : List ℕ) (stop a : ℕ)
      → Segment next prev p xs stop
      → has a (p ∷ xs) ≡ true
      → has (next a) (stop ∷ xs) ≡ true
  Segment-next p [] stop a s h = ground (arith, s.0)
  Segment-next p (x ∷ xs) stop a s h = ground (arith, s.0, Segment-next x xs stop a s.2)

  pub Segment-prev :
      (p : ℕ) (xs : List ℕ) (stop a : ℕ)
      → Segment next prev p xs stop
      → has a (stop ∷ xs) ≡ true
      → has (prev a) (p ∷ xs) ≡ true
  Segment-prev p [] stop a s h = ground (arith, s.1)
  Segment-prev p (x ∷ xs) stop a s h = ground (arith, s.1, Segment-prev x xs stop a s.2)

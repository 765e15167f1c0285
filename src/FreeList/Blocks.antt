-- ===== src/FreeList/Blocks.antt =====
-- The abstract view of the page backend: for each index, the addresses of the free blocks with one page
-- more than the index, in the order of their list.
use uni_alloc.Base.{
  ℕ, ◌+◌, ◌*◌, ◌%◌, ◌^◌, ◌≡◌, ◌≤◌, ◌<◌, ◌⊎◌, Option, none, some, List, [], ◌∷◌, true, false, arith,
  refl, ◌∙◌,
}
use uni_alloc.Memory.Chain.{has, IsDistinct, has_ne}
use uni_alloc.Radix.Lookup.{lookup}
use uni_alloc.FreeList.{FreeList, backend_max_page, marker, put, remove_current}

abbrev pub head_of : List ℕ → Option ℕ
head_of [] = none
head_of (x ∷ xs) = some x

-- From `before` on, the links lead through the nodes and back.
abbrev pub Linked : (ℕ → Option ℕ) → (ℕ → Option ℕ) → Option ℕ → List ℕ → Type 0
Linked next prev before [] = Unit {0}
Linked next prev before (x ∷ xs) =
    (prev x ≡ before) × (next x ≡ head_of xs) × Linked next prev (some x) xs

-- Two blocks are the same or do not overlap.
abbrev pub AreApart : ℕ → ℕ → ℕ → ℕ → Type 0
AreApart i a j b = ((i ≡ j) × (a ≡ b)) ⊎ ((a + (i + 1) * 4096 ≤ b) ⊎ (b + (j + 1) * 4096 ≤ a))

-- A block of whole pages, not at the page 0, below the end of the addresses.
pub record IsBlock (i a : ℕ) : Type 0 where
  pub listed : i < backend_max_page
  pub aligned : a % 4096 ≡ 0
  pub positive : 4096 ≤ a
  pub below : a + (i + 1) * 4096 < 2 ^ 48

-- The page at `q` has the mark of a free block of which it is the first or the last page.
pub record IsMark (ls : ℕ → List ℕ) (q v : ℕ) : Type 0 where
  pub idx : ℕ
  pub block : ℕ
  pub member : has block (ls idx) ≡ true
  pub value : v ≡ marker idx
  pub page : (q * 4096 ≡ block) ⊎ (q * 4096 ≡ block + idx * 4096)

module _ {Os : Type 0} where
  -- The lists have these blocks, none of which overlaps another, and every mark in the tree is one of
  -- theirs; what else is in the tree has no sign.
  pub record Holds (s : FreeList Os) (ls : ℕ → List ℕ) : Type 0 where
    pub heads : (i : ℕ) → s.lists i ≡ head_of (ls i)
    pub linked : (i : ℕ) → Linked s.next s.prev none (ls i)
    pub distinct : (i : ℕ) → IsDistinct (ls i)
    pub blocks : (i a : ℕ) → has a (ls i) ≡ true → IsBlock i a
    pub apart : (i a j b : ℕ) → has a (ls i) ≡ true → has b (ls j) ≡ true → AreApart i a j b
    pub marks :
        (q : ℕ) → q < 2 ^ 36 → (lookup s.rd_tree q < 2 ^ 63) ⊎ IsMark ls q (lookup s.rd_tree q)

pub Linked-frame :
    (next prev next' prev' : ℕ → Option ℕ) (before : Option ℕ) (xs : List ℕ)
    → ((a : ℕ) → has a xs ≡ true → (next' a ≡ next a) × (prev' a ≡ prev a))
    → Linked next prev before xs
    → Linked next' prev' before xs
Linked-frame next prev next' prev' before [] same l = tt
Linked-frame next prev next' prev' before (x ∷ xs) same (p, q, l) =
    let (e, f) = same x (ground arith) in
    (f ∙ p, e ∙ q, Linked-frame next prev next' prev' (some x) xs (λ a h. same a (ground arith)) l)

-- The node behind the first has none before it now.
abbrev pub cleared : List ℕ → (ℕ → Option ℕ) → ℕ → Option ℕ
cleared [] prev = prev
cleared (y ∷ ys) prev = put prev y none

module _ {Os : Type 0} where
  pub remove_current-head :
      (s : FreeList Os) (x : ℕ) (xs : List ℕ)
      → Linked s.next s.prev none (x ∷ xs)
      → remove_current x s ≡ (head_of xs, record s { prev = cleared xs s.prev })
  unfolding remove_current
  remove_current-head s x [] (p, q, l) = ground (arith, p, q)
  remove_current-head s x (y ∷ ys) (p, q, l) = ground (arith, p, q)

  pub cleared-Linked :
      (s : FreeList Os) (x : ℕ) (xs : List ℕ)
      → Linked s.next s.prev none (x ∷ xs)
      → IsDistinct xs
      → Linked s.next (cleared xs s.prev) none xs
  unfolding put
  cleared-Linked s x [] l d = tt
  cleared-Linked s x (y ∷ ys) (_, _, (p, q, l)) d = (
    ground arith,
    q,
    Linked-frame s.next s.prev s.next (put s.prev y none) (some y) ys
        (λ a h. (refl, ground (arith, has_ne a y ys h d.0))) l,
  )

-- Other nodes keep their links.
pub cleared-other :
    (prev : ℕ → Option ℕ) (xs : List ℕ) (a : ℕ) → has a xs ≡ false → cleared xs prev a ≡ prev a
unfolding put
cleared-other prev [] a h = refl
cleared-other prev (y ∷ ys) a h = ground arith

abbrev pub pushed_prev : List ℕ → ℕ → (ℕ → Option ℕ) → ℕ → Option ℕ
pushed_prev [] node prev = prev
pushed_prev (y ∷ ys) node prev = put (put prev y (some node)) node none

abbrev pub pushed_next : List ℕ → ℕ → (ℕ → Option ℕ) → ℕ → Option ℕ
pushed_next [] node next = next
pushed_next (y ∷ ys) node next = put next node (some y)

pub pushed-Linked :
    (next prev : ℕ → Option ℕ) (node : ℕ) (xs : List ℕ)
    → Linked next prev none xs
    → IsDistinct xs
    → has node xs ≡ false
    → next node ≡ none
    → prev node ≡ none
    → Linked (pushed_next xs node next) (pushed_prev xs node prev) none (node ∷ xs)
unfolding put
pushed-Linked next prev node [] l d out e f = (f, e, tt)
pushed-Linked next prev node (y ∷ ys) (p, q, l) d out e f = (
  ground arith,
  ground arith,
  (
    ground arith,
    ground arith,
    Linked-frame next prev _ _ (some y) ys
        (λ a h. (
          ground (arith, has_ne a node (y ∷ ys)),
          ground (arith, has_ne a node (y ∷ ys), has_ne a y ys h d.0),
        ))
        l,
  ),
)

-- ===== src/Slab/Batches/Returned.antt =====
-- The list of a slab after chunks came back to it: a slab that was full is partial again.
use mathlib.Core.Path.{subst}
use uni_alloc.Base.{ℕ, ◌≡◌, ◌≢◌, refl, sym, ◌∙◌, true, false, List, [], ◌∷◌, ◌++◌, arith}
use uni_alloc.Base.Run.{Returns, returns, Returns-bind}
use uni_alloc.Memory.Chain.{
  Apart, Apart-right, IsDistinct-split, has, has_ne, has-append, IsDistinct,
}
use uni_alloc.Page.{is_empty}
use uni_alloc.Slab.Defs.{ScAllocator}
use uni_alloc.Slab.Lists.{Headers, remove_full, insert_partial}
use uni_alloc.Slab.Lists.Links.{IsPageList, Kept, link_lem, delete_lem}
use uni_alloc.Slab.World.{World, Platform}
use uni_alloc.Slab.Batches.{relist}
use uni_alloc.Slab.Batches.Moves.{IsPageList-frame}

remove_full-any :
    (s : ScAllocator) (h : Headers) (idx : ℕ) (xs ys : List ℕ)
    → IsPageList h s.full_start (xs ++ (idx ∷ ys))
    → Returns
        (λ (s', h').
          (s'.partial_start ≡ s.partial_start)
          × IsPageList h' s'.full_start (xs ++ ys)
          × Kept (xs ++ (idx ∷ ys)) h h')
        (remove_full s idx h)
unfolding remove_full
remove_full-any s h idx xs ys f =
    Returns-bind (delete_lem h s.full_start idx xs ys f)
      λ r q. returns {a = (record s { full_start = r.0 }, r.1)} (refl, q.0, q.1)

insert_partial-last :
    (s : ScAllocator) (h : Headers) (idx : ℕ) (ps : List ℕ)
    → IsPageList h s.partial_start ps
    → has idx ps ≡ false
    → idx ≢ 0
    → Returns
        (λ (s', h').
          (s'.full_start ≡ s.full_start)
          × IsPageList h' s'.partial_start (ps ++ (idx ∷ []))
          × Kept (ps ++ (idx ∷ [])) h h')
        (insert_partial s idx h)
unfolding insert_partial
insert_partial-last s h idx ps p out ne =
    Returns-bind (link_lem h s.partial_start idx ps p out ne)
      λ r q. returns {a = (record s { partial_start = r.0 }, r.1)} (refl, q.0, q.1)

pub ring-IsDistinct :
    (h : Headers) (head : ℕ) (xs : List ℕ)
    → IsPageList h head xs
    → IsDistinct xs × (has 0 xs ≡ false)
ring-IsDistinct h head [] r = (tt, refl)
ring-IsDistinct h head (x ∷ xs) (e, s, d, n) = (d, n)

pub has_middle : (xs ys : List ℕ) (x : ℕ) → has x (xs ++ (x ∷ ys)) ≡ true
has_middle xs ys x = rw (has-append x xs (x ∷ ys)) (ground arith)

-- The pages beside `idx` are neither it nor on the other list.
pub others-Apart :
    (xs ys ps : List ℕ) (idx : ℕ)
    → IsDistinct (xs ++ (idx ∷ ys))
    → Apart ps (xs ++ (idx ∷ ys))
    → Apart (xs ++ ys) (ps ++ (idx ∷ []))
others-Apart xs ys ps idx d apart a i =
    let (no_xs, _, no_ys) = IsDistinct-split xs idx ys d in
    let one_of = rw (has-append a xs ys) at i in
    let there : has a (xs ++ (idx ∷ ys)) ≡ true = rw (has-append a xs (idx ∷ ys)) (ground arith) in
    let out : has a ps ≡ false = Apart-right ps (xs ++ (idx ∷ ys)) a apart there in
    let absent : has idx (xs ++ ys) ≡ false = rw (has-append idx xs ys) (ground arith) in
    rw (has-append a ps (idx ∷ [])) (ground (arith, has_ne a idx (xs ++ ys) i absent))

module _ {Os Backend : Type 0} (c : Platform Os Backend) (s : ScAllocator) (w : World Os Backend)
    (idx : ℕ) (xs ys ps : List ℕ) where
  -- A full slab that got chunks back and is not empty leaves the full list and becomes the last
  -- partial slab.
  pub relist-reopened :
      IsPageList w.headers s.full_start (xs ++ (idx ∷ ys))
      → IsPageList w.headers s.partial_start ps
      → Apart ps (xs ++ (idx ∷ ys))
      → is_empty (w.headers idx) ≡ false
      → Returns
          (λ (s', w').
            IsPageList w'.headers s'.full_start (xs ++ ys)
            × IsPageList w'.headers s'.partial_start (ps ++ (idx ∷ []))
            × ((w'.headers idx).counter ≡ (w.headers idx).counter)
            × ((w'.headers idx).ptr ≡ (w.headers idx).ptr))
          (relist c s idx true w)
  unfolding relist
  relist-reopened f p apart used =
      let (d, n) = ring-IsDistinct w.headers s.full_start (xs ++ (idx ∷ ys)) f in
      let there = has_middle xs ys idx in
      let out = Apart-right ps (xs ++ (idx ∷ ys)) idx apart there in
      rw used (
        Returns-bind (remove_full-any s w.headers idx xs ys f) λ (s1, h1) (same1, f1, kept1).
          let p1 =
            subst (λ a. IsPageList h1 a ps) (sym same1)
              (IsPageList-frame w.headers h1 s.partial_start (xs ++ (idx ∷ ys)) ps apart kept1 p) in
          Returns-bind
            (insert_partial-last s1 h1 idx ps p1 out
              (ground (arith, has_ne idx 0 (xs ++ (idx ∷ ys)) there n)))
            λ (s2, h2) (same2, p2, kept2). returns (
              subst (λ a. IsPageList h2 a (xs ++ ys)) (sym same2)
                  (IsPageList-frame h1 h2 s1.full_start (ps ++ (idx ∷ [])) (xs ++ ys)
                    (others-Apart xs ys ps idx d apart) kept2 f1),
              p2,
              kept2.counter idx ∙ kept1.counter idx,
              kept2.ptr idx ∙ kept1.ptr idx,
            ))

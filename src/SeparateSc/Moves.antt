-- ===== src/SeparateSc/Moves.antt =====
-- What a move from one list of separate_sc.rs to another changes.
use uni_alloc.Base.{
  ℕ, ◌+◌, ◌<◌, ◌^◌, ◌≡◌, ◌∙◌, true, false, List, [], ◌∷◌, ◌++◌, length, arith, length-append,
}
use uni_alloc.Base.Run.{Returns, Returns-map}
use uni_alloc.Base.Words.{add64, sub64}
use uni_alloc.Memory.Chain.{
  has, has-append, has_ne, IsDistinct, IsDistinct-split, Apart, Apart-right,
}
use uni_alloc.ArrayList.{ArrayLinkedList}
use uni_alloc.SeparateSc.Lists.{unlink, link_last}
use uni_alloc.SeparateSc.Rings.{IsIndexRing, IsIndexRing-frame, IsCounted, unlink_lem}
use uni_alloc.SeparateSc.Joining.{link_last_lem}

pub Apart-sym : (xs ys : List ℕ) → Apart xs ys → Apart ys xs
Apart-sym xs ys apart a h = Apart-right xs ys a apart h

pub Apart-less : (xs ys zs : List ℕ) (idx : ℕ) → Apart (xs ++ (idx ∷ ys)) zs → Apart (xs ++ ys) zs
Apart-less xs ys zs idx apart a h =
    let either = rw (has-append a xs ys) at h in
    apart a (rw (has-append a xs (idx ∷ ys)) (ground arith))

pub Apart-more :
    (xs zs : List ℕ) (idx : ℕ) → Apart xs zs → has idx zs ≡ false → Apart (xs ++ (idx ∷ [])) zs
Apart-more xs zs idx apart out a h =
    let either = rw (has-append a xs (idx ∷ [])) at h in ground (arith, apart a, has_ne a idx zs)

pub Apart-moved :
    (os xs ys zs : List ℕ) (idx : ℕ)
    → Apart os (xs ++ (idx ∷ ys))
    → Apart os zs
    → Apart os (zs ++ (idx ∷ []))
Apart-moved os xs ys zs idx off off' a h =
    let there : has idx (xs ++ (idx ∷ ys)) ≡ true =
      rw (has-append idx xs (idx ∷ ys)) (ground arith) in
    rw (has-append a zs (idx ∷ []))
      (ground (arith, off' a, has_ne a idx os h (Apart-right os (xs ++ (idx ∷ ys)) idx off there)))

-- Without `idx`, which is only once in the list.
pub Apart-rest :
    (xs ys zs : List ℕ) (idx : ℕ)
    → IsDistinct (xs ++ (idx ∷ ys))
    → Apart (xs ++ (idx ∷ ys)) zs
    → Apart (xs ++ ys) (zs ++ (idx ∷ []))
Apart-rest xs ys zs idx d apart a h =
    let (no_xs, _, no_ys) = IsDistinct-split xs idx ys d in
    let out : has idx (xs ++ ys) ≡ false = rw (has-append idx xs ys) (ground arith) in
    rw (has-append a zs (idx ∷ []))
      (ground (arith, Apart-less xs ys zs idx apart a h, has_ne a idx (xs ++ ys) h out))

pub ring-IsDistinct {ℓ} :
    {A : Type ℓ} (l : ArrayLinkedList A) (start : ℕ) (xs : List ℕ)
    → IsIndexRing l start xs
    → IsDistinct xs × ((a : ℕ) → has a xs ≡ true → a < length l.items)
ring-IsDistinct l start [] r = (tt, λ a h. absurd (ground arith))
ring-IsDistinct l start (x ∷ xs) (e, s, d, b) = (d, b)

count_down :
    (count idx : ℕ) (xs ys : List ℕ)
    → count < 2 ^ 64
    → count ≡ length (xs ++ (idx ∷ ys))
    → sub64 count 1 ≡ length (xs ++ ys)
count_down count idx xs ys small e = omega (arith, length-append xs (idx ∷ ys), length-append xs ys)

count_up :
    (count idx : ℕ) (xs : List ℕ)
    → count + 1 < 2 ^ 64
    → count ≡ length xs
    → add64 count 1 ≡ length (xs ++ (idx ∷ []))
count_up count idx xs small e = omega (arith, length-append xs (idx ∷ []))

-- One header moves from the list `xs ++ (idx ∷ ys)` to the end of the list `zs`.
pub record IsMoved {ℓ} {A : Type ℓ} (idx : ℕ) (xs ys zs : List ℕ) (l l' : ArrayLinkedList A)
    (start start' count count' : ℕ) : Type ℓ where
  pub from : IsCounted l' start count (xs ++ ys)
  pub to : IsCounted l' start' count' (zs ++ (idx ∷ []))
  pub items : l'.items ≡ l.items
  pub others :
      (other : ℕ) (os : List ℕ)
      → Apart os (xs ++ (idx ∷ ys))
      → Apart os zs
      → IsIndexRing l other os
      → IsIndexRing l' other os

module _ {ℓ} {A : Type ℓ} (l : ArrayLinkedList A) (idx : ℕ) (xs ys zs : List ℕ)
    (start start' count count' : ℕ) (from : IsCounted l start count (xs ++ (idx ∷ ys)))
    (to : IsCounted l start' count' zs) (apart : Apart (xs ++ (idx ∷ ys)) zs)
    (small : count < 2 ^ 64) (small' : count' + 1 < 2 ^ 64) where
  -- `unlink` and then `link_last`.
  pub move_lem :
      Returns
        (λ (s, l1).
          Returns
            (λ (s', l2). IsMoved idx xs ys zs l l2 s s' (sub64 count 1) (add64 count' 1))
            (link_last start' count' idx l1))
        (unlink start idx l)
  move_lem =
      let all : List ℕ = xs ++ (idx ∷ ys) in
      let (d, b) = ring-IsDistinct l start all from.0 in
      let there : has idx all ≡ true = rw (has-append idx xs (idx ∷ ys)) (ground arith) in
      Returns-map (unlink_lem l idx start xs ys from.0) λ (s, l1) (f1, kept1).
        let to1 = IsIndexRing-frame l l1 start' all zs (Apart-sym all zs apart) kept1 to.0 in
        let inside : idx < length l1.items = rw (kept1.items) (b idx there) in
        Returns-map (link_last_lem l1 idx start' count' zs to1 to.1 (apart idx there) inside)
          λ (s', l2) (t2, kept2). record {
            from = (
              IsIndexRing-frame l1 l2 s (zs ++ (idx ∷ [])) (xs ++ ys)
                  (Apart-rest xs ys zs idx d apart) kept2 f1,
              count_down count idx xs ys small from.1,
            );
            to = (t2, count_up count' idx zs small' to.1);
            items = kept2.items ∙ kept1.items;
            others = λ other os off off' r.
                IsIndexRing-frame l1 l2 other (zs ++ (idx ∷ [])) os
                  (Apart-moved os xs ys zs idx off off') kept2
                  (IsIndexRing-frame l l1 other all os off kept1 r);
          }

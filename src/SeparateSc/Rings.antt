-- ===== src/SeparateSc/Rings.antt =====
-- The lists of separate_sc.rs as rings of headers: an index that is removed leaves its ring, one that
-- is inserted comes last, and every other ring stays.
use uni_alloc.Base.{
  ℕ, ◌<◌, ◌≡◌, refl, true, false, List, [], ◌∷◌, ◌++◌, length, arith, ◌==◌, if◌then◌else◌, lt→ltb,
  eq→==,
}
use mathlib.Core.List.{append-nil}
use uni_alloc.Base.Run.{ok, Returns, returns}
use uni_alloc.Memory.{write}
use uni_alloc.Memory.Chain.{
  has, has-append, has_ne, ne_has, IsDistinct, IsDistinct-append, IsDistinct-split, Apart,
}
use uni_alloc.Ring.{Segment, Segment-frame, Segment-next, Segment-prev}
use uni_alloc.Ring.Edit.{Segment-remove, Segment-rotate, next_removed, prev_removed}
use uni_alloc.ArrayList.{ArrayLinkedList, update, get_next}
use uni_alloc.ArrayList.Links.{remove_node-eq}
use uni_alloc.SeparateSc.Lists.{unlink}

-- The nodes `xs` form a ring that begins at `start`; the start of an empty list means nothing.
abbrev pub IsIndexRing {ℓ} : {A : Type ℓ} → ArrayLinkedList A → ℕ → List ℕ → Type 0
IsIndexRing l start [] = Unit {0}
IsIndexRing l start (x ∷ xs) =
    (start ≡ x)
    × Segment l.next l.prev x xs x
    × IsDistinct (x ∷ xs)
    × ((a : ℕ) → has a (x ∷ xs) ≡ true → a < length l.items)

-- A list of the allocator: a ring and its length.
abbrev pub IsCounted {ℓ} : {A : Type ℓ} → ArrayLinkedList A → ℕ → ℕ → List ℕ → Type 0
IsCounted l start count xs = IsIndexRing l start xs × (count ≡ length xs)

-- At most the links of the nodes `xs` have changed.
pub record LinksKept {ℓ} {A : Type ℓ} (xs : List ℕ) (l l' : ArrayLinkedList A) : Type ℓ where
  pub items : l'.items ≡ l.items
  pub next : (a : ℕ) → has a xs ≡ false → l'.next a ≡ l.next a
  pub prev : (a : ℕ) → has a xs ≡ false → l'.prev a ≡ l.prev a

module _ {ℓ} {A : Type ℓ} (l : ArrayLinkedList A) where
  pub IsIndexRing-frame :
      (l' : ArrayLinkedList A) (start : ℕ) (xs ys : List ℕ)
      → Apart ys xs
      → LinksKept xs l l'
      → IsIndexRing l start ys
      → IsIndexRing l' start ys
  IsIndexRing-frame l' start xs [] apart kept r = tt
  IsIndexRing-frame l' start xs (y ∷ ys) apart kept (e, s, d, b) = (
    e,
    Segment-frame l.next l.prev l'.next l'.prev y ys y (λ a h. kept.next a (apart a h))
        (λ a h. kept.prev a (apart a h)) s,
    d,
    λ a h. rw (kept.items) (b a h),
  )

  abbrev without : ℕ → ArrayLinkedList A
  without idx = record l {
    prev = update (update l.prev (l.next idx) (l.prev idx)) idx idx;
    next = update (update l.next (l.prev idx) (l.next idx)) idx idx;
  }

  without-LinksKept :
      (idx : ℕ) (xs : List ℕ)
      → has idx xs ≡ true
      → has (l.next idx) xs ≡ true
      → has (l.prev idx) xs ≡ true
      → LinksKept xs l (without idx)
  unfolding update
  without-LinksKept idx xs h after before = record {
    items = refl;
    next = λ a o. ground (arith, has_ne idx a xs h o, has_ne (l.prev idx) a xs before o);
    prev = λ a o. ground (arith, has_ne idx a xs h o, has_ne (l.next idx) a xs after o);
  }

  -- Among other nodes than `idx`, taking it out is what it is for the rings of Ring.Edit.
  without-Segment :
      (idx p : ℕ) (xs : List ℕ) (stop : ℕ)
      → has idx (p ∷ xs) ≡ false
      → has idx (stop ∷ xs) ≡ false
      → Segment (next_removed l.next l.prev idx) (prev_removed l.next l.prev idx) p xs stop
      → Segment (without idx).next (without idx).prev p xs stop
  unfolding update write
  without-Segment idx p xs stop out out' s =
      Segment-frame _ _ (without idx).next (without idx).prev p xs stop
        (λ a h. ground (arith, ne_has idx a (p ∷ xs) out h))
        (λ a h. ground (arith, ne_has idx a (stop ∷ xs) out' h)) s

  unlink-eq :
      (start idx : ℕ)
      → idx < length l.items
      → l.next idx < length l.items
      → l.prev idx < length l.items
      → unlink start idx l ≡ ok (if idx == start then l.next idx else start, without idx)
  unfolding unlink get_next
  unlink-eq start idx h after before =
      rw (remove_node-eq l idx h after before, lt→ltb idx (length l.items) h) (ground arith)

  module _ (idx : ℕ) where
    unlink-first :
        (y : ℕ) (ys : List ℕ)
        → IsIndexRing l idx (idx ∷ (y ∷ ys))
        → IsIndexRing (without idx) (l.next idx) (y ∷ ys)
    unlink-first y ys (_, s, d, b) =
        let turned : Segment l.next l.prev y (ys ++ (idx ∷ [])) y =
          Segment-rotate l.next l.prev idx y ys s in
        let d' : IsDistinct (y ∷ (ys ++ (idx ∷ []))) =
          IsDistinct-append (y ∷ ys) (idx ∷ []) d.1 (refl, tt)
            (λ a h. ground (arith, ne_has idx a (y ∷ ys) d.0 h)) in
        (
          s.0,
          without-Segment idx y ys y d.0 d.0
              (rw append-nil at (Segment-remove l.next l.prev y idx ys [] turned d')),
          d.1,
          λ a h. b a (ground arith),
        )

    unlink-inner :
        (x : ℕ) (xs ys : List ℕ)
        → IsIndexRing l x (x ∷ (xs ++ (idx ∷ ys)))
        → IsIndexRing (without idx) x (x ∷ (xs ++ ys))
    unlink-inner x xs ys (_, s, d, b) =
        let (not_front, d', not_back) = IsDistinct-split (x ∷ xs) idx ys d in
        let out : has idx (x ∷ (xs ++ ys)) ≡ false = rw (has-append idx xs ys) (ground arith) in
        (
          refl,
          without-Segment idx x (xs ++ ys) x out out (Segment-remove l.next l.prev x idx xs ys s d),
          d',
          λ a h.
              b a (rw (has-append a xs (idx ∷ ys)) (ground (arith, rw (has-append a xs ys) at h))),
        )

    -- An index of the ring leaves it.
    pub unlink_lem :
        (start : ℕ) (xs ys : List ℕ)
        → IsIndexRing l start (xs ++ (idx ∷ ys))
        → Returns
            (λ (start', l'). IsIndexRing l' start' (xs ++ ys) × LinksKept (xs ++ (idx ∷ ys)) l l')
            (unlink start idx l)
    unlink_lem start [] ys (e, s, d, b) =
        let all : List ℕ = idx ∷ ys in
        let here : has idx all ≡ true = ground arith in
        let after = Segment-next l.next l.prev idx ys idx idx s here in
        let before = Segment-prev l.next l.prev idx ys idx idx s here in
        rw (e, unlink-eq idx idx (b idx here) (b _ after) (b _ before), eq→== idx idx refl)
          (returns (first ys (refl, s, d, b), without-LinksKept idx all here after before))
      where
        first :
            (zs : List ℕ) → IsIndexRing l idx (idx ∷ zs) → IsIndexRing (without idx) (l.next idx) zs
        first [] r = tt
        first (z ∷ zs) r = unlink-first z zs r
    unlink_lem start (x ∷ xs) ys (e, s, d, b) =
        let rest : List ℕ = xs ++ (idx ∷ ys) in
        let there : has idx rest ≡ true = rw (has-append idx xs (idx ∷ ys)) (ground arith) in
        let here : has idx (x ∷ rest) ≡ true = ground arith in
        let after = Segment-next l.next l.prev x rest x idx s here in
        let before = Segment-prev l.next l.prev x rest x idx s here in
        let other : (idx == x) ≡ false = has_ne idx x rest there d.0 in
        rw (e, unlink-eq x idx (b idx here) (b _ after) (b _ before), other)
          (returns (
            unlink-inner x xs ys (refl, s, d, b),
            without-LinksKept idx (x ∷ rest) here after before,
          ))

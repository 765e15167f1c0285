-- ===== src/SeparateSc/Joining.antt =====
-- An index that is in no list joins one: the rings of SeparateSc.Rings under `link_last`.
use uni_alloc.Base.{
  ℕ, ◌<◌, ◌≡◌, refl, true, false, List, [], ◌∷◌, ◌++◌, length, arith, ◌==◌, lt→ltb, eq→==, ne→==,
}
use uni_alloc.Base.Run.{ok, Returns, returns}
use uni_alloc.Memory.{write}
use uni_alloc.Memory.Chain.{has, has-append, has_ne, ne_has, IsDistinct-append}
use uni_alloc.Ring.{Segment, Segment-frame, Segment-prev}
use uni_alloc.Ring.Edit.{Segment-insert, next_inserted, prev_inserted}
use uni_alloc.ArrayList.{
  ArrayLinkedList, update, reset_links, insert_to_prev, get_prev, set_next, set_prev,
}
use uni_alloc.SeparateSc.Lists.{link_last}
use uni_alloc.SeparateSc.Rings.{IsIndexRing, LinksKept}

module _ {ℓ} {A : Type ℓ} (l : ArrayLinkedList A) (idx : ℕ) where
  abbrev alone : ArrayLinkedList A
  alone = record l { prev = update l.prev idx idx; next = update l.next idx idx }

  abbrev before : ℕ → ArrayLinkedList A
  before x = record l {
    prev = update (update l.prev x idx) idx (l.prev x);
    next = update (update l.next (l.prev x) idx) idx x;
  }

  reset_links-eq : idx < length l.items → reset_links l idx ≡ ok alone
  unfolding reset_links set_prev set_next
  reset_links-eq h = rw (lt→ltb idx (length l.items) h, lt→ltb idx (length l.items) h) refl

  insert_to_prev-eq :
      (x : ℕ)
      → x < length l.items
      → l.prev x < length l.items
      → idx < length l.items
      → insert_to_prev l x idx ≡ ok (before x)
  unfolding insert_to_prev get_prev set_prev set_next
  insert_to_prev-eq x h k m =
      rw
        (
          lt→ltb x (length l.items) h,
          lt→ltb _ _ k,
          lt→ltb x (length l.items) h,
          lt→ltb idx (length l.items) m,
          lt→ltb idx (length l.items) m,
        )
        refl

  alone-LinksKept : LinksKept (idx ∷ []) l alone
  unfolding update
  alone-LinksKept = record { items = refl; next = λ a o. ground arith; prev = λ a o. ground arith }

  before-LinksKept :
      (x : ℕ) (xs : List ℕ)
      → has idx xs ≡ true
      → has x xs ≡ true
      → has (l.prev x) xs ≡ true
      → LinksKept xs l (before x)
  unfolding update
  before-LinksKept x xs h k m = record {
    items = refl;
    next = λ a o. ground (arith, has_ne idx a xs h o, has_ne (l.prev x) a xs m o);
    prev = λ a o. ground (arith, has_ne idx a xs h o, has_ne x a xs k o);
  }

  before-IsIndexRing :
      (x : ℕ) (xs : List ℕ)
      → IsIndexRing l x (x ∷ xs)
      → has idx (x ∷ xs) ≡ false
      → idx < length l.items
      → IsIndexRing (before x) x (x ∷ (xs ++ (idx ∷ [])))
  unfolding update write
  before-IsIndexRing x xs (_, s, d, b) out h =
      let last = Segment-prev l.next l.prev x xs x x s (ground arith) in
      let last_ne : (l.prev x == idx) ≡ false = has_ne (l.prev x) idx (x ∷ xs) last out in
      let s' : Segment (next_inserted l.next l.prev x idx) (prev_inserted l.next l.prev x idx) x
          (xs ++ (idx ∷ [])) x =
        Segment-insert l.next l.prev x idx xs s d out in
      (
        refl,
        Segment-frame _ _ (before x).next (before x).prev x (xs ++ (idx ∷ [])) x
            (λ a i. ground arith) (λ a i. ground arith) s',
        IsDistinct-append (x ∷ xs) (idx ∷ []) d (refl, tt)
            (λ a i. ground (arith, ne_has idx a (x ∷ xs) out i)),
        λ a i. ground (arith, b a, rw (has-append a xs (idx ∷ [])) at i),
      )

  -- An index that is not in the list becomes its last one.
  pub link_last_lem :
      (start count : ℕ) (xs : List ℕ)
      → IsIndexRing l start xs
      → count ≡ length xs
      → has idx xs ≡ false
      → idx < length l.items
      → Returns
          (λ (start', l').
            IsIndexRing l' start' (xs ++ (idx ∷ [])) × LinksKept (xs ++ (idx ∷ [])) l l')
          (link_last start count idx l)
  unfolding link_last
  link_last_lem start count [] r e out h =
      rw (eq→== count 0 e, reset_links-eq h)
        (returns {a = (idx, alone)} (
          (refl, unfold update in (ground arith, ground arith), (refl, tt), λ a i. ground arith),
          alone-LinksKept,
        ))
  link_last_lem start count (x ∷ xs) (e', s, d, b) e out h =
      let all : List ℕ = x ∷ (xs ++ (idx ∷ [])) in
      let first : has x (x ∷ xs) ≡ true = ground arith in
      let last = Segment-prev l.next l.prev x xs x x s first in
      let there : has (l.prev x) all ≡ true =
        rw (has-append (l.prev x) xs (idx ∷ [])) (ground arith) in
      let here : has idx all ≡ true = rw (has-append idx xs (idx ∷ [])) (ground arith) in
      rw (e', ne→== count 0 (omega arith), insert_to_prev-eq x (b x first) (b _ last) h)
        (returns {a = (x, before x)} (
          before-IsIndexRing x xs (refl, s, d, b) out h,
          before-LinksKept x all here (ground arith) there,
        ))

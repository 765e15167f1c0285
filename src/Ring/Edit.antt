-- ===== src/Ring/Edit.antt =====
-- The three changes of a ring: a node joins at the end, a node leaves, the head moves on.
use uni_alloc.Base.{ℕ, ◌≡◌, ◌≢◌, refl, ◌∙◌, true, false, List, [], ◌∷◌, ◌++◌, arith, ◌==◌}
use mathlib.Core.List.{append-nil}
use uni_alloc.Memory.{write}
use uni_alloc.Memory.Chain.{
  has, IsDistinct, IsDistinct-append, IsDistinct-split, last_of, has-last_of, has-append,
  write_self, write_other, Apart-right, IsDistinct-parts, has_ne, ne_has, write_other_two,
}
use uni_alloc.Ring.{Segment, Segment-frame, Segment-append, Segment-split, prev_stop, IsRing}

-- The last node of a segment is given another successor `stop'`.
redirect :
    (next prev next' prev' : ℕ → ℕ) (p : ℕ) (xs : List ℕ) (stop stop' : ℕ)
    → Segment next prev p xs stop
    → IsDistinct (p ∷ xs)
    → ((a : ℕ) → has a (p ∷ xs) ≡ true → (last_of p xs == a) ≡ false → next' a ≡ next a)
    → next' (last_of p xs) ≡ stop'
    → ((a : ℕ) → has a xs ≡ true → prev' a ≡ prev a)
    → prev' stop' ≡ last_of p xs
    → Segment next' prev' p xs stop'
unfolding last_of
redirect next prev next' prev' p [] stop stop' s d f l g k = (l, k)
redirect next prev next' prev' p (x ∷ xs) stop stop' s d f l g k = (
  f p (ground arith) (has_ne (last_of x xs) p (x ∷ xs) (has-last_of x xs) d.0) ∙ s.0,
  g x (ground arith) ∙ s.1,
  redirect next prev next' prev' x xs stop stop' s.2 d.1 (λ a h e. f a (ground arith) e) l
      (λ a h. g a (ground arith)) k,
)

module _ (next prev : ℕ → ℕ) where
  -- The links after `idx` has been put between the last node and the head.
  module _ (head idx : ℕ) where
    abbrev pub next_inserted : ℕ → ℕ
    next_inserted = write (write next idx head) (prev head) idx

    abbrev pub prev_inserted : ℕ → ℕ
    prev_inserted = write (write prev idx (prev head)) head idx

  pub Segment-insert :
      (x idx : ℕ) (xs : List ℕ)
      → Segment next prev x xs x
      → IsDistinct (x ∷ xs)
      → has idx (x ∷ xs) ≡ false
      → Segment (next_inserted x idx) (prev_inserted x idx) x (xs ++ (idx ∷ [])) x
  Segment-insert x idx xs s d out =
      let last : prev x ≡ last_of x xs = prev_stop next prev x xs x s in
      let member = has-last_of x xs in
      let apart = λ (a : ℕ) (h : has a (x ∷ xs) ≡ true). ne_has idx a (x ∷ xs) out h in
      let last_ne : (prev x == idx) ≡ false = rw last (has_ne _ idx (x ∷ xs) member out) in
      let head_ne : (x == idx) ≡ false = ground arith in
      Segment-append (next_inserted x idx) (prev_inserted x idx) x xs idx [] x
        (redirect next prev (next_inserted x idx) (prev_inserted x idx) x xs x idx s d
          (λ a h e. write_other_two next idx x (prev x) idx a (apart a h) (rw last e))
          (rw last (write_self _ _ _))
          (λ a h.
            write_other_two prev idx (prev x) x idx a (apart a (ground arith))
              (ne_has x a xs d.0 h))
          (rw
            (write_other (write prev idx (prev x)) x idx idx head_ne, write_self prev idx (prev x))
            last))
        (
          rw (write_other (write next idx x) (prev x) idx idx last_ne) (write_self next idx x),
          write_self (write prev idx (prev x)) x idx,
        )

  -- A node that is in no ring joins a ring as its last node.
  pub IsRing-insert :
      (x idx : ℕ) (xs : List ℕ)
      → IsRing next prev x (x ∷ xs)
      → has idx (x ∷ xs) ≡ false
      → idx ≢ 0
      → IsRing (next_inserted x idx) (prev_inserted x idx) x (x ∷ (xs ++ (idx ∷ [])))
  IsRing-insert x idx xs (_, s, d, nn) out ne = (
    refl,
    Segment-insert x idx xs s d out,
    IsDistinct-append (x ∷ xs) (idx ∷ []) d (refl, tt)
        (λ a h. ground (arith, ne_has idx a (x ∷ xs) out h)),
    rw (has-append 0 (x ∷ xs) (idx ∷ [])) (ground arith),
  )

  -- The links after `idx` has been taken out.
  module _ (idx : ℕ) where
    abbrev pub next_removed : ℕ → ℕ
    next_removed = write next (prev idx) (next idx)

    abbrev pub prev_removed : ℕ → ℕ
    prev_removed = write prev (next idx) (prev idx)

  -- The segment up to the node before `idx`, when its successor becomes the one of `idx`.
  Segment-skip :
      (p idx stop : ℕ) (xs : List ℕ)
      → Segment next prev p xs idx
      → next idx ≡ stop
      → IsDistinct (p ∷ xs)
      → has stop xs ≡ false
      → Segment (next_removed idx) (prev_removed idx) p xs stop
  Segment-skip p idx stop xs s e d out =
      let last : prev idx ≡ last_of p xs = prev_stop next prev p xs idx s in
      redirect next prev (next_removed idx) (prev_removed idx) p xs idx stop s d
        (λ a h f. write_other next (prev idx) (next idx) a (rw last f))
        (rw last (write_self next (last_of p xs) (next idx) ∙ e))
        (λ a h. write_other prev (next idx) (prev idx) a (rw e (ne_has stop a xs out h)))
        (rw e (write_self prev stop (prev idx) ∙ last))

  pub Segment-remove :
      (p idx : ℕ) (xs ys : List ℕ)
      → Segment next prev p (xs ++ (idx ∷ ys)) p
      → IsDistinct (p ∷ (xs ++ (idx ∷ ys)))
      → Segment (next_removed idx) (prev_removed idx) p (xs ++ ys) p
  Segment-remove p idx xs [] s d =
      let (front, back) = Segment-split next prev p xs idx [] p s in
      let (d', _, _) = IsDistinct-parts (p ∷ xs) (idx ∷ []) d in
      rw append-nil (Segment-skip p idx p xs front back.0 d' d'.0)
  Segment-remove p idx xs (y ∷ ys) s d =
      let (front, back) = Segment-split next prev p xs idx (y ∷ ys) p s in
      let (d', e', apart) = IsDistinct-parts (p ∷ xs) (idx ∷ (y ∷ ys)) d in
      let last : prev idx ≡ last_of p xs = prev_stop next prev p xs idx front in
      let y_out : has y (p ∷ xs) ≡ false =
        Apart-right (p ∷ xs) (idx ∷ (y ∷ ys)) y apart (ground arith) in
      let no_y : has y (p ∷ ys) ≡ false = ground (arith, e'.1.0) in
      Segment-append (next_removed idx) (prev_removed idx) p xs y ys p
        (Segment-skip p idx y xs front back.0 d' (ground arith))
        (Segment-frame next prev (next_removed idx) (prev_removed idx) y ys p
          (λ a h. write_other next (prev idx) (next idx) a (
            rw last (
              has_ne _ a (p ∷ xs) (has-last_of p xs)
                (Apart-right (p ∷ xs) (idx ∷ (y ∷ ys)) a apart (ground arith)))))
          (λ a h. write_other prev (next idx) (prev idx) a (rw back.0 (ne_has y a (p ∷ ys) no_y h)))
          back.2)

  -- A ring of at least two nodes may take any of them for its head.
  pub Segment-rotate :
      (x y : ℕ) (xs : List ℕ)
      → Segment next prev x (y ∷ xs) x
      → Segment next prev y (xs ++ (x ∷ [])) y
  Segment-rotate x y xs s = Segment-append next prev y xs x [] y s.2 (s.0, s.1)

  -- A node other than the head leaves the ring; the head stays.
  pub IsRing-remove :
      (x idx : ℕ) (xs ys : List ℕ)
      → IsRing next prev x (x ∷ (xs ++ (idx ∷ ys)))
      → IsRing (next_removed idx) (prev_removed idx) x (x ∷ (xs ++ ys))
  IsRing-remove x idx xs ys (_, s, d, nn) = (
    refl,
    Segment-remove x idx xs ys s d,
    (IsDistinct-split (x ∷ xs) idx ys d).1,
    rw (has-append 0 (x ∷ xs) ys) (ground (arith, has-append 0 (x ∷ xs) (idx ∷ ys))),
  )

  -- The head of a ring of at least two nodes leaves it, and its successor is the new head.
  pub IsRing-remove_head :
      (x y : ℕ) (xs : List ℕ)
      → IsRing next prev x (x ∷ (y ∷ xs))
      → IsRing (next_removed x) (prev_removed x) (next x) (y ∷ xs)
  IsRing-remove_head x y xs (_, s, d, nn) = (
    s.0,
    rw append-nil at (
        Segment-remove y x xs [] (Segment-rotate x y xs s) (
          IsDistinct-append (y ∷ xs) (x ∷ []) d.1 (refl, tt)
            (λ a h. ground (arith, ne_has x a (y ∷ xs) d.0 h)))),
    d.1,
    ground arith,
  )

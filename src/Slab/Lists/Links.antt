-- ===== src/Slab/Lists/Links.antt =====
-- The link code keeps a page list a ring: `link` puts a page last, `delete` takes one out, and
-- nothing but the links of that list's pages changes.
use mathlib.Core.Path.{fun_ext, subst₂}
use uni_alloc.Base.{
  ℕ, ◌≡◌, ◌≢◌, refl, sym, true, false, List, [], ◌∷◌, ◌++◌, arith, ◌==◌, eq→==, if◌then◌else◌,
}
use uni_alloc.Base.Run.{ok, Returns, returns}
use uni_alloc.Memory.{write}
use uni_alloc.Memory.Chain.{has, has-append, has_ne, ne_has}
use uni_alloc.Page.{set_prev, set_next}
use uni_alloc.Ring.{Segment, Segment-split, IsRing, Segment-next, Segment-prev}
use uni_alloc.Ring.Edit.{
  next_inserted, prev_inserted, next_removed, prev_removed, IsRing-insert, IsRing-remove,
  IsRing-remove_head,
}
use uni_alloc.Slab.Lists.{Headers, modify, link, unlink, delete}

abbrev pub next_of : Headers → ℕ → ℕ
next_of h a = (h a).next

abbrev pub prev_of : Headers → ℕ → ℕ
prev_of h a = (h a).prev

abbrev pub IsPageList : Headers → ℕ → List ℕ → Type 0
IsPageList h head xs = IsRing (next_of h) (prev_of h) head xs

-- From `h` to `h'` at most the links of the pages `xs` have changed.
pub record Kept (xs : List ℕ) (h h' : Headers) : Type 0 where
  pub same : (a : ℕ) → has a xs ≡ false → h' a ≡ h a
  pub counter : (a : ℕ) → (h' a).counter ≡ (h a).counter
  pub data_start : (a : ℕ) → (h' a).data_start ≡ (h a).data_start
  pub ptr : (a : ℕ) → (h' a).ptr ≡ (h a).ptr

abbrev joined : Headers → ℕ → ℕ → Headers
joined h head idx =
    let h1 = modify h idx (λ s. set_prev s (prev_of h head)) in
    let h2 = modify h1 idx (λ s. set_next s head) in
    modify (modify h2 (prev_of h head) (λ s. set_next s idx)) head (λ s. set_prev s idx)

module _ (h : Headers) (head idx : ℕ) where
  joined-next : next_of (joined h head idx) ≡ next_inserted (next_of h) (prev_of h) head idx
  unfolding modify set_prev set_next write
  joined-next = fun_ext λ a. ground arith

  joined-prev : prev_of (joined h head idx) ≡ prev_inserted (next_of h) (prev_of h) head idx
  unfolding modify set_prev set_next write
  joined-prev = fun_ext λ a. ground arith
  -- The links after `idx` has been unlinked.

abbrev pub cut : Headers → ℕ → Headers
cut h idx =
    let h1 = modify h (next_of h idx) (λ s. set_prev s (prev_of h idx)) in
    modify h1 (prev_of h idx) (λ s. set_next s (next_of h idx))

module _ (h : Headers) (idx : ℕ) where
  cut-next : next_of (cut h idx) ≡ next_removed (next_of h) (prev_of h) idx
  unfolding modify set_prev set_next write
  cut-next = fun_ext λ a. ground arith

  cut-prev : prev_of (cut h idx) ≡ prev_removed (next_of h) (prev_of h) idx
  unfolding modify set_prev set_next write
  cut-prev = fun_ext λ a. ground arith

module _ {xs : List ℕ} {h h' : Headers} (kept : Kept xs h h') (a v : ℕ)
    (member : has a xs ≡ true) where
  Kept-set_prev : Kept xs h (modify h' a (λ s. set_prev s v))
  unfolding modify set_prev
  Kept-set_prev = record {
    same = λ b o. ground (arith, kept.same b o, has_ne a b xs member o);
    counter = λ b. ground (arith, kept.counter b);
    data_start = λ b. ground (arith, kept.data_start b);
    ptr = λ b. ground (arith, kept.ptr b);
  }

  Kept-set_next : Kept xs h (modify h' a (λ s. set_next s v))
  unfolding modify set_next
  Kept-set_next = record {
    same = λ b o. ground (arith, kept.same b o, has_ne a b xs member o);
    counter = λ b. ground (arith, kept.counter b);
    data_start = λ b. ground (arith, kept.data_start b);
    ptr = λ b. ground (arith, kept.ptr b);
  }

pub Kept-refl : (xs : List ℕ) (h : Headers) → Kept xs h h
Kept-refl xs h = record {
  same = λ a o. refl;
  counter = λ a. refl;
  data_start = λ a. refl;
  ptr = λ a. refl;
}

alone_ring :
    (h : Headers) (idx : ℕ)
    → Segment
        (next_of (modify (modify h idx (λ s. set_prev s idx)) idx (λ s. set_next s idx)))
        (prev_of (modify (modify h idx (λ s. set_prev s idx)) idx (λ s. set_next s idx)))
        idx
        []
        idx
unfolding modify set_prev set_next
alone_ring h idx = (ground arith, ground arith)

link-nodes :
    (h : Headers) (idx x : ℕ) (xs : List ℕ)
    → IsPageList h x (x ∷ xs)
    → has idx (x ∷ xs) ≡ false
    → idx ≢ 0
    → Returns
        (λ (head', h').
          IsPageList h' head' ((x ∷ xs) ++ (idx ∷ [])) × Kept ((x ∷ xs) ++ (idx ∷ [])) h h')
        (link x idx h)
unfolding link
link-nodes h idx x xs r out ne =
    let all : List ℕ = (x ∷ xs) ++ (idx ∷ []) in
    let last_in = Segment-prev (next_of h) (prev_of h) x xs x x r.1 (ground arith) in
    let x_ne : (x == 0) ≡ false = ground (arith, r.3) in
    let last_ne : (prev_of h x == 0) ≡ false = has_ne (prev_of h x) 0 (x ∷ xs) last_in r.3 in
    let idx_all : has idx all ≡ true = rw (has-append idx (x ∷ xs) (idx ∷ [])) (ground arith) in
    let last_all : has (prev_of h x) all ≡ true =
      rw (has-append (prev_of h x) (x ∷ xs) (idx ∷ [])) (ground arith) in
    let x_all : has x all ≡ true = ground arith in
    rw (x_ne, last_ne)
      (returns {a = (x, joined h x idx)} (
        subst₂ (λ f g. IsRing f g x all) (sym (joined-next h x idx)) (sym (joined-prev h x idx))
            (IsRing-insert (next_of h) (prev_of h) x idx xs r out ne),
        Kept-set_prev
            (Kept-set_next
              (Kept-set_next (Kept-set_prev (Kept-refl all h) idx (prev_of h x) idx_all) idx x
                idx_all)
              (prev_of h x) idx last_all)
            x idx x_all,
      ))

-- A page that is not null and not in the list becomes its last page.
pub link_lem :
    (h : Headers) (head idx : ℕ) (xs : List ℕ)
    → IsPageList h head xs
    → has idx xs ≡ false
    → idx ≢ 0
    → Returns
        (λ (head', h'). IsPageList h' head' (xs ++ (idx ∷ [])) × Kept (xs ++ (idx ∷ [])) h h')
        (link head idx h)
unfolding link
link_lem h head idx [] r out ne =
    let member : has idx (idx ∷ []) ≡ true = ground arith in
    let h1 = modify h idx (λ s. set_prev s idx) in
    let h2 = modify h1 idx (λ s. set_next s idx) in
    rw (eq→== head 0 r) (
      returns {a = (idx, h2)} (
        (refl, alone_ring h idx, (refl, tt), ground arith),
        Kept-set_next (Kept-set_prev (Kept-refl (idx ∷ []) h) idx idx member) idx idx member,
      ))
link_lem h head idx (x ∷ xs) r out ne = rw r.0 (link-nodes h idx x xs (refl, r.1, r.2, r.3) out ne)

module _ (h : Headers) (idx : ℕ) (all : List ℕ) (non_null : has 0 all ≡ false)
    (before : has (prev_of h idx) all ≡ true) (after : has (next_of h idx) all ≡ true) where
  pub unlink-cut : unlink idx h ≡ ok (next_of h idx, cut h idx)
  unfolding unlink
  unlink-cut =
      let p : (prev_of h idx == 0) ≡ false = has_ne (prev_of h idx) 0 all before non_null in
      let n : (next_of h idx == 0) ≡ false = has_ne (next_of h idx) 0 all after non_null in
      let h1 = modify h (next_of h idx) (λ s. set_prev s (prev_of h idx)) in
      rw (p, n, same_next, n, same_prev, p)
    where
      same_next :
          next_of (modify h (next_of h idx) (λ s. set_prev s (prev_of h idx))) idx ≡ next_of h idx
      same_next = unfold modify set_prev in ground arith

      same_prev :
          prev_of (modify h (next_of h idx) (λ s. set_prev s (prev_of h idx))) idx ≡ prev_of h idx
      same_prev = unfold modify set_prev in ground arith

  pub Kept-cut : Kept all h (cut h idx)
  Kept-cut =
      Kept-set_next (Kept-set_prev (Kept-refl all h) (next_of h idx) (prev_of h idx) after)
        (prev_of h idx) (next_of h idx) before

  delete-cut :
      (head : ℕ)
      → (head == 0) ≡ false
      → (next_of h head == 0) ≡ false
      → (next_of h head == head) ≡ false
      → delete head idx h ≡ ok (if head == idx then next_of h idx else head, cut h idx)
  unfolding delete
  delete-cut head a b c = rw (a, b, c, unlink-cut)

-- The head of a ring of several pages.
pub cut_head :
    (h : Headers) (x y : ℕ) (ys : List ℕ)
    → IsPageList h x (x ∷ (y ∷ ys))
    → (has (prev_of h x) (x ∷ (y ∷ ys)) ≡ true)
      × (has (next_of h x) (x ∷ (y ∷ ys)) ≡ true)
      × IsPageList (cut h x) (next_of h x) (y ∷ ys)
cut_head h x y ys r = (
  Segment-prev (next_of h) (prev_of h) x (y ∷ ys) x x r.1 (ground arith),
  Segment-next (next_of h) (prev_of h) x (y ∷ ys) x x r.1 (ground arith),
  subst₂ (λ f g. IsRing f g (next_of h x) (y ∷ ys)) (sym (cut-next h x)) (sym (cut-prev h x))
      (IsRing-remove_head (next_of h) (prev_of h) x y ys r),
)

delete-head :
    (h : Headers) (x y : ℕ) (ys : List ℕ)
    → IsPageList h x (x ∷ (y ∷ ys))
    → Returns
        (λ (head', h'). IsPageList h' head' (y ∷ ys) × Kept (x ∷ (y ∷ ys)) h h')
        (delete x x h)
delete-head h x y ys r =
    let all : List ℕ = x ∷ (y ∷ ys) in
    let (before, after, ring) = cut_head h x y ys r in
    let moved : (next_of h x == x) ≡ false = ground (arith, r.1.0, r.2.0) in
    rw
      (
        delete-cut h x all r.3 before after x (ground (arith, r.3))
            (has_ne (next_of h x) 0 all after r.3) moved,
        eq→== x x refl,
      )
      (returns {a = (next_of h x, cut h x)} (ring, Kept-cut h x all r.3 before after))

delete-inner :
    (h : Headers) (x idx : ℕ) (xs ys : List ℕ)
    → IsPageList h x (x ∷ (xs ++ (idx ∷ ys)))
    → Returns
        (λ (head', h'). IsPageList h' head' (x ∷ (xs ++ ys)) × Kept (x ∷ (xs ++ (idx ∷ ys))) h h')
        (delete x idx h)
delete-inner h x idx xs ys r =
    let all : List ℕ = x ∷ (xs ++ (idx ∷ ys)) in
    let rest : List ℕ = xs ++ (idx ∷ ys) in
    let there : has idx rest ≡ true = rw (has-append idx xs (idx ∷ ys)) (ground arith) in
    let member : has idx all ≡ true = ground arith in
    let before = Segment-prev (next_of h) (prev_of h) x rest x idx r.1 member in
    let after = Segment-next (next_of h) (prev_of h) x rest x idx r.1 member in
    let (front, _) = Segment-split (next_of h) (prev_of h) x xs idx ys x r.1 in
    let head_after : has (next_of h x) rest ≡ true =
      rw (has-append (next_of h x) xs (idx ∷ ys))
        (ground (arith, Segment-next (next_of h) (prev_of h) x xs idx x front)) in
    let moved : (next_of h x == x) ≡ false =
      has_ne (next_of h x) x (xs ++ (idx ∷ ys)) head_after r.2.0 in
    let other : (x == idx) ≡ false = ne_has x idx rest r.2.0 there in
    rw
      (
        delete-cut h idx all r.3 before after x (ground (arith, r.3))
            (has_ne (next_of h x) 0 (xs ++ (idx ∷ ys)) head_after (ground (arith, r.3))) moved,
        other,
      )
      (returns {a = (x, cut h idx)} (
        subst₂ (λ f g. IsRing f g x (x ∷ (xs ++ ys))) (sym (cut-next h idx)) (sym (cut-prev h idx))
            (IsRing-remove (next_of h) (prev_of h) x idx xs ys r),
        Kept-cut h idx all r.3 before after,
      ))

-- A page of the list leaves it.
pub delete_lem :
    (h : Headers) (head idx : ℕ) (xs ys : List ℕ)
    → IsPageList h head (xs ++ (idx ∷ ys))
    → Returns
        (λ (head', h'). IsPageList h' head' (xs ++ ys) × Kept (xs ++ (idx ∷ ys)) h h')
        (delete head idx h)
delete_lem h head idx [] [] r =
    let x_ne : (idx == 0) ≡ false = ground (arith, r.3) in
    rw (r.0) (
      unfold delete in
      rw (x_ne, r.1.0, x_ne, eq→== idx idx refl)
        (returns {a = (0, h)} (refl, Kept-refl (idx ∷ []) h)))
delete_lem h head idx [] (y ∷ ys) r = rw r.0 (delete-head h idx y ys (refl, r.1, r.2, r.3))
delete_lem h head idx (x ∷ xs) ys r = rw r.0 (delete-inner h x idx xs ys (refl, r.1, r.2, r.3))

-- ===== src/SizeClass/Rounding.antt =====
-- What the callers of size_class/mod.rs rely on: the two lookups agree, class 0 means size 0,
-- rounding is idempotent, and a size above MAX_SIZE makes the rounding functions panic.
use uni_alloc.Base.{
  ℕ, zero, suc, ◌≤◌, ◌<◌, ◌≡◌, ◌≢◌, refl, sym, ◌∙◌, ap, Bool, true, false, ◌&&◌, none, some, arith,
  ltb, leb, ltb→lt, holds_below, test-holds_below, Bool-cases, inl, inr, ◌↔◌,
}
use uni_alloc.Base.Array.{get_elem?-none}
use uni_alloc.Base.Run.{ok, panic, Returns, returns, Returns-map, Returns-inv, expect}
use uni_alloc.SizeClass.{
  base, large, index, max_size, size_entry, get_sizeclass_tuple2, get_size_class,
  get_rounded_size_by_idx, get_rounded_size, get_size_class_tuple,
}
use uni_alloc.SizeClass.Tables.{size_array, size_classes}
use uni_alloc.SizeClass.Fit.{IsBestFit, FitsBest, get_sizeclass_tuple2-FitsBest}

rounded-entry : (i s : ℕ) → size_entry i ≡ some s → get_rounded_size_by_idx i ≡ ok s
unfolding size_entry get_rounded_size_by_idx
rounded-entry i s e = ap expect e

rounded-large : (sz : ℕ) → max_size < sz → get_rounded_size_by_idx sz ≡ panic
unfolding get_rounded_size_by_idx
rounded-large sz h = ap expect (get_elem?-none size_classes sz (omega arith))

-- What the lookup of a small size computes.
module _ (req : ℕ) (h : req ≤ max_size) where
  found : (i s : ℕ) × (get_sizeclass_tuple2 req ≡ ok (base i, s)) × IsBestFit req i s
  found =
      let ((cl, s), e, (i, f, best)) = Returns-inv (get_sizeclass_tuple2-FitsBest req h) in
      (i, s, e ∙ ap (λ c. ok (c, s)) f, best)

  -- For a small size `get_size_class_tuple` returns what `get_sizeclass_tuple2` returns.
  get_size_class_tuple-eq : get_size_class_tuple req ≡ get_sizeclass_tuple2 req
  unfolding get_size_class_tuple get_size_class index
  get_size_class_tuple-eq = let (i, s, e, best) = found in rw (e, rounded-entry i s best.entry)

  get_size_class-eq :
      (i s : ℕ) → get_sizeclass_tuple2 req ≡ ok (base i, s) → get_size_class req ≡ ok (base i)
  unfolding get_size_class
  get_size_class-eq i s e = rw e

  pub get_rounded_size-FitsBest :
      Returns
        (λ s. (i : ℕ) × (get_size_class req ≡ ok (base i)) × IsBestFit req i s)
        (get_rounded_size req)
  unfolding get_rounded_size index
  get_rounded_size-FitsBest =
      let (i, s, e, best) = found in
      rw (get_size_class-eq i s e, rounded-entry i s best.entry) (returns (i, refl, best))

zero_entry : size_entry 0 ≡ some 0
unfolding size_entry
zero_entry = refl

in_order : ℕ → ℕ → Bool
in_order i j = elim (size_entry i) [
  | none ↦ false
  | some s ↦ elim (size_entry j) [ none ↦ false | some t ↦ ltb t s && leb s max_size ]
]

sorted_table : holds_below (λ i. holds_below (in_order i) i) 64 ≡ true
unfolding holds_below size_entry in_order
sorted_table = refl

pub entry-lt : (i s : ℕ) → size_entry i ≡ some s → i < 64
unfolding size_entry
entry-lt i s e = elim (Bool-cases (ltb i 64)) [
  | inl below ↦ ground arith
  | inr above ↦ ground (arith, get_elem?-none size_array i (ground arith))
]

-- The chunk sizes grow with the class.
pub size_entry-lt :
    (i j s t : ℕ) → size_entry i ≡ some s → size_entry j ≡ some t → j < i → (t < s) × (s ≤ max_size)
unfolding in_order
size_entry-lt i j s t e f h =
    let row =
      test-holds_below (λ i. holds_below (in_order i) i) 64 i (entry-lt i s e) sorted_table in
    ground (arith, test-holds_below (in_order i) i j h row)

IsBestFit-unique : (req i j s t : ℕ) → IsBestFit req i s → IsBestFit req j t → i ≡ j
IsBestFit-unique req i j s t p q =
    omega (arith, p.least j t q.entry q.fits, q.least i s p.entry p.fits)

-- For every size up to MAX_SIZE, `get_size_class_tuple` returns what `get_sizeclass_tuple2`
-- returns, and `get_rounded_size` returns its chunk size: the smallest one that holds the size.
pub get_size_class_tuple-small :
    (req : ℕ)
    → req ≤ max_size
    → Returns
        (λ (cl, s).
          FitsBest req (cl, s)
          × (get_sizeclass_tuple2 req ≡ ok (cl, s))
          × (get_rounded_size req ≡ ok s))
        (get_size_class_tuple req)
unfolding get_rounded_size index
get_size_class_tuple-small req h =
    let (i, s, e, best) = found req h in
    rw (get_size_class_tuple-eq req h, e)
      (returns
        ((i, refl, best), refl, rw (get_size_class-eq req h i s e) (rounded-entry i s best.entry)))

-- For every size above MAX_SIZE, `get_sizeclass_tuple2` returns the size itself as a large class,
-- and `get_size_class_tuple` and `get_rounded_size` panic: they use the size as a table index.
pub get_size_class_tuple-large :
    (req : ℕ)
    → max_size < req
    → (get_sizeclass_tuple2 req ≡ ok (large req, req))
      × (get_size_class_tuple req ≡ panic)
      × (get_rounded_size req ≡ panic)
unfolding get_sizeclass_tuple2 get_size_class_tuple get_rounded_size get_size_class index
get_size_class_tuple-large req h =
    let not_small : leb req 1024 ≡ false = ground arith in
    let is_large : leb req max_size ≡ false = ground arith in
    (
      rw (not_small, is_large),
      rw (not_small, is_large, rounded-large req h),
      rw (not_small, is_large) (rounded-large req h),
    )

-- Among the sizes up to MAX_SIZE exactly size 0 gets class 0.
pub get_size_class-eq-zero :
    (req : ℕ) → req ≤ max_size → (get_size_class req ≡ ok (base 0)) ↔ (req ≡ 0)
get_size_class-eq-zero req h =
    let (i, s, e, best) = found req h in
    let cl = get_size_class-eq req h i s e in
    (
      λ z. zero_fits s best (cc (cl, z)),
      λ z.
          rw cl
            (ap (λ (k : ℕ). ok (base k)) (omega (arith, best.least 0 0 zero_entry (omega arith)))),
    )
  where
    zero_fits : {i : ℕ} (s : ℕ) → IsBestFit req i s → i ≡ 0 → req ≡ 0
    zero_fits s best z = ground (arith, best.entry, zero_entry, ap size_entry z)

entry-le-max_size : (i s : ℕ) → size_entry i ≡ some s → s ≤ max_size
entry-le-max_size zero s e = ground (arith, zero_entry)
entry-le-max_size (suc i) s e = (size_entry-lt (suc i) 0 s 0 e zero_entry (omega arith)).1

same_entry : {req i : ℕ} (j s t : ℕ) → IsBestFit req i s → IsBestFit s j t → s ≡ t
same_entry {i} j s t p q = elim (Bool-cases (ltb j i)) [
  | inl below ↦
      absurd (omega (arith, q.fits, size_entry-lt i j s t p.entry q.entry (ltb→lt j i below)))
  | inr above ↦
      let same : i ≡ j = ground (arith, q.least i s p.entry (omega arith)) in
      ground (arith, p.entry, q.entry, ap size_entry same)
]

fixed : {req : ℕ} (i s : ℕ) → IsBestFit req i s → get_rounded_size s ≡ ok s
fixed i s best =
    let (t, again, (j, cl, fit)) =
      Returns-inv (get_rounded_size-FitsBest s (entry-le-max_size i s best.entry)) in
    again ∙ ap (λ (k : ℕ). ok k) (sym (same_entry j s t best fit))

-- Rounding the result of rounding changes nothing.
pub get_rounded_size-fixed :
    (req : ℕ) → req ≤ max_size → Returns (λ s. get_rounded_size s ≡ ok s) (get_rounded_size req)
get_rounded_size-fixed req h =
    Returns-map (get_rounded_size-FitsBest req h) λ s (i, e, best). fixed i s best

-- A class that fits best is the one that `get_size_class` returns.
pub IsBestFit-get_size_class :
    (req : ℕ) → req ≤ max_size → (i s : ℕ) → IsBestFit req i s → get_size_class req ≡ ok (base i)
IsBestFit-get_size_class req h i s best =
    let (j, t, e, fit) = found req h in
    get_size_class-eq req h j t e
    ∙ ap (λ (k : ℕ). ok (base k)) (IsBestFit-unique req j i t s fit best)

-- A size that is not 0 gets a class with chunks.
pub get_size_class-inside :
    (req : ℕ)
    → 0 < req
    → req ≤ max_size
    → (i s : ℕ) × (get_size_class req ≡ ok (base i)) × (0 < i) × (i < 64) × IsBestFit req i s
get_size_class-inside req pos h =
    let (i, s, e, best) = found req h in
    let cl = get_size_class-eq req h i s e in
    let some_class : i ≢ 0 = λ z.
      absurd
        (omega (arith, (get_size_class-eq-zero req h).0 (cl ∙ ap (λ (k : ℕ). ok (base k)) z))) in
    (i, s, cl, ground (arith, some_class), entry-lt i s best.entry, best)

-- ===== src/SizeClass/Fit.antt =====
-- The class that `get_sizeclass_tuple2` finds is the best fit, and what its users get from it.
-- The tables are checked bucket by bucket; the sizes of a bucket share one entry of IDX_ARRAY.
use uni_alloc.Base.{
  ℕ, ◌+◌, ◌-◌, ◌*◌, ◌/◌, ◌^◌, ◌≤◌, ◌<◌, ◌≡◌, refl, Bool, true, false, ◌&&◌, Option, none, some,
  arith, ltb, leb, le→leb, holds_below, test-holds_below, Bool-cases, inl, inr,
}
use mathlib.Core.Path.{subst}
use uni_alloc.Base.Run.{Returns, returns}
use uni_alloc.Base.Words.{add64}
use uni_alloc.SizeClass.{
  SizeClass, base, max_size, idx_entry, size_entry, lookup_bucket, get_sizeclass_tuple2,
}

-- Class `i` has chunks of size `s`, which hold `req` bytes, and no earlier class holds as many.
pub record IsBestFit (req i s : ℕ) : Type 0 where
  pub entry : size_entry i ≡ some s
  pub fits : req ≤ s
  pub least : (j t : ℕ) → size_entry j ≡ some t → req ≤ t → i ≤ j

abbrev pub entry_below : ℕ → ℕ → Bool
entry_below bound j = elim (size_entry j) [ none ↦ false | some t ↦ ltb t bound ]

unfoldable pub best_for : (lo hi i : ℕ) → Bool
best_for lo hi i = elim (size_entry i) [
  | none ↦ false
  | some s ↦ leb hi s && holds_below (entry_below lo) i
]

bucket_check : (lo hi k : ℕ) → Bool
bucket_check lo hi k = elim (idx_entry k) [ none ↦ false | some i ↦ best_for lo hi i ]

small_buckets : holds_below (λ k. bucket_check (8 * k - 7) (8 * k) k) 129 ≡ true
unfolding holds_below bucket_check best_for idx_entry size_entry
small_buckets = refl

large_buckets :
    holds_below (λ n. bucket_check (128 * n + 1025) (128 * n + 1152) (n + 129)) 211 ≡ true
unfolding holds_below bucket_check best_for idx_entry size_entry
large_buckets = refl

large_bucket :
    (k : ℕ)
    → 129 ≤ k
    → k < 340
    → bucket_check (128 * (k - 129) + 1025) (128 * (k - 129) + 1152) k ≡ true
large_bucket k lo hi =
    subst (λ m. bucket_check (128 * (k - 129) + 1025) (128 * (k - 129) + 1152) m ≡ true)
      (sub-add-cancel k lo) (test-holds_below _ 211 (k - 129) (omega arith) large_buckets)
  where
    sub-add-cancel : (k : ℕ) → 129 ≤ k → k - 129 + 129 ≡ k
    sub-add-cancel k h = omega arith

module _ (lo hi req : ℕ) (above : lo ≤ req) (below : req ≤ hi) where
  pub best_for-IsBestFit :
      (i s : ℕ) → size_entry i ≡ some s → best_for lo hi i ≡ true → IsBestFit req i s
  unfolding best_for
  best_for-IsBestFit i s e h = record {
    entry = e;
    fits = ground arith;
    least = λ j t f g. elim (Bool-cases (ltb j i)) [
      | inl before ↦ absurd (ground (arith, test-holds_below (entry_below lo) i j (ground arith)))
      | inr after ↦ ground arith
    ];
  }

abbrev pub FitsBest : ℕ → SizeClass × ℕ → Type 0
FitsBest req (cl, s) = (i : ℕ) × (cl ≡ base i) × IsBestFit req i s

pub best_for-entry : (lo hi i : ℕ) → size_entry i ≡ none → best_for lo hi i ≡ true → ⊥
unfolding best_for
best_for-entry lo hi i e h = ground arith

pub best_for-found : (lo hi i : ℕ) → best_for lo hi i ≡ true → (s : ℕ) × (size_entry i ≡ some s)
unfolding best_for
best_for-found lo hi i h = ground arith

lookup_bucket-FitsBest :
    (lo hi k req : ℕ)
    → bucket_check lo hi k ≡ true
    → lo ≤ req
    → req ≤ hi
    → Returns (FitsBest req) (lookup_bucket k)
unfolding bucket_check
lookup_bucket-FitsBest lo hi k req h above below = go (idx_entry k) refl
  where
    found :
        (i : ℕ)
        → idx_entry k ≡ some i
        → (o : Option ℕ) → size_entry i ≡ o
        → Returns (FitsBest req) (lookup_bucket k)
    found i e none f = absurd (best_for-entry lo hi i f (ground arith))
    found i e (some s) f =
        rw (e, f) (returns (i, refl, best_for-IsBestFit lo hi req above below i s f (ground arith)))

    go : (o : Option ℕ) → idx_entry k ≡ o → Returns (FitsBest req) (lookup_bucket k)
    go none e = absurd (ground arith)
    go (some i) e = found i e (size_entry i) refl

-- Every size up to MAX_SIZE gets the smallest class whose chunks hold it, and that class's chunk
-- size: no index is out of bounds.
pub get_sizeclass_tuple2-FitsBest :
    (req : ℕ) → req ≤ max_size → Returns (FitsBest req) (get_sizeclass_tuple2 req)
unfolding get_sizeclass_tuple2
get_sizeclass_tuple2-FitsBest req h = elim (Bool-cases (leb req 1024)) [
  | inl small ↦
      let k = add64 req 7 / 2 ^ 3 in
      let le : req ≤ 1024 = ground arith in
      let ok_k = test-holds_below _ 129 k (omega arith) small_buckets in
      rw small (lookup_bucket-FitsBest (8 * k - 7) (8 * k) k req ok_k (omega arith) (omega arith))
  | inr big ↦
      let k = add64 req (127 + 120 * 2 ^ 7) / 2 ^ 7 in
      let gt : 1024 < req = ground arith in
      rw (big, le→leb req max_size h)
        (lookup_bucket-FitsBest (128 * (k - 129) + 1025) (128 * (k - 129) + 1152) k req
          (large_bucket k (omega arith) (omega arith)) (omega arith) (omega arith))
]

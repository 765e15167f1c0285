-- ===== src/SizeClass/Deprecated.antt =====
-- `get_size_class_index` of tc_size_class.rs, the deprecated match on the size.
use uni_alloc.Base.{
  ℕ, ◌+◌, ◌≤◌, ◌<◌, ◌≡◌, refl, Bool, true, ◌&&◌, List, [], ◌∷◌, arith, leb, Bool-cases, inl, inr,
  holds_below, ◌==◌,
}
use uni_alloc.Base.Run.{ok}
use uni_alloc.SizeClass.{
  base, max_size, match_range, get_size_class_index, get_size_class, size_entry,
}
use uni_alloc.SizeClass.Tables.{size_ranges}
use uni_alloc.SizeClass.Fit.{IsBestFit, best_for, best_for-IsBestFit, best_for-found}
use uni_alloc.SizeClass.Rounding.{IsBestFit-get_size_class}

-- The arms follow one another from `start` on, each names the class below the best fit of its
-- sizes, and the last one ends at MAX_SIZE.
arms_check : ℕ → List (ℕ × ℕ × ℕ) → Bool
arms_check start [] = start == max_size + 1
arms_check start ((first, last, cl) ∷ arms) =
    (leb first start && leb start last)
    && (best_for start last (cl + 1) && arms_check (last + 1) arms)

arms_table : arms_check 1 size_ranges ≡ true
unfolding arms_check best_for size_entry holds_below
arms_table = refl

match_range-IsBestFit :
    (arms : List (ℕ × ℕ × ℕ)) (start req : ℕ)
    → arms_check start arms ≡ true
    → start ≤ req
    → req ≤ max_size
    → (i s : ℕ) × (match_range arms req ≡ base i) × IsBestFit req (i + 1) s
unfolding arms_check match_range
match_range-IsBestFit [] start req h a b = absurd (ground arith)
match_range-IsBestFit ((first, last, cl) ∷ arms) start req h a b =
    elim (Bool-cases (leb req last)) [
      | inl here ↦
          let fit : best_for start last (cl + 1) ≡ true = ground arith in
          let (s, e) = best_for-found start last (cl + 1) fit in
          (cl, s, ground arith, best_for-IsBestFit start last req a (ground arith) (cl + 1) s e fit)
      | inr later ↦
          let (i, s, e, best) =
            match_range-IsBestFit arms (last + 1) req (ground arith) (ground arith) b in
          (i, s, ground arith, best)
    ]

-- For every size from 1 to MAX_SIZE the deprecated match names the class just below the one that
-- `get_size_class` returns.
pub get_size_class_index-below :
    (req : ℕ)
    → 0 < req
    → req ≤ max_size
    → (i : ℕ) × (get_size_class_index req ≡ base i) × (get_size_class req ≡ ok (base (i + 1)))
unfolding get_size_class_index
get_size_class_index-below req pos h =
    let (i, s, e, best) = match_range-IsBestFit size_ranges 1 req arms_table pos h in
    (i, e, IsBestFit-get_size_class req h (i + 1) s best)

-- ===== src/SizeClass/Search.antt =====
-- `binary_search_size` of tc_size_class.rs: the loop ends at the first entry that is not below the
-- target.
use uni_alloc.Base.{
  ℕ, zero, suc, ◌+◌, ◌-◌, ◌/◌, ◌≤◌, ◌<◌, ◌≡◌, refl, some, List, arith, ltb, length, Bool-cases, inl,
  inr, ◌==◌, if◌then◌else◌, ltb→lt, le→ltb,
}
use uni_alloc.Base.Array.{get_or, get_elem?-get_or}
use uni_alloc.Base.Run.{Returns, returns, Returns-bind}
use uni_alloc.Base.Words.{sub64}
use uni_alloc.SizeClass.{max_size, search_loop, binary_search_size}

abbrev pub IsSorted : List ℕ → Type 0
IsSorted arr = (i j : ℕ) → i ≤ j → j < length arr → get_or 0 arr i ≤ get_or 0 arr j

-- `l` splits the first 63 entries into those below the target and the others.
pub record Splits (arr : List ℕ) (target l : ℕ) : Type 0 where
  pub inside : l ≤ 63
  pub below : (j : ℕ) → j < l → get_or 0 arr j < target
  pub above : (j : ℕ) → l ≤ j → j < 63 → target ≤ get_or 0 arr j

module _ (arr : List ℕ) (target : ℕ) (size : length arr ≡ 64) (order : IsSorted arr) where
  search_loop-Splits :
      (fuel left end : ℕ)
      → end - left < fuel
      → left ≤ end
      → end ≤ 63
      → ((j : ℕ) → j < left → get_or 0 arr j < target)
      → ((j : ℕ) → end ≤ j → j < 63 → target ≤ get_or 0 arr j)
      → Returns (Splits arr target) (search_loop fuel arr target left end)
  unfolding search_loop
  search_loop-Splits zero left end f p q lo hi = absurd (omega arith)
  search_loop-Splits (suc fuel) left end f p q lo hi = elim (Bool-cases (ltb left end)) [
    | inr done ↦ rw done (
        returns
          (record { inside = omega arith; below = lo; above = λ j a b. hi j (ground arith) b }))
    | inl more ↦
        let mid = left + (end - 1 - left) / 2 in
        let lt = ltb→lt left end more in
        rw (more, get_elem?-get_or 0 arr mid (omega arith))
          (elim (Bool-cases (ltb (get_or 0 arr mid) target)) [
            | inl up ↦ rw up (
                search_loop-Splits fuel (mid + 1) end (omega arith) (omega arith) q
                  (λ j a. ground (arith, order j mid (omega arith) (omega arith))) hi)
            | inr down ↦ rw down (
                search_loop-Splits fuel left mid (omega arith) (omega arith) (omega arith) lo
                  (λ j a b. ground (arith, order mid j a (omega arith))))
          ])
  ]

  -- On a sorted table of 64 sizes and a target up to MAX_SIZE, the search returns an index. It is the
  -- first of the entries 0 to 62 that is not below the target (63 if there is none) if that entry
  -- equals the target, and otherwise the index before it.
  pub binary_search_size-Splits :
      target ≤ max_size
      → Returns
          (λ r.
            (l : ℕ) × Splits arr target l
            × (r ≡ some (if get_or 0 arr l == target then l else sub64 l 1)))
          (binary_search_size arr target)
  unfolding binary_search_size
  binary_search_size-Splits h = rw (le→ltb max_size target h) (
      Returns-bind
        (search_loop-Splits 64 0 63 (omega arith) (omega arith) (omega arith)
          (λ j a. absurd (omega arith)) (λ j a b. absurd (omega arith)))
        λ l s. rw (get_elem?-get_or 0 arr l (omega (arith, s.inside))) (returns (l, s, refl)))

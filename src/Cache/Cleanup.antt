-- ===== src/Cache/Cleanup.antt =====
-- What `clean_up` gives back to the zone: the chain of all chunks that the unit caches.
use mathlib.Core.Path.{subst, subst₂, fun_ext}
use uni_alloc.Base.{
  ℕ, suc, ◌+◌, ◌<◌, ◌≡◌, refl, sym, ◌∙◌, ap, List, [], ◌∷◌, ◌++◌, arith, length, ltb, length-append,
  inl, inr, Bool-cases,
}
use uni_alloc.Base.Run.{Returns, returns, Returns-bind}
use uni_alloc.Memory.{Memory}
use uni_alloc.Memory.Chain.{Chain, SameOutside, has-append}
use uni_alloc.Slab.World.{as_usize}
use uni_alloc.Zone.{ZoneCalls}
use uni_alloc.Cache.{ThreadCacheUnit, drain, clean_up, new}
use uni_alloc.Cache.Units.{length-bump_chunks, onto, IsStore, IsDrained, drain-IsDrained}
use uni_alloc.Cache.Reuse.{IsCached}

length-onto : (xs ys : List ℕ) → length (onto xs ys) ≡ length xs + length ys
unfolding onto
length-onto xs [] = omega arith
length-onto xs (y ∷ ys) = omega (arith, length-onto (y ∷ xs) ys)

empty : (xs : List ℕ) → length xs ≡ 0 → xs ≡ []
empty [] e = refl
empty (x ∷ xs) e = absurd (omega arith)

module _ {Z : Type 0} (c : ZoneCalls Z) (store : IsStore c) (P : Z → Type 0) (idx : ℕ)
    (xs ys : List ℕ) (z : Z) (idle : length (ys ++ xs) ≡ 0 → P z)
    (back : (m : Memory) (head : ℕ)
      → 0 < length (ys ++ xs)
      → Chain m head (onto xs ys) 0
      → SameOutside (ys ++ xs) (c.memory z) m
      → Returns P (c.deallocate_batch_to_slab idx head (c.with_memory m z))) where
  nothing_kept :
      length (ys ++ xs) ≡ 0 → (m : Memory) → SameOutside ys (c.memory z) m → P (c.with_memory m z)
  nothing_kept e m same =
      let no_ys : ys ≡ [] = empty ys (omega (arith, length-append ys xs)) in
      let words : c.memory z ≡ m = fun_ext λ a. sym (same a (rw no_ys refl)) in
      subst P (sym (store.keep z) ∙ ap (λ w. c.with_memory w z) words) (idle e)

  drained :
      (u : ThreadCacheUnit)
      → IsCached (c.memory z) u xs ys
      → Returns (IsDrained c store z (c.memory z) xs ys) (drain c (suc u.bump_count) u z)
  drained u cached =
      let here =
        drain-IsDrained c store z u.bump_count u.list u.bump_ptr u.bump_unit (c.memory z) xs
          cached.few cached.list (rw cached.range cached.distinct) (rw cached.range cached.non_null)
          (omega (
            arith,
            cached.small,
            length-bump_chunks u.bump_ptr (as_usize u.bump_unit) u.bump_count,
            ap length cached.range,
          )) in
      subst₂
        (λ w zs. Returns (IsDrained c store z (c.memory z) xs zs) (drain c (suc u.bump_count) u w))
        (store.keep z) cached.range here

  emptied :
      (u : ThreadCacheUnit)
      → IsCached (c.memory z) u xs ys
      → Returns (λ (u', z'). (u' ≡ new) × P z') (clean_up c u idx z)
  unfolding clean_up
  emptied u cached = Returns-bind (drained u cached) λ (u', z') dr.
      let all : u'.list.length ≡ length (ys ++ xs) =
        omega (arith, dr.holds.counted, length-onto xs ys, length-append ys xs) in
      elim (Bool-cases (ltb 0 u'.list.length)) [
        | inl some_chunk ↦
            rw (some_chunk, dr.zone_eq)
              (Returns-bind
                (back dr.memory u'.list.link (ground arith) dr.holds.chain
                  λ a h. dr.same a (ground (arith, has-append a ys xs)))
                λ w h. returns (refl, h))
        | inr none_left ↦
            rw (none_left, dr.zone_eq)
              (returns (refl, nothing_kept (ground arith) dr.memory dr.same))
      ]

-- On a store, cleaning up a unit empties it: if it caches no chunk, the zone stays as it is;
-- otherwise the zone gets the chain of all chunks of the range, the last one first, and then of the
-- free list, and what the zone then ensures holds at the end.
pub clean_up-IsEmptied :
    {Z : Type 0} (c : ZoneCalls Z)
    → IsStore c
    → (P : Z → Type 0) (idx : ℕ) (u : ThreadCacheUnit) (xs ys : List ℕ) (z : Z)
    → IsCached (c.memory z) u xs ys
    → (length (ys ++ xs) ≡ 0 → P z)
    → ((m : Memory) (head : ℕ)
        → 0 < length (ys ++ xs)
        → Chain m head (onto xs ys) 0
        → SameOutside (ys ++ xs) (c.memory z) m
        → Returns P (c.deallocate_batch_to_slab idx head (c.with_memory m z)))
    → Returns (λ (u', z'). (u' ≡ new) × P z') (clean_up c u idx z)
clean_up-IsEmptied c store P idx u xs ys z cached idle back =
    emptied c store P idx xs ys z idle back u cached

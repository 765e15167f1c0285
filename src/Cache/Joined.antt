-- ===== src/Cache/Joined.antt =====
-- The cache of a thread on the zone of zone.rs: a batch from a partial slab, from the free list of
-- the slab to the free list of the unit.
mod Examples
use mathlib.Core.Path.{subst, fun_ext}
use uni_alloc.Base.{
  ℕ, ◌<◌, ◌^◌, ◌≡◌, refl, sym, ◌∙◌, ap, true, false, List, [], ◌∷◌, arith, length, ltb, Option,
  some, get_elem?, Bool-cases, inl, inr,
}
use uni_alloc.Base.Array.{get_elem?-none}
use uni_alloc.Base.Run.{Returns, returns, Returns-bind}
use uni_alloc.Memory.{Memory}
use uni_alloc.Memory.Chain.{has, Chain, SameOutside, Apart}
use uni_alloc.Linklist.Laws.{first_aligned}
use uni_alloc.Page.Chunks.{IsFree}
use uni_alloc.Slab.Defs.{ScAllocator}
use uni_alloc.Slab.Lists.Links.{IsPageList}
use uni_alloc.Slab.World.{Platform, as_usize}
use uni_alloc.Slab.Batches.Moves.{allocate_batch_v2-partial}
use uni_alloc.Zone.{ZoneAllocator, calls, allocate_batch_from_slab}
use uni_alloc.Cache.{ThreadCacheUnit, unit_allocate}
use uni_alloc.Cache.Units.{calls-IsStore}
use uni_alloc.Cache.Reuse.{IsCached}
use uni_alloc.Cache.Refill.{IsAnswer, IsBatch, IsRefilled, unit_allocate-IsRefilled}

inside_list {ℓ} :
    {A : Type ℓ} (xs : List A) (i : ℕ) (x : A) → get_elem? xs i ≡ some x → ltb i (length xs) ≡ true
inside_list xs i x e = elim (Bool-cases (ltb i (length xs))) [
  | inl inside ↦ inside
  | inr outside ↦ absurd (ground (arith, get_elem?-none xs i (ground arith)))
]

module _ {Os Backend : Type 0} (c : Platform Os Backend) (fuel idx : ℕ)
    (z : ZoneAllocator Os Backend) (slab : ScAllocator) (ps fs : List ℕ) (bytes p : ℕ) (bs : List ℕ)
    (here : get_elem? z.slabs idx ≡ some slab)
    (partial : IsPageList z.world.headers slab.partial_start (slab.partial_start ∷ ps))
    (full : IsPageList z.world.headers slab.full_start fs)
    (apart : Apart fs (slab.partial_start ∷ ps)) (few : as_usize slab.pg_count < 2 ^ 64)
    (free : IsFree z.world.memory bytes
      (as_usize slab.pg_count)
      (z.world.headers slab.partial_start)
      (p ∷ bs))
    (out : 0 < (z.world.headers slab.partial_start).counter) where
  zone-IsAnswer :
      (m : Memory)
      → SameOutside [] z.world.memory m
      → Returns
          (IsAnswer (calls c fuel) m 1 [] bs p)
          (allocate_batch_from_slab c idx 1 (record z { world = record z.world { memory = m } }))
  unfolding allocate_batch_from_slab calls
  zone-IsAnswer m same =
      let words : z.world.memory ≡ m = fun_ext λ a. sym (same a refl) in
      subst
        (λ n.
          Returns (IsAnswer (calls c fuel) n 1 [] bs p)
            (allocate_batch_from_slab c idx 1 (record z { world = record z.world { memory = n } })))
        words
        (rw (inside_list z.slabs idx slab here, here)
          (Returns-bind
            (allocate_batch_v2-partial c slab z.world ps fs bytes (p ∷ bs) partial full apart few
              free out)
            λ (ans, s', w') (e, chain, p_list, f_list, none_free). returns (record {
              first = ap (λ (b : ℕ × ℕ × Option ℕ). b.0) e ∙ chain.0;
              batch =
                  subst (λ b. IsBatch w'.memory 1 b bs) (sym e)
                    (
                      subst (λ q. Chain w'.memory q bs 0) (ap w'.memory (sym chain.0)) chain.1,
                      refl,
                      refl,
                    );
              words = λ a h. absurd (ground arith);
            })))

  -- If a unit caches nothing and its class has a partial slab with free chunks, none of them null, in
  -- page lists that are rings apart from each other, allocate without an alignment hands out the first
  -- of these chunks, and the unit then caches exactly the others.
  pub unit_allocate-partial :
      (u : ThreadCacheUnit)
      → has 0 (p ∷ bs) ≡ false
      → IsCached z.world.memory u [] []
      → Returns (IsRefilled (calls c fuel) p bs [] []) (unit_allocate (calls c fuel) u idx 1 z)
  unit_allocate-partial u nn cached =
      unfold calls in
      unit_allocate-IsRefilled (calls c fuel) (calls-IsStore c fuel) idx 1 u [] [] z p bs cached
        first_of_none (omega (arith, free.counted, few)) free.distinct nn (λ a h. refl)
        zone-IsAnswer
    where
      first_of_none : first_aligned 1 [] ≡ 0
      first_of_none = unfold first_aligned in refl

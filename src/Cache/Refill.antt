-- ===== src/Cache/Refill.antt =====
-- What `allocate` does with a unit that has no chunk with the alignment: it asks the zone for a
-- batch, hands out its first chunk, and keeps the rest.
use mathlib.Core.Path.{subst, subst₂}
use uni_alloc.Base.{
  ℕ, zero, suc, ◌+◌, ◌%◌, ◌-◌, ◌<◌, ◌^◌, ◌≡◌, refl, ◌∙◌, ap, true, false, ◌||◌, List, [], ◌∷◌, ◌++◌,
  arith, ◌==◌, length, Option, none, some, Bool-cases, inl, inr, eq→==, length-append,
}
use uni_alloc.Base.Words.{add64, sub64}
use uni_alloc.Base.Run.{Returns, returns, Returns-bind}
use uni_alloc.Memory.{Memory, is_aligned, is_aligned-one}
use uni_alloc.Memory.Chain.{
  has, Chain, Chain-frame, IsDistinct, IsDistinct-append, SameOutside, Apart, has-append,
}
use uni_alloc.Linklist.{Linklist}
use uni_alloc.Linklist.Laws.{IsList, first_aligned}
use uni_alloc.Slab.World.{as_usize}
use uni_alloc.Zone.{ZoneCalls}
use uni_alloc.Cache.{ThreadCacheUnit, refill, keep_rest, unit_allocate}
use uni_alloc.Cache.Units.{unit, bump_chunks, skim_rest, skim_list, IsStore, IsSkimmed}
use uni_alloc.Cache.Reuse.{
  IsCached, IsWithout, reuse-IsReused, skim-range, skim-IsWithout, first_aligned-append,
}

-- A batch of the chunk `ptr` and the chunks `bs`: a range that is still to be cut, or a chain of free
-- chunks, which the zone gives only if no alignment is asked for.
abbrev pub IsBatch : Memory → ℕ → ℕ × ℕ × Option ℕ → List ℕ → Type 0
IsBatch m align (ptr, count, some bump) bs =
    (bump_chunks ptr bump count ≡ ptr ∷ bs) × (count < 2 ^ 31) × (bump < 2 ^ 31)
IsBatch m align (ptr, count, none) bs =
    Chain m (m ptr) bs 0 × (count ≡ suc (length bs)) × (align ≡ 1)

-- The zone's answer when `kept` are the chunks of the unit: new chunks, and the words of the unit's
-- chunks are as they were.
pub record IsAnswer {Z : Type 0} (c : ZoneCalls Z) (m : Memory) (align : ℕ) (kept bs : List ℕ)
    (ptr : ℕ) (r : (ℕ × ℕ × Option ℕ) × Z) : Type 0 where
  pub first : r.0.0 ≡ ptr
  pub batch : IsBatch (c.memory r.1) align r.0 bs
  pub words : (a : ℕ) → has a kept ≡ true → c.memory r.1 a ≡ m a

-- After `allocate` the unit caches the chunks of the batch but the first, and the chunks it had.
pub record IsRefilled {Z : Type 0} (c : ZoneCalls Z) (ptr : ℕ) (bs xs ys : List ℕ)
    (r : ℕ × ThreadCacheUnit × Z) : Type 0 where
  pub xs' : List ℕ
  pub ys' : List ℕ
  pub handed : r.0 ≡ ptr
  pub cached : IsCached (c.memory r.2) r.1 xs' ys'
  pub rest : (a : ℕ) → has a (ys' ++ xs') ≡ (has a bs || has a (ys ++ xs))

tail : List ℕ → List ℕ
tail [] = []
tail (x ∷ xs) = xs

tail_of : {x y : ℕ} {xs ys : List ℕ} → (x ∷ xs) ≡ (y ∷ ys) → xs ≡ ys
unfolding tail
tail_of e = ap tail e

[]-ne_∷ : {y : ℕ} {ys : List ℕ} → [] ≡ (y ∷ ys) → ⊥
[]-ne_∷ e = absurd (omega (arith, ap length e))

-- The range behind its first chunk.
bump_rest :
    (ptr bump count : ℕ) (bs : List ℕ)
    → bump_chunks ptr bump count ≡ ptr ∷ bs
    → (0 < count) × (bump_chunks (add64 ptr bump) bump (count - 1) ≡ bs)
unfolding bump_chunks
bump_rest ptr bump zero bs e = absurd ([]-ne_∷ e)
bump_rest ptr bump (suc count) bs e =
    (omega arith, subst (λ k. bump_chunks (add64 ptr bump) bump k ≡ bs) (omega arith) (tail_of e))

IsList-frame :
    (m n : Memory) (l : Linklist) (zs : List ℕ)
    → ((a : ℕ) → has a zs ≡ true → n a ≡ m a)
    → IsList m l zs
    → IsList n l zs
IsList-frame m n l zs same is = record {
  chain = Chain-frame m n l.link zs 0 same is.chain;
  distinct = is.distinct;
  non_null = is.non_null;
  counted = is.counted;
}

as_usize-small : (x : ℕ) → x < 2 ^ 31 → as_usize (x % 2 ^ 32) ≡ x
unfolding as_usize
as_usize-small x h = ground arith

-- With alignment 1 the first chunk of a list will do, so none does only in an empty list.
first_aligned-one : (xs : List ℕ) → has 0 xs ≡ false → first_aligned 1 xs ≡ 0 → xs ≡ []
unfolding first_aligned
first_aligned-one [] nn e = refl
first_aligned-one (x ∷ xs) nn e = absurd (ground (arith, rw (is_aligned-one x) at e))

module _ (align : ℕ) where
  skim_rest-none :
      (ys : List ℕ) → has 0 ys ≡ false → first_aligned align ys ≡ 0 → skim_rest align ys ≡ []
  unfolding first_aligned skim_rest
  skim_rest-none [] nn e = refl
  skim_rest-none (y ∷ ys) nn e = elim (Bool-cases (is_aligned align y)) [
    | inl hit ↦ absurd (ground arith)
    | inr miss ↦ rw miss (skim_rest-none ys (ground arith) (ground arith))
  ]

module _ {Z : Type 0} (c : ZoneCalls Z) (align ptr : ℕ) (bs xs ys : List ℕ) where
  -- What the unit has when it asks the zone: all its chunks on the free list.
  record IsSpent (l : Linklist) (p n s : ℕ) (m : Memory) (zs : List ℕ) : Type 0 where
    range : bump_chunks p (as_usize s) n ≡ []
    few : n < 2 ^ 31
    list : IsList m l zs
    small : length zs + length bs < 2 ^ 64
    same : (a : ℕ) → has a zs ≡ has a (ys ++ xs)
    nothing : align ≡ 1 → zs ≡ []

  keep_rest-IsRefilled :
      (l : Linklist) (p n s : ℕ) (m : Memory) (zs : List ℕ) (batch : ℕ × ℕ × Option ℕ) (z : Z)
      → IsSpent l p n s m zs
      → IsDistinct (ptr ∷ bs)
      → has 0 (ptr ∷ bs) ≡ false
      → Apart bs (ys ++ xs)
      → IsAnswer c m align zs bs ptr (batch, z)
      → Returns (IsRefilled c ptr bs xs ys) (keep_rest c batch (unit l p n s) z)
  unfolding keep_rest
  keep_rest-IsRefilled l p n s m zs (first, count, some bump) z sp d nn apart an =
      let new_ptr : (first == 0) ≡ false = ground (arith, an.first) in
      let (whole, few, step) = an.batch in
      let (pos, behind) = bump_rest first bump count bs whole in
      let minus_one : sub64 count 1 % 2 ^ 32 ≡ count - 1 = omega arith in
      rw new_ptr (
        returns (record {
          xs' = zs;
          ys' = bs;
          handed = an.first;
          cached = record {
            list = IsList-frame m (c.memory z) l zs an.words sp.list;
            range = rw (as_usize-small bump step, minus_one) behind;
            few = omega arith;
            distinct = IsDistinct-append bs zs d.1 sp.list.distinct λ a h. sp.same a ∙ apart a h;
            non_null = ground arith;
            small = sp.small;
          };
          rest = λ a. rw (has-append a bs zs, sp.same a) refl;
        }))
  keep_rest-IsRefilled l p n s m zs (first, count, none) z sp d nn apart an =
      let new_ptr : (first == 0) ≡ false = ground (arith, an.first) in
      let (chain, counted, any) = an.batch in
      let none_left : l.length ≡ 0 = sp.list.counted ∙ ap length (sp.nothing any) in
      rw (eq→== l.length 0 none_left, new_ptr)
        (returns (record {
          xs' = bs;
          ys' = [];
          handed = an.first;
          cached = record {
            list = record {
              chain = chain;
              distinct = d.1;
              non_null = ground arith;
              counted = omega arith;
            };
            range = sp.range;
            few = sp.few;
            distinct = d.1;
            non_null = refl;
            small = omega (arith, sp.small);
          };
          rest = λ a. ground (arith, sp.same a, ap (has a) (sp.nothing any));
        }))

  module _ (store : IsStore c) (z : Z) (l : Linklist) (p n s : ℕ)
      (cached : IsCached (c.memory z) (unit l p n s) xs ys) (none_list : first_aligned align xs ≡ 0)
      (none_range : first_aligned align ys ≡ 0)
      (few_all : length bs + length xs + length ys < 2 ^ 64) where
    gone : skim_rest align ys ≡ []
    gone = skim_rest-none align ys cached.non_null none_range

    all_kept : IsWithout 0 (skim_list align xs ys) (ys ++ xs)
    all_kept =
        subst₂ (λ q rest. IsWithout q (rest ++ skim_list align xs ys) (ys ++ xs)) none_range gone
          (skim-IsWithout align ys xs cached.distinct cached.non_null cached.list.non_null)

    IsSpent-skimmed :
        (m : Memory) (r : ℕ × ThreadCacheUnit × Z) (sk : IsSkimmed c store z align m xs ys s r)
        → IsSpent sk.list sk.bump_ptr sk.bump_count s sk.memory (skim_list align xs ys)
    IsSpent-skimmed m r sk = record {
      range = sk.range ∙ gone;
      few = sk.small;
      list = sk.holds;
      small = omega (arith, all_kept.fewer, length-append ys xs, few_all);
      same = λ a. ground (arith, all_kept.same a);
      nothing = λ e.
          let no_xs =
            first_aligned-one xs cached.list.non_null
              (subst (λ b. first_aligned b xs ≡ 0) e none_list) in
          let no_ys =
            first_aligned-one ys cached.non_null
              (subst (λ b. first_aligned b ys ≡ 0) e none_range) in
          unfold skim_list in rw (no_xs, no_ys) refl;
    }

    batch_served :
        (idx : ℕ)
        → IsDistinct (ptr ∷ bs)
        → has 0 (ptr ∷ bs) ≡ false
        → Apart bs (ys ++ xs)
        → ((m : Memory)
            → SameOutside (ys ++ xs) (c.memory z) m
            → Returns
                (IsAnswer c m align (ys ++ xs) bs ptr)
                (c.allocate_batch_from_slab idx align (c.with_memory m z)))
        → Returns (IsRefilled c ptr bs xs ys) (unit_allocate c (unit l p n s) idx align z)
    unfolding unit_allocate refill
    batch_served idx d nn apart answers =
        Returns-bind
          (reuse-IsReused c store align l p n s xs z cached.list (omega (arith, cached.small)))
          λ (reused, u1, z1) r.
            rw (r.unit_eq, r.zone_eq, eq→== reused 0 (r.found ∙ none_list))
              (Returns-bind
                (skim-range c store align l p n s xs ys z cached (reused, u1, z1) r none_list)
                λ (ans, u2, z2) sk.
                  let words : SameOutside (ys ++ xs) (c.memory z) sk.memory = λ a h.
                    sk.same a (ground (arith, has-append a ys xs))
                    ∙ r.same a (ground (arith, has-append a ys xs)) in
                  rw (sk.unit_eq, sk.zone_eq, eq→== ans 0 (sk.found ∙ none_range))
                    (Returns-bind (answers sk.memory words) λ (batch, z3) an.
                      keep_rest-IsRefilled sk.list sk.bump_ptr sk.bump_count s sk.memory
                        (skim_list align xs ys) batch z3 (IsSpent-skimmed r.memory (ans, u2, z2) sk)
                        d nn apart
                        record {
                          first = an.first;
                          batch = an.batch;
                          words = λ a h. an.words a (ground (arith, all_kept.same a));
                        }))

-- On a store, if a unit caches no chunk with the alignment and, whatever the words of its chunks, the
-- zone answers with a batch of new chunks, a chain of chunks only for alignment 1, allocate hands out
-- the first chunk of the batch; the unit then caches the other chunks of the batch and all it had.
pub unit_allocate-IsRefilled :
    {Z : Type 0} (c : ZoneCalls Z)
    → IsStore c
    → (idx align : ℕ) (u : ThreadCacheUnit) (xs ys : List ℕ) (z : Z) (ptr : ℕ) (bs : List ℕ)
    → IsCached (c.memory z) u xs ys
    → first_aligned align (xs ++ ys) ≡ 0
    → length bs + length xs + length ys < 2 ^ 64
    → IsDistinct (ptr ∷ bs)
    → has 0 (ptr ∷ bs) ≡ false
    → Apart bs (ys ++ xs)
    → ((m : Memory)
        → SameOutside (ys ++ xs) (c.memory z) m
        → Returns
            (IsAnswer c m align (ys ++ xs) bs ptr)
            (c.allocate_batch_from_slab idx align (c.with_memory m z)))
    → Returns (IsRefilled c ptr bs xs ys) (unit_allocate c u idx align z)
unit_allocate-IsRefilled c store idx align u xs ys z ptr bs cached no_hit few d nn apart answers =
    let split = first_aligned-append align xs ys cached.list.non_null in
    let none_list : first_aligned align xs ≡ 0 = ground (arith, split) in
    batch_served c align ptr bs xs ys store z u.list u.bump_ptr u.bump_count u.bump_unit cached
      none_list (ground (arith, split)) few idx d nn apart answers

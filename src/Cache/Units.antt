-- ===== src/Cache/Units.antt =====
-- The loops of a cache unit over its range: `skim` looks for a chunk with an alignment, and `drain`
-- moves the whole range to the free list.
use uni_alloc.Base.{
  ℕ, zero, suc, ◌+◌, ◌<◌, ◌^◌, ◌≡◌, ◌≢◌, refl, ◌∙◌, ap, true, false, List, [], ◌∷◌, ◌++◌, arith,
  if◌then◌else◌, length, Bool-cases, inl, inr, ne→==,
}
use uni_alloc.Base.Run.{Returns, returns, Returns-bind, Returns-map, Returns-nested, ok}
use uni_alloc.Base.Words.{add64}
use uni_alloc.Memory.{Memory, is_aligned}
use uni_alloc.Memory.Chain.{
  has, IsDistinct, SameOutside, has-append, IsDistinct-append, IsDistinct-parts, has_ne,
}
use uni_alloc.Linklist.{Linklist}
use uni_alloc.Linklist.Laws.{IsList, push_unchecked-IsList, first_aligned}
use uni_alloc.Slab.World.{as_usize}
use uni_alloc.Zone.{ZoneCalls, calls}
use uni_alloc.Slab.World.{Platform}
use uni_alloc.Cache.{ThreadCacheUnit, is_positive, advance, free, drain, skim}

abbrev pub unit : Linklist → ℕ → ℕ → ℕ → ThreadCacheUnit
unit l p n s = record { list = l; bump_ptr = p; bump_count = n; bump_unit = s }

-- The chunks of a range: `n` of them, `step` bytes apart.
unfoldable pub bump_chunks : ℕ → ℕ → ℕ → List ℕ
bump_chunks p step zero = []
bump_chunks p step (suc n) = p ∷ bump_chunks (add64 p step) step n

pub length-bump_chunks : (p step n : ℕ) → length (bump_chunks p step n) ≡ n
unfolding bump_chunks
length-bump_chunks p step zero = refl
length-bump_chunks p step (suc n) = ap suc (length-bump_chunks (add64 p step) step n)

-- What is left of the range behind its first chunk with the alignment, and the free list with the
-- chunks before it.
unfoldable pub skim_rest : ℕ → List ℕ → List ℕ
skim_rest align [] = []
skim_rest align (y ∷ ys) = if is_aligned align y then ys else skim_rest align ys

unfoldable pub skim_list : ℕ → List ℕ → List ℕ → List ℕ
skim_list align xs [] = xs
skim_list align xs (y ∷ ys) = if is_aligned align y then xs else skim_list align (y ∷ xs) ys

-- A list with another one reversed in front of it.
unfoldable pub onto : List ℕ → List ℕ → List ℕ
onto xs [] = xs
onto xs (y ∷ ys) = onto (y ∷ xs) ys

-- The words of the chunks are a part of the zone that can be read and replaced.
pub record IsStore {Z : Type 0} (c : ZoneCalls Z) : Type 0 where
  pub read : (m : Memory) (z : Z) → c.memory (c.with_memory m z) ≡ m
  pub keep : (z : Z) → c.with_memory (c.memory z) z ≡ z
  pub replace : (m m' : Memory) (z : Z) → c.with_memory m' (c.with_memory m z) ≡ c.with_memory m' z

is_positive-suc : (n : ℕ) → suc n < 2 ^ 31 → is_positive (suc n) ≡ true
unfolding is_positive
is_positive-suc n h = ground arith

advance-unit :
    (l : Linklist) (p n s : ℕ)
    → suc n < 2 ^ 31
    → advance (unit l p (suc n) s) ≡ unit l (add64 p (as_usize s)) n s
unfolding advance
advance-unit l p n s h = ap (λ k. unit l (add64 p (as_usize s)) k s) (omega arith)

pub IsDistinct-move :
    (p : ℕ) (ys xs : List ℕ)
    → has p (ys ++ xs) ≡ false
    → IsDistinct (ys ++ xs)
    → IsDistinct (ys ++ (p ∷ xs))
IsDistinct-move p ys xs out d =
    let outs = rw (has-append p ys xs) at out in
    let (front, back, apart) = IsDistinct-parts ys xs d in
    IsDistinct-append ys (p ∷ xs) front (ground arith, back)
      λ a h. ground (arith, has_ne a p ys h, apart a h)

module _ {Z : Type 0} (c : ZoneCalls Z) (store : IsStore c) (z : Z) where
  pub record IsFreed (m : Memory) (xs : List ℕ) (ptr p n s : ℕ) (r : ThreadCacheUnit × Z)
      : Type 0 where
    pub list : Linklist
    pub memory : Memory
    pub unit_eq : r.0 ≡ unit list p n s
    pub zone_eq : r.1 ≡ c.with_memory memory z
    pub holds : IsList memory list (ptr ∷ xs)
    pub same : SameOutside (ptr ∷ []) m memory

  free-IsFreed :
      (m : Memory) (l : Linklist) (xs : List ℕ) (ptr p n s : ℕ)
      → IsList m l xs
      → ptr ≢ 0
      → has ptr xs ≡ false
      → length xs + 1 < 2 ^ 64
      → Returns (IsFreed m xs ptr p n s) (free c (unit l p n s) ptr (c.with_memory m z))
  unfolding free
  free-IsFreed m l xs ptr p n s is ne out small = rw (store.read m z) (
      Returns-bind (push_unchecked-IsList m l xs ptr is ne out small) λ (l', m') (is', same).
        returns (record {
          list = l';
          memory = m';
          unit_eq = refl;
          zone_eq = store.replace m m' z;
          holds = is';
          same = same;
        }))

  -- What the search of the range `ys` ends with, from the free list `xs`.
  pub record IsSkimmed (align : ℕ) (m : Memory) (xs ys : List ℕ) (s : ℕ)
      (r : ℕ × ThreadCacheUnit × Z) : Type 0 where
    pub list : Linklist
    pub bump_ptr : ℕ
    pub bump_count : ℕ
    pub memory : Memory
    pub found : r.0 ≡ first_aligned align ys
    pub unit_eq : r.1 ≡ unit list bump_ptr bump_count s
    pub zone_eq : r.2 ≡ c.with_memory memory z
    pub holds : IsList memory list (skim_list align xs ys)
    pub range : bump_chunks bump_ptr (as_usize s) bump_count ≡ skim_rest align ys
    pub small : bump_count < 2 ^ 31
    pub same : SameOutside ys m memory

  skim_stop :
      (fuel align ans : ℕ) (u : ThreadCacheUnit) (w : Z)
      → ans ≢ 0
      → skim c (suc fuel) align ans u w ≡ ok (ans, u, w)
  unfolding skim
  skim_stop fuel align ans u w ne = ground (arith, ne→== ans 0 ne)

  IsSkimmed-miss :
      (align : ℕ) (m m' : Memory) (p : ℕ) (xs ys : List ℕ) (s : ℕ) (r : ℕ × ThreadCacheUnit × Z)
      → is_aligned align p ≡ false
      → SameOutside (p ∷ []) m m'
      → IsSkimmed align m' (p ∷ xs) ys s r
      → IsSkimmed align m xs (p ∷ ys) s r
  unfolding first_aligned skim_list skim_rest
  IsSkimmed-miss align m m' p xs ys s r miss same sk = record {
    list = sk.list;
    bump_ptr = sk.bump_ptr;
    bump_count = sk.bump_count;
    memory = sk.memory;
    found = rw miss sk.found;
    unit_eq = sk.unit_eq;
    zone_eq = sk.zone_eq;
    holds = rw miss sk.holds;
    range = rw miss sk.range;
    small = sk.small;
    same = λ a h. sk.same a (ground arith) ∙ same a (ground arith);
  }

  pub skim-IsSkimmed :
      (align n : ℕ) (l : Linklist) (p s : ℕ) (m : Memory) (xs : List ℕ)
      → n < 2 ^ 31
      → IsList m l xs
      → IsDistinct (bump_chunks p (as_usize s) n ++ xs)
      → has 0 (bump_chunks p (as_usize s) n) ≡ false
      → length xs + n < 2 ^ 64
      → Returns
          (IsSkimmed align m xs (bump_chunks p (as_usize s) n) s)
          (skim c (suc n) align 0 (unit l p n s) (c.with_memory m z))
  unfolding skim bump_chunks skim_list skim_rest first_aligned
  skim-IsSkimmed align zero l p s m xs few is d nn small =
      unfold is_positive in
      returns (record {
        list = l;
        bump_ptr = p;
        bump_count = 0;
        memory = m;
        found = refl;
        unit_eq = refl;
        zone_eq = refl;
        holds = is;
        range = refl;
        small = few;
        same = λ a h. refl;
      })
  skim-IsSkimmed align (suc n) l p s m xs few is d nn small =
      let next = add64 p (as_usize s) in
      let ys = bump_chunks next (as_usize s) n in
      let some_chunk : p ≢ 0 = λ e. ground (arith, e) in
      let out : has p (ys ++ xs) ≡ false = d.0 in
      let apart = rw (has-append p ys xs) at out in
      rw (is_positive-suc n few) (elim (Bool-cases (is_aligned align p)) [
        | inl hit ↦
            rw
              (
                hit,
                advance-unit l p n s few,
                skim_stop n align p (unit l next n s) (c.with_memory m z) some_chunk,
              )
              (returns {a = (p, unit l next n s, c.with_memory m z)} (record {
                list = l;
                bump_ptr = next;
                bump_count = n;
                memory = m;
                found = rw hit;
                unit_eq = refl;
                zone_eq = refl;
                holds = rw hit is;
                range = rw hit;
                small = omega arith;
                same = λ a h. refl;
              }))
        | inr miss ↦ rw miss (
            Returns-nested (free c (unit l p (suc n) s) p (c.with_memory m z)) _ _ (
              Returns-bind
                (free-IsFreed m l xs p p (suc n) s is some_chunk (ground arith) (omega arith))
                λ (u', z') freed.
                  rw (freed.unit_eq, freed.zone_eq, advance-unit freed.list p n s few)
                    (Returns-map
                      (skim-IsSkimmed align n freed.list next s freed.memory (p ∷ xs) (omega arith)
                        freed.holds (IsDistinct-move p ys xs out d.1) (ground arith) (omega arith))
                      λ r sk. IsSkimmed-miss align m freed.memory p xs ys s r miss freed.same sk)))
      ])

  -- What `drain` ends with: the whole range is on the free list.
  pub record IsDrained (m : Memory) (xs ys : List ℕ) (r : ThreadCacheUnit × Z) : Type 0 where
    pub memory : Memory
    pub zone_eq : r.1 ≡ c.with_memory memory z
    pub holds : IsList memory r.0.list (onto xs ys)
    pub same : SameOutside ys m memory

  IsDrained-cons :
      (m m' : Memory) (p : ℕ) (xs ys : List ℕ) (r : ThreadCacheUnit × Z)
      → SameOutside (p ∷ []) m m'
      → IsDrained m' (p ∷ xs) ys r
      → IsDrained m xs (p ∷ ys) r
  unfolding onto
  IsDrained-cons m m' p xs ys r same dr = record {
    memory = dr.memory;
    zone_eq = dr.zone_eq;
    holds = dr.holds;
    same = λ a h. dr.same a (ground arith) ∙ same a (ground arith);
  }

  pub drain-IsDrained :
      (n : ℕ) (l : Linklist) (p s : ℕ) (m : Memory) (xs : List ℕ)
      → n < 2 ^ 31
      → IsList m l xs
      → IsDistinct (bump_chunks p (as_usize s) n ++ xs)
      → has 0 (bump_chunks p (as_usize s) n) ≡ false
      → length xs + n < 2 ^ 64
      → Returns
          (IsDrained m xs (bump_chunks p (as_usize s) n))
          (drain c (suc n) (unit l p n s) (c.with_memory m z))
  unfolding drain bump_chunks onto
  drain-IsDrained zero l p s m xs few is d nn small =
      unfold is_positive in
      returns (record { memory = m; zone_eq = refl; holds = is; same = λ a h. refl })
  drain-IsDrained (suc n) l p s m xs few is d nn small =
      let next = add64 p (as_usize s) in
      let ys = bump_chunks next (as_usize s) n in
      let out : has p (ys ++ xs) ≡ false = d.0 in
      let apart = rw (has-append p ys xs) at out in
      rw (is_positive-suc n few) (
        Returns-bind
          (free-IsFreed m l xs p p (suc n) s is (λ e. ground (arith, e)) (ground arith)
            (omega arith))
          λ (u', z') freed.
            rw (freed.unit_eq, freed.zone_eq, advance-unit freed.list p n s few)
              (Returns-map
                (drain-IsDrained n freed.list next s freed.memory (p ∷ xs) (omega arith) freed.holds
                  (IsDistinct-move p ys xs out d.1) (ground arith) (omega arith))
                λ r dr. IsDrained-cons m freed.memory p xs ys r freed.same dr))

-- The zone of zone.rs keeps the words in the state of its world.
pub calls-IsStore :
    {Os Backend : Type 0} (c : Platform Os Backend) (fuel : ℕ) → IsStore (calls c fuel)
unfolding calls
calls-IsStore c fuel = record { read = λ m z. refl; keep = λ z. refl; replace = λ m m' z. refl }

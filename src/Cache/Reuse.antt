-- ===== src/Cache/Reuse.antt =====
-- A unit stands for the chunks of its free list and of its range: what `allocate` does with a unit
-- that has a chunk with the alignment.
use mathlib.Core.Path.{subst}
use uni_alloc.Base.{
  ℕ, suc, ◌+◌, ◌<◌, ◌≤◌, ◌^◌, ◌≡◌, ◌≢◌, refl, sym, ◌∙◌, ap, true, false, not, ◌&&◌, ◌||◌, List, [],
  ◌∷◌, ◌++◌, arith, ◌==◌, if◌then◌else◌, length, Bool-cases, inl, inr, ne→==, ==→eq, ltb,
  length-append,
}
use uni_alloc.Base.Run.{Returns, returns, Returns-bind}
use uni_alloc.Memory.{Memory, is_aligned}
use uni_alloc.Memory.Chain.{has, IsDistinct, SameOutside, has-append, IsDistinct-split}
use uni_alloc.Linklist.{Linklist}
use uni_alloc.Linklist.Laws.{IsList, pop_unchecked_aligned-IsList, first_aligned, drop_aligned}
use uni_alloc.Slab.World.{as_usize}
use uni_alloc.Zone.{ZoneCalls}
use uni_alloc.Cache.{ThreadCacheUnit, reuse, skim, unit_allocate}
use uni_alloc.Cache.Units.{
  unit, bump_chunks, length-bump_chunks, skim_rest, skim_list, IsStore, IsSkimmed, skim-IsSkimmed,
  IsDistinct-move,
}

pub record IsCached (m : Memory) (u : ThreadCacheUnit) (xs ys : List ℕ) : Type 0 where
  pub list : IsList m u.list xs
  pub range : bump_chunks u.bump_ptr (as_usize u.bump_unit) u.bump_count ≡ ys
  pub few : u.bump_count < 2 ^ 31
  pub distinct : IsDistinct (ys ++ xs)
  pub non_null : has 0 ys ≡ false
  pub small : length xs + length ys < 2 ^ 64

-- The chunks of `old` are `p`, if it is not null, and those of `rest`, which are distinct.
pub record IsWithout (p : ℕ) (rest old : List ℕ) : Type 0 where
  pub distinct : IsDistinct rest
  pub fewer : length rest ≤ length old
  pub taken : has p rest ≡ false
  pub same : (a : ℕ) → has a old ≡ ((a == p && not (p == 0)) || has a rest)

IsWithout-behind :
    (x p : ℕ) (ys rest xs : List ℕ)
    → (x == 0) ≡ false
    → has x (ys ++ xs) ≡ false
    → IsWithout p (ys ++ rest) (ys ++ xs)
    → IsWithout p (ys ++ (x ∷ rest)) (ys ++ (x ∷ xs))
IsWithout-behind x p ys rest xs some_chunk out w = record {
  distinct = IsDistinct-move x ys rest (ground (arith, w.same x)) w.distinct;
  fewer = omega (
    arith,
    w.fewer,
    length-append ys (x ∷ xs),
    length-append ys xs,
    length-append ys (x ∷ rest),
    length-append ys rest,
  );
  taken = elim (Bool-cases (p == x)) [
    | inl e ↦ absurd (ground (arith, w.same p, ap (λ a. has a (ys ++ xs)) (==→eq p x e)))
    | inr n ↦ ground (arith, w.taken, has-append p ys (x ∷ rest), has-append p ys rest)
  ];
  same = λ a. ground (
    arith,
    w.same a,
    has-append a ys (x ∷ xs),
    has-append a ys xs,
    has-append a ys (x ∷ rest),
    has-append a ys rest,
  );
}

module _ (align : ℕ) where
  aligned_first :
      (xs : List ℕ) → first_aligned align xs ≢ 0 → is_aligned align (first_aligned align xs) ≡ true
  unfolding first_aligned
  aligned_first [] ne = absurd (ne refl)
  aligned_first (x ∷ xs) ne = elim (Bool-cases (is_aligned align x)) [
    | inl hit ↦ rw hit hit
    | inr miss ↦
        rw miss
          (aligned_first xs (subst (λ b. (if b then x else first_aligned align xs) ≢ 0) miss ne))
  ]

  pub first_aligned-append :
      (xs ys : List ℕ)
      → has 0 xs ≡ false
      → first_aligned align (xs ++ ys)
        ≡ (if first_aligned align xs == 0 then first_aligned align ys else first_aligned align xs)
  unfolding first_aligned
  first_aligned-append [] ys nn = refl
  first_aligned-append (x ∷ xs) ys nn = ground (arith, first_aligned-append xs ys)

  pub drop_none :
      (xs : List ℕ) → has 0 xs ≡ false → first_aligned align xs ≡ 0 → drop_aligned align xs ≡ xs
  unfolding first_aligned drop_aligned
  drop_none [] nn e = refl
  drop_none (x ∷ xs) nn e = elim (Bool-cases (is_aligned align x)) [
    | inl hit ↦ absurd (ground arith)
    | inr miss ↦ rw miss (ap (◌∷◌ x) (drop_none xs (ground arith) (ground arith)))
  ]

  skim_rest_non_null : (ys : List ℕ) → has 0 ys ≡ false → has 0 (skim_rest align ys) ≡ false
  unfolding skim_rest
  skim_rest_non_null [] nn = nn
  skim_rest_non_null (y ∷ ys) nn = ground (arith, skim_rest_non_null ys)

  -- Search of the range.
  pub skim-IsWithout :
      (ys xs : List ℕ)
      → IsDistinct (ys ++ xs)
      → has 0 ys ≡ false
      → has 0 xs ≡ false
      → IsWithout (first_aligned align ys) (skim_rest align ys ++ skim_list align xs ys) (ys ++ xs)
  unfolding first_aligned skim_rest skim_list
  skim-IsWithout [] xs d nn nx = record {
    distinct = d;
    fewer = omega arith;
    taken = nx;
    same = λ a. ground arith;
  }
  skim-IsWithout (y ∷ ys) xs d nn nx = elim (Bool-cases (is_aligned align y)) [
    | inl hit ↦ rw hit (record {
      distinct = d.1;
      fewer = omega arith;
      taken = d.0;
      same = λ a. ground (arith, nn);
    })
    | inr miss ↦
        let w =
          skim-IsWithout ys (y ∷ xs) (IsDistinct-move y ys xs d.0 d.1) (ground (arith, nn))
            (ground (arith, nn, nx)) in
        rw miss (record {
          distinct = w.distinct;
          fewer = omega (arith, w.fewer, length-append ys (y ∷ xs), length-append ys xs);
          taken = w.taken;
          same = λ a. ground (arith, w.same a, has-append a ys (y ∷ xs), has-append a ys xs);
        })
  ]

  pop-IsWithout :
      (xs ys : List ℕ)
      → IsDistinct (ys ++ xs)
      → has 0 xs ≡ false
      → has 0 ys ≡ false
      → IsWithout (first_aligned align xs) (ys ++ drop_aligned align xs) (ys ++ xs)
  unfolding first_aligned drop_aligned
  pop-IsWithout [] ys d nn ny = record {
    distinct = d;
    fewer = omega arith;
    taken = rw (has-append 0 ys []) (ground (arith, ny));
    same = λ a. ground arith;
  }
  pop-IsWithout (x ∷ xs) ys d nn ny =
      let (no_ys, front, no_xs) = IsDistinct-split ys x xs d in
      let out : has x (ys ++ xs) ≡ false = rw (has-append x ys xs) (ground arith) in
      elim (Bool-cases (is_aligned align x)) [
        | inl hit ↦ rw hit (record {
          distinct = front;
          fewer = omega (arith, length-append ys (x ∷ xs), length-append ys xs);
          taken = out;
          same = λ a. ground (arith, has-append a ys (x ∷ xs), has-append a ys xs);
        })
        | inr miss ↦ rw miss (
            IsWithout-behind x (first_aligned align xs) ys (drop_aligned align xs) xs (ground arith)
              out (pop-IsWithout xs ys front (ground arith) ny))
      ]

-- What `allocate` does with a unit that has a chunk with the alignment: `p` is that chunk, the
-- other chunks stay, and the zone is not asked.
pub record IsTaken {Z : Type 0} (c : ZoneCalls Z) (align : ℕ) (xs ys : List ℕ) (z : Z)
    (r : ℕ × ThreadCacheUnit × Z) : Type 0 where
  pub xs' : List ℕ
  pub ys' : List ℕ
  pub found : r.0 ≡ first_aligned align (xs ++ ys)
  pub aligned : is_aligned align r.0 ≡ true
  pub cached : IsCached (c.memory r.2) r.1 xs' ys'
  pub rest : IsWithout r.0 (ys' ++ xs') (ys ++ xs)
  pub unasked : r.2 ≡ c.with_memory (c.memory r.2) z

module _ {Z : Type 0} (c : ZoneCalls Z) (store : IsStore c) (align : ℕ) where
  -- What case 1 ends with, on the free list `xs`.
  pub record IsReused (m : Memory) (xs : List ℕ) (p n s : ℕ) (z : Z) (r : ℕ × ThreadCacheUnit × Z)
      : Type 0 where
    pub list : Linklist
    pub memory : Memory
    pub found : r.0 ≡ first_aligned align xs
    pub unit_eq : r.1 ≡ unit list p n s
    pub zone_eq : r.2 ≡ c.with_memory memory z
    pub holds : IsList memory list (drop_aligned align xs)
    pub same : SameOutside xs m memory

  pub reuse-IsReused :
      (l : Linklist) (p n s : ℕ) (xs : List ℕ) (z : Z)
      → IsList (c.memory z) l xs
      → length xs < 2 ^ 64
      → Returns (IsReused (c.memory z) xs p n s z) (reuse c (unit l p n s) align z)
  unfolding reuse
  reuse-IsReused l p n s xs z is small = elim (Bool-cases (ltb 0 l.length)) [
    | inl some_chunk ↦ rw some_chunk (
        Returns-bind (pop_unchecked_aligned-IsList align (c.memory z) l xs is small)
          λ (ans, l', m') (found, is', same). returns (record {
            list = l';
            memory = m';
            found = found;
            unit_eq = refl;
            zone_eq = refl;
            holds = is';
            same = same;
          }))
    | inr empty ↦ rw empty (returns (reused_none xs is ground (arith, is.counted)))
  ]
    where
      reused_none :
          (xs : List ℕ)
          → IsList (c.memory z) l xs
          → length xs ≡ 0
          → IsReused (c.memory z) xs p n s z (0, unit l p n s, z)
      reused_none [] is e =
          unfold first_aligned drop_aligned in
          record {
            list = l;
            memory = c.memory z;
            found = refl;
            unit_eq = refl;
            zone_eq = sym (store.keep z);
            holds = is;
            same = λ a h. refl;
          }
      reused_none (x ∷ xs) is e = absurd (omega arith)

  module _ (l : Linklist) (p n s : ℕ) (xs ys : List ℕ) (z : Z)
      (cached : IsCached (c.memory z) (unit l p n s) xs ys) where
    IsTaken-list :
        (r : ℕ × ThreadCacheUnit × Z)
        → IsReused (c.memory z) xs p n s z r
        → r.0 ≢ 0
        → IsTaken c align xs ys z r
    IsTaken-list (ans, u, w) r ne =
        let left = pop-IsWithout align xs ys cached.distinct cached.list.non_null cached.non_null in
        let words : c.memory w ≡ r.memory = ap c.memory r.zone_eq ∙ store.read r.memory z in
        record {
          xs' = drop_aligned align xs;
          ys' = ys;
          found = ground (arith, r.found, first_aligned-append align xs ys cached.list.non_null);
          aligned = rw r.found (aligned_first align xs λ e. ne (r.found ∙ e));
          cached =
              rw (r.unit_eq, words)
                (record {
                  list = r.holds;
                  range = cached.range;
                  few = cached.few;
                  distinct = left.distinct;
                  non_null = cached.non_null;
                  small = omega (
                    arith,
                    cached.small,
                    left.fewer,
                    length-append ys xs,
                    length-append ys (drop_aligned align xs),
                  );
                });
          rest = rw r.found left;
          unasked = rw words r.zone_eq;
        }

    IsTaken-range :
        (m : Memory) (r : ℕ × ThreadCacheUnit × Z)
        → first_aligned align xs ≡ 0
        → IsSkimmed c store z align m xs ys s r
        → first_aligned align ys ≢ 0
        → IsTaken c align xs ys z r
    IsTaken-range m (ans, u, w) none sk ne =
        let left =
          skim-IsWithout align ys xs cached.distinct cached.non_null cached.list.non_null in
        let words : c.memory w ≡ sk.memory = ap c.memory sk.zone_eq ∙ store.read sk.memory z in
        record {
          xs' = skim_list align xs ys;
          ys' = skim_rest align ys;
          found = ground (arith, sk.found, first_aligned-append align xs ys cached.list.non_null);
          aligned = rw sk.found (aligned_first align ys ne);
          cached =
              rw (sk.unit_eq, words)
                (record {
                  list = sk.holds;
                  range = sk.range;
                  few = sk.small;
                  distinct = left.distinct;
                  non_null = skim_rest_non_null align ys cached.non_null;
                  small = omega (
                    arith,
                    cached.small,
                    left.fewer,
                    length-append ys xs,
                    length-append (skim_rest align ys) (skim_list align xs ys),
                  );
                });
          rest = rw sk.found left;
          unasked = rw words sk.zone_eq;
        }

    pub skim-range :
        (r : ℕ × ThreadCacheUnit × Z) (re : IsReused (c.memory z) xs p n s z r)
        → first_aligned align xs ≡ 0
        → Returns
            (IsSkimmed c store z align re.memory xs ys s)
            (skim c (suc n) align 0 (unit re.list p n s) (c.with_memory re.memory z))
    skim-range r re none =
        subst
          (λ ys.
            Returns (IsSkimmed c store z align re.memory xs ys s)
              (skim c (suc n) align 0 (unit re.list p n s) (c.with_memory re.memory z)))
          cached.range
          (skim-IsSkimmed c store z align n re.list p s re.memory xs cached.few
            (subst (λ zs. IsList re.memory re.list zs)
              (drop_none align xs cached.list.non_null none) re.holds)
            (rw cached.range cached.distinct) (rw cached.range cached.non_null)
            (omega
              (arith, cached.small, length-bump_chunks p (as_usize s) n, ap length cached.range)))

    cached_served :
        (idx : ℕ)
        → first_aligned align (xs ++ ys) ≢ 0
        → Returns (IsTaken c align xs ys z) (unit_allocate c (unit l p n s) idx align z)
    unfolding unit_allocate
    cached_served idx ne =
        Returns-bind (reuse-IsReused l p n s xs z cached.list (omega (arith, cached.small)))
          λ (reused, u1, z1) r. elim (Bool-cases (reused == 0)) [
            | inl empty ↦
                rw (empty, r.unit_eq, r.zone_eq)
                  (let none : first_aligned align xs ≡ 0 = ground (arith, r.found) in
                    let some_one : first_aligned align ys ≢ 0 = λ e.
                      ne (first_aligned-append align xs ys cached.list.non_null ∙ ground arith) in
                    Returns-bind (skim-range (reused, u1, z1) r none) λ (ans, u2, z2) sk.
                      rw (ne→== ans 0 λ e. some_one (sym sk.found ∙ e))
                        (returns (IsTaken-range r.memory (ans, u2, z2) none sk some_one)))
            | inr hit ↦ rw hit (returns (IsTaken-list (reused, u1, z1) r (ground arith)))
          ]

-- On a store, if a unit caches a chunk with the alignment, allocate hands out the first such chunk,
-- of the free list and then of the range; the unit caches exactly the other chunks, distinct, and of
-- the zone only words of chunks change.
pub unit_allocate-IsTaken :
    {Z : Type 0} (c : ZoneCalls Z)
    → IsStore c
    → (idx align : ℕ) (u : ThreadCacheUnit) (xs ys : List ℕ) (z : Z) → IsCached (c.memory z) u xs ys
    → first_aligned align (xs ++ ys) ≢ 0
    → Returns (IsTaken c align xs ys z) (unit_allocate c u idx align z)
unit_allocate-IsTaken c store idx align u xs ys z cached ne =
    cached_served c store align u.list u.bump_ptr u.bump_count u.bump_unit xs ys z cached idx ne

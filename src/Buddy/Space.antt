-- ===== src/Buddy/Space.antt =====
-- The abstract view of a buddy tree: which blocks are free and which are out.
use uni_alloc.Base.{
  ℕ, zero, suc, ◌+◌, ◌-◌, ◌^◌, ◌<◌, ◌≤◌, ◌≡◌, refl, sym, Bool, true, false, ltb, lt→ltb, le→ltb,
  if◌then◌else◌, arith, inl, inr, Bool-cases,
}
use native.Mathlib.Nat.{pow-suc}
use uni_alloc.Buddy.{max}

-- A block is free as a whole, out as a whole, or split in two halves.
pub data Space : Type 0 where
  free : Space
  taken : Space
  split : Space → Space → Space

-- The byte of a block of order `k`.
unfoldable pub value : ℕ → Space → ℕ
value k free = suc k
value k taken = 0
value zero (split l r) = 0
value (suc k) (split l r) = max (value k l) (value k r)

unfoldable pub both_free : Space → Space → Bool
both_free free free = true
both_free l r = false

unfoldable pub join : Space → Space → Space
join free free = free
join l r = split l r

-- Two free halves are never left apart, and a block of order 0 has no halves.
abbrev pub IsNormal : ℕ → Space → Type 0
IsNormal k free = Unit {0}
IsNormal k taken = Unit {0}
IsNormal zero (split l r) = ⊥
IsNormal (suc k) (split l r) = (both_free l r ≡ false) × IsNormal k l × IsNormal k r

-- The place of the block of order `d` that is taken `m` levels below a block of order `k`, counted
-- in blocks of order `d`, and the space without it.
unfoldable pub place : ℕ → ℕ → ℕ → Space → ℕ
place zero d k b = 0
place (suc m) d zero b = 0
place (suc m) d (suc k) free = place m d k free
place (suc m) d (suc k) taken = 0
place (suc m) d (suc k) (split l r) =
    if ltb d (value k l) then place m d k l else 2 ^ m + place m d k r

unfoldable pub take : ℕ → ℕ → ℕ → Space → Space
take zero d k b = taken
take (suc m) d zero b = taken
take (suc m) d (suc k) free = split (take m d k free) free
take (suc m) d (suc k) taken = taken
take (suc m) d (suc k) (split l r) =
    if ltb d (value k l) then split (take m d k l) r else split l (take m d k r)

-- The block `q` of those `m` levels below comes back.
unfoldable pub give : ℕ → ℕ → Space → Space
give zero q b = free
give (suc m) q free = free
give (suc m) q taken = taken
give (suc m) q (split l r) =
    if ltb q (2 ^ m) then join (give m q l) r else join l (give m (q - 2 ^ m) r)

-- It is out.
unfoldable pub is_out : ℕ → ℕ → Space → Bool
is_out zero q free = false
is_out zero q taken = true
is_out zero q (split l r) = false
is_out (suc m) q free = false
is_out (suc m) q taken = false
is_out (suc m) q (split l r) = if ltb q (2 ^ m) then is_out m q l else is_out m (q - 2 ^ m) r

pub value_le : (k : ℕ) (b : Space) → value k b ≤ suc k
unfolding value max
value_le k free = omega arith
value_le k taken = omega arith
value_le zero (split l r) = omega arith
value_le (suc k) (split l r) = ground (arith, value_le k l, value_le k r)

pub value_top : (k : ℕ) (b : Space) → IsNormal k b → k < value k b → b ≡ free
unfolding value max
value_top k free n h = refl
value_top k taken n h = absurd (omega arith)
value_top zero (split l r) n h = absurd n
value_top (suc k) (split l r) (apart, nl, nr) h =
    absurd (ground (arith, value_le k l, value_le k r))

both_free-taken : (r : Space) → (both_free taken r ≡ false) × (both_free r taken ≡ false)
unfolding both_free
both_free-taken free = (refl, refl)
both_free-taken taken = (refl, refl)
both_free-taken (split l r) = (refl, refl)

both_free-split :
    (l r s : Space) → (both_free (split l r) s ≡ false) × (both_free s (split l r) ≡ false)
unfolding both_free
both_free-split l r free = (refl, refl)
both_free-split l r taken = (refl, refl)
both_free-split l r (split a b) = (refl, refl)

pub join-split : (l r : Space) → both_free l r ≡ false → join l r ≡ split l r
unfolding join both_free
join-split free free h = absurd (ground arith)
join-split free taken h = refl
join-split free (split a b) h = refl
join-split taken r h = refl
join-split (split a b) r h = refl

-- What a place and the space without it satisfy.
pub record IsTake (m k : ℕ) (b : Space) (q : ℕ) (b' : Space) : Type 0 where
  pub inside : q < 2 ^ m
  pub out : is_out m q b' ≡ true
  pub normal : IsNormal k b'
  pub other : (r : Space) → (both_free b' r ≡ false) × (both_free r b' ≡ false)
  pub back : give m q b' ≡ b

-- A block is taken out of the left or of the right half.
IsTake-left :
    (m k q : ℕ) (b l l' r : Space)
    → IsTake m k l q l'
    → IsNormal k r
    → join l r ≡ b
    → IsTake (suc m) (suc k) b q (split l' r)
unfolding is_out give
IsTake-left m k q b l l' r t nr e =
    let first : ltb q (2 ^ m) ≡ true = lt→ltb q (2 ^ m) t.inside in
    record {
      inside = omega (arith, t.inside, pow-suc 2 m);
      out = rw first t.out;
      normal = ((t.other r).0, t.normal, nr);
      other = λ s. both_free-split l' r s;
      back = rw (first, t.back) e;
    }

IsTake-right :
    (m k q : ℕ) (b l r r' : Space)
    → IsTake m k r q r'
    → IsNormal k l
    → join l r ≡ b
    → IsTake (suc m) (suc k) b (2 ^ m + q) (split l r')
unfolding is_out give
IsTake-right m k q b l r r' t nl e =
    let second : ltb (2 ^ m + q) (2 ^ m) ≡ false = le→ltb (2 ^ m + q) (2 ^ m) (omega arith) in
    let rest : 2 ^ m + q - 2 ^ m ≡ q = omega arith in
    record {
      inside = omega (arith, t.inside, pow-suc 2 m);
      out = rw (second, rest) t.out;
      normal = ((t.other l).1, nl, t.normal);
      other = λ s. both_free-split l r' s;
      back = rw (second, rest, t.back) e;
    }

-- If a block of order `k` has a free block of order `d` in it, `m` levels below, the one at its place
-- can be taken, and giving it back restores the block.
pub take-IsTake :
    (m d k : ℕ) (b : Space)
    → k ≡ d + m
    → IsNormal k b
    → d < value k b
    → IsTake m k b (place m d k b) (take m d k b)
unfolding place take value max
take-IsTake zero d k b e n h =
    unfold is_out give in
    let whole : b ≡ free = value_top k b n (omega (arith, h)) in
    record {
      inside = omega arith;
      out = refl;
      normal = tt;
      other = both_free-taken;
      back = sym whole;
    }
take-IsTake (suc m) d zero b e n h = absurd (omega arith)
take-IsTake (suc m) d (suc k) free e n h =
    IsTake-left m k (place m d k free) free free (take m d k free) free
      (take-IsTake m d k free (omega arith) tt (omega arith)) tt (unfold join in refl)
take-IsTake (suc m) d (suc k) taken e n h = absurd (omega arith)
take-IsTake (suc m) d (suc k) (split l r) e (apart, nl, nr) h =
    elim (Bool-cases (ltb d (value k l))) [
      | inl left ↦ rw left (
          IsTake-left m k (place m d k l) (split l r) l (take m d k l) r
            (take-IsTake m d k l (omega arith) nl (ground arith)) nr (join-split l r apart))
      | inr right ↦ rw right (
          IsTake-right m k (place m d k r) (split l r) l r (take m d k r)
            (take-IsTake m d k r (omega arith) nr (ground arith)) nl (join-split l r apart))
    ]

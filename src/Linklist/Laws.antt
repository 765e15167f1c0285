-- ===== src/Linklist/Laws.antt =====
-- A `Linklist` stands for a list of chunks: push puts a chunk in front, and pop takes out the first
-- chunk with the alignment that is asked for.
use uni_alloc.Base.{
  ℕ, zero, suc, ◌+◌, ◌<◌, ◌^◌, ◌≡◌, ◌≢◌, refl, true, false, List, [], ◌∷◌, arith, ◌==◌,
  if◌then◌else◌, length, Bool-cases, inl, inr, ne→==, eq→==, ◌∙◌, sym,
}
use mathlib.Core.Path.{subst}
use uni_alloc.Base.Run.{Returns, returns, Returns-map}
use uni_alloc.Base.Words.{sub64}
use uni_alloc.Memory.{Memory, write, is_aligned}
use uni_alloc.Memory.Chain.{
  has, Chain, IsDistinct, SameOutside, Chain-write, Chain-cons_write, SameOutside-write,
}
use uni_alloc.Linklist.{Linklist, push_unchecked, scan, pop_unchecked_aligned}

pub record IsList (m : Memory) (l : Linklist) (xs : List ℕ) : Type 0 where
  pub chain : Chain m l.link xs 0
  pub distinct : IsDistinct xs
  pub non_null : has 0 xs ≡ false
  pub counted : l.length ≡ length xs

-- Given a chunk that is not in the list and not null, push puts it in front, counts it, and writes
-- only the word of that chunk.
pub push_unchecked-IsList :
    (m : Memory) (l : Linklist) (xs : List ℕ) (p : ℕ)
    → IsList m l xs
    → p ≢ 0
    → has p xs ≡ false
    → length xs + 1 < 2 ^ 64
    → Returns (λ (l', m'). IsList m' l' (p ∷ xs) × SameOutside (p ∷ []) m m') (push_unchecked l p m)
unfolding push_unchecked
push_unchecked-IsList m l xs p is ne out small = rw (ne→== p 0 ne) (
    returns (
      record {
        chain = Chain-cons_write m p xs l.link 0 out is.chain;
        distinct = (out, is.distinct);
        non_null = ground (arith, is.non_null);
        counted = omega (arith, is.counted);
      },
      SameOutside-write m p l.link,
    ))

-- The first chunk of the list with the alignment; null if there is none.
unfoldable pub first_aligned : ℕ → List ℕ → ℕ
first_aligned align [] = 0
first_aligned align (x ∷ xs) = if is_aligned align x then x else first_aligned align xs

-- The list without that chunk.
unfoldable pub drop_aligned : ℕ → List ℕ → List ℕ
drop_aligned align [] = []
drop_aligned align (x ∷ xs) = if is_aligned align x then xs else x ∷ drop_aligned align xs

module _ (align : ℕ) where
  has-drop_aligned :
      (a : ℕ) (xs : List ℕ) → has a xs ≡ false → has a (drop_aligned align xs) ≡ false
  unfolding drop_aligned
  has-drop_aligned a [] out = refl
  has-drop_aligned a (x ∷ xs) out = ground (arith, has-drop_aligned a xs)

  IsDistinct-drop_aligned : (xs : List ℕ) → IsDistinct xs → IsDistinct (drop_aligned align xs)
  unfolding drop_aligned
  IsDistinct-drop_aligned [] d = tt
  IsDistinct-drop_aligned (x ∷ xs) (out, d) = elim (Bool-cases (is_aligned align x)) [
    | inl hit ↦ rw hit d
    | inr miss ↦ rw miss (has-drop_aligned x xs out, IsDistinct-drop_aligned xs d)
  ]

  length-drop_aligned :
      (xs : List ℕ)
      → has 0 xs ≡ false
      → length xs ≡ length (drop_aligned align xs) + (if first_aligned align xs == 0 then 0 else 1)
  unfolding first_aligned drop_aligned
  length-drop_aligned [] nn = refl
  length-drop_aligned (x ∷ xs) nn = ground (arith, length-drop_aligned xs)

  -- What the search behind the chunk `pre` ends with.
  record Scanned (m : Memory) (pre : ℕ) (xs : List ℕ) (l : Linklist) (r : ℕ × Linklist × Memory)
      : Type 0 where
    found : r.0 ≡ first_aligned align xs
    chain : Chain r.2 (r.2 pre) (drop_aligned align xs) 0
    same : SameOutside (pre ∷ xs) m r.2
    link : r.1.link ≡ l.link
    counted : r.1.length ≡ (if r.0 == 0 then l.length else sub64 l.length 1)

  Scanned-hit :
      (l : Linklist) (m : Memory) (pre x : ℕ) (xs : List ℕ)
      → is_aligned align x ≡ true
      → Chain m (m x) xs 0
      → has pre (x ∷ xs) ≡ false
      → (x == 0) ≡ false
      → Scanned m pre (x ∷ xs) l (x, record l { length = sub64 l.length 1 }, write m pre (m x))
  unfolding first_aligned drop_aligned write
  Scanned-hit l m pre x xs hit c out nn = record {
    found = rw hit;
    chain = rw (hit, eq→== pre pre refl) (Chain-write m (m x) xs 0 pre (m x) (ground arith) c);
    same = λ a h. ground arith;
    link = refl;
    counted = rw nn;
  }

  Scanned-miss :
      (l : Linklist) (m : Memory) (pre x : ℕ) (xs : List ℕ) (r : ℕ × Linklist × Memory)
      → is_aligned align x ≡ false
      → m pre ≡ x
      → has pre (x ∷ xs) ≡ false
      → Scanned m x xs l r
      → Scanned m pre (x ∷ xs) l r
  unfolding first_aligned drop_aligned
  Scanned-miss l m pre x xs r miss e out s = record {
    found = rw miss s.found;
    chain = rw miss (s.same pre out ∙ e, s.chain);
    same = λ a h. s.same a (ground arith);
    link = s.link;
    counted = s.counted;
  }

  scan-Scanned :
      (fuel : ℕ) (l : Linklist) (m : Memory) (pre now : ℕ) (xs : List ℕ)
      → length xs < fuel
      → m pre ≡ now
      → Chain m now xs 0
      → has pre xs ≡ false
      → IsDistinct xs
      → has 0 xs ≡ false
      → Returns (Scanned m pre xs l) (scan fuel align l m pre now)
  unfolding scan first_aligned drop_aligned
  scan-Scanned zero l m pre now xs f e c out d nn = absurd (omega arith)
  scan-Scanned (suc fuel) l m pre now [] f e c out d nn = rw c (
      returns
        (record { found = refl; chain = e ∙ c; same = λ a h. refl; link = refl; counted = refl }))
  scan-Scanned (suc fuel) l m pre now (x ∷ xs) f e (is_x, c) out d nn =
      let some_node : (x == 0) ≡ false = ground arith in
      rw (is_x, some_node)
        (elim (Bool-cases (is_aligned align x)) [
          | inl hit ↦ rw hit (returns (Scanned-hit l m pre x xs hit c out some_node))
          | inr miss ↦ rw miss (
              Returns-map
                (scan-Scanned fuel l m x (m x) xs (omega arith) refl c d.0 d.1 (ground arith))
                λ r s. Scanned-miss l m pre x xs r miss (e ∙ is_x) out s)
        ])

abbrev at : ℕ → ℕ → Linklist
at p n = record { link = p; length = n }

abbrev Popped : ℕ → Memory → List ℕ → ℕ × Linklist × Memory → Type 0
Popped align m xs (p, l', m') =
    (p ≡ first_aligned align xs) × IsList m' l' (drop_aligned align xs) × SameOutside xs m m'

pop-cons :
    (align : ℕ) (m : Memory) (n x : ℕ) (xs : List ℕ)
    → IsList m (at x n) (x ∷ xs)
    → length xs + 1 < 2 ^ 64
    → Returns (Popped align m (x ∷ xs)) (pop_unchecked_aligned (at x n) align m)
unfolding pop_unchecked_aligned first_aligned drop_aligned
pop-cons align m n x xs is small =
    let nn : (x == 0) ≡ false = ground (arith, is.non_null) in
    let some_chunk : (n == 0) ≡ false = ground (arith, is.counted) in
    rw (some_chunk, nn)
      (elim (Bool-cases (is_aligned align x)) [
        | inl hit ↦ rw hit (
            returns {a = (x, at (m x) (sub64 n 1), m)} (
              rw hit,
              rw hit (record {
                chain = is.chain.1;
                distinct = is.distinct.1;
                non_null = ground (arith, is.non_null);
                counted = omega (arith, is.counted);
              }),
              λ a h. refl,
            ))
        | inr miss ↦ rw miss (
            Returns-map
              (scan-Scanned align n (at x n) m x (m x) xs (omega (arith, is.counted)) refl
                is.chain.1 is.distinct.0 is.distinct.1 (ground (arith, is.non_null)))
              λ r s. (
                rw miss s.found,
                rw miss (record {
                  chain = (s.link, s.chain);
                  distinct = (
                    has-drop_aligned align x xs is.distinct.0,
                    IsDistinct-drop_aligned align xs is.distinct.1,
                  );
                  non_null = ground (arith, is.non_null, has-drop_aligned align 0 xs);
                  counted =
                      ground (arith, is.counted, s.counted, s.found, length-drop_aligned align xs);
                }),
                s.same,
              ))
      ])

-- With any alignment, pop returns the first chunk that has it and takes that chunk out of the list;
-- if no chunk has it, pop returns null and the list stands for the same chunks. Only words of the
-- list's own chunks are written.
pub pop_unchecked_aligned-IsList :
    (align : ℕ) (m : Memory) (l : Linklist) (xs : List ℕ)
    → IsList m l xs
    → length xs < 2 ^ 64
    → Returns
        (λ (p, l', m').
          (p ≡ first_aligned align xs) × IsList m' l' (drop_aligned align xs) × SameOutside xs m m')
        (pop_unchecked_aligned l align m)
pop_unchecked_aligned-IsList align m l [] is small =
    unfold pop_unchecked_aligned first_aligned drop_aligned in
    rw (eq→== l.length 0 is.counted) (returns {a = (0, l, m)} (refl, is, λ a h. refl))
pop_unchecked_aligned-IsList align m l (x ∷ xs) is small =
    subst
      (λ p.
        IsList m (at p l.length) (x ∷ xs)
        → Returns (Popped align m (x ∷ xs)) (pop_unchecked_aligned (at p l.length) align m))
      (sym is.chain.0) (λ is'. pop-cons align m l.length x xs is' (omega arith)) is

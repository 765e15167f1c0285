-- ===== src/Page/Chunks.antt =====
-- The free list of a slab: what `deallocate` takes back and what `allocate_all` hands out.
use uni_alloc.Base.{
  ◌⊎◌, ℕ, zero, suc, ◌+◌, ◌*◌, ◌≤◌, ◌<◌, ◌^◌, ◌≡◌, refl, true, false, List, [], ◌∷◌, ◌++◌, arith,
  ◌==◌, length, length-append, Bool-cases, inl, inr, ltb, leb, none, some, le→leb,
}
use native.Mathlib.Nat.{add-zero}
use uni_alloc.Base.Run.{ok, Returns, returns}
use uni_alloc.Base.Words.{add64, sub64, mul64}
use uni_alloc.Memory.{Memory, write}
use uni_alloc.Memory.Chain
use uni_alloc.Memory.Chain.{
  has, Chain, IsDistinct, SameOutside, Chain-write, last_of, has-last_of, Apart, IsDistinct-append,
}
use uni_alloc.Page.{ObjectPage, in_page, walk, deallocate, allocate_all, is_full}

abbrev pub AllIn : ℕ → ℕ → List ℕ → Type 0
AllIn base bytes [] = Unit {0}
AllIn base bytes (x ∷ xs) = (in_page base bytes x ≡ true) × AllIn base bytes xs

-- The walk ends at the first chunk outside the slab, has counted the chunks before it, and stands
-- at the last of them.
walk-ok :
    (fuel : ℕ) (m : Memory) (base bytes cur counter next : ℕ) (xs : List ℕ) (q : ℕ)
    → length xs < fuel
    → Chain m next xs q
    → AllIn base bytes xs
    → in_page base bytes q ≡ false
    → counter + length xs < 2 ^ 64
    → walk fuel m base bytes cur counter next ≡ ok (last_of cur xs, counter + length xs, q)
unfolding walk last_of
walk-ok zero m base bytes cur counter next xs q f c i o s = absurd (omega arith)
walk-ok (suc fuel) m base bytes cur counter next [] q f c i o s = rw (c, o, add-zero)
walk-ok (suc fuel) m base bytes cur counter next (x ∷ xs) q f (e, c) (i, is) o s =
    let one_more : add64 counter 1 ≡ suc counter = omega arith in
    let total : counter + suc (length xs) ≡ suc counter + length xs = omega arith in
    rw (e, i, one_more, total)
      (walk-ok fuel m base bytes x (suc counter) (m x) xs q (omega arith) c is o (omega arith))

-- Linking the last chunk of a chain elsewhere.
Chain-relink :
    (m : Memory) (p x : ℕ) (xs : List ℕ) (q r : ℕ)
    → IsDistinct (x ∷ xs)
    → Chain m p (x ∷ xs) q
    → Chain (write m (last_of x xs) r) p (x ∷ xs) r
unfolding last_of
Chain-relink m p x [] q r d c = (c.0, Chain.write_self m x r)
Chain-relink m p x (y ∷ ys) q r d c =
    let kept = Chain.write_in m (last_of y ys) r x (y ∷ ys) (has-last_of y ys) d.0 in
    (c.0, rw kept (Chain-relink m (m x) y ys q r d.1 c.1))

-- The chunks `xs` are free in the slab `s` of `bytes` bytes and `n` chunks; `counter` chunks are out.
pub record IsFree (m : Memory) (bytes n : ℕ) (s : ObjectPage) (xs : List ℕ) : Type 0 where
  pub chain : Chain m s.ptr xs 0
  pub distinct : IsDistinct xs
  pub inside : AllIn s.data_start bytes xs
  pub counted : s.counter + length xs ≡ n

AllIn-append :
    (base bytes : ℕ) (xs ys : List ℕ)
    → AllIn base bytes xs
    → AllIn base bytes ys
    → AllIn base bytes (xs ++ ys)
AllIn-append base bytes [] ys a b = b
AllIn-append base bytes (x ∷ xs) ys a b = (a.0, AllIn-append base bytes xs ys a.1 b)

module _ (page_size pg_num n : ℕ) (small : page_size * pg_num < 2 ^ 63) (few : n < 2 ^ 64) where
  abbrev bytes : ℕ
  bytes = page_size * pg_num

  -- A batch of allocated chunks `x ∷ xs` of the slab, linked to each other and behind the last to
  -- something outside the slab, joins the free list in front. The chunk behind the batch is
  -- returned, the counter falls by the size of the batch, and only its last word is written.
  pub deallocate-IsFree :
      (m : Memory) (s : ObjectPage) (free : List ℕ) (x : ℕ) (xs : List ℕ) (q : ℕ)
      → IsFree m bytes n s free
      → s.data_start < 2 ^ 63
      → Chain m x (x ∷ xs) q
      → IsDistinct (x ∷ xs)
      → AllIn s.data_start bytes (x ∷ xs)
      → in_page s.data_start bytes q ≡ false
      → Apart (x ∷ xs) free
      → length (x ∷ xs) ≤ s.counter
      → Returns
          (λ (next, s', m').
            (next ≡ q)
            × IsFree m' bytes n s' ((x ∷ xs) ++ free)
            × (s'.counter + length (x ∷ xs) ≡ s.counter)
            × SameOutside (x ∷ xs) m m')
          (deallocate page_size s x pg_num m)
  unfolding deallocate
  deallocate-IsFree m s free x xs q is low c d i o apart le =
      let no_wrap : mul64 pg_num page_size ≡ page_size * pg_num = omega arith in
      let above : leb s.data_start x ≡ true = ground arith in
      let below : ltb x (add64 s.data_start bytes) ≡ true = ground arith in
      let taken : ltb 0 s.counter ≡ true = ground arith in
      let enough : leb (1 + length xs) s.counter ≡ true = ground arith in
      let last = last_of x xs in
      let last_in = has-last_of x xs in
      rw
        (
          no_wrap,
          above,
          below,
          taken,
          walk-ok s.counter m s.data_start bytes x 1 (m x) xs q le c.1 i.1 o
              (omega (arith, is.counted)),
          enough,
        )
        (returns (
          refl,
          record {
            chain =
                Chain.Chain-append (write m last s.ptr) x (x ∷ xs) s.ptr free 0
                  (Chain-relink m x x xs q s.ptr d c)
                  (Chain-write m s.ptr free 0 last s.ptr (apart last last_in) is.chain);
            distinct = IsDistinct-append (x ∷ xs) free d is.distinct apart;
            inside = AllIn-append s.data_start bytes (x ∷ xs) free i is.inside;
            counted = omega (arith, is.counted, length-append xs free);
          },
          omega (arith, is.counted),
          λ a h. Chain.write_in m last s.ptr a (x ∷ xs) last_in h,
        ))

-- `allocate_all` leaves a full page with an empty free list. If no chunk was out, it hands out the
-- whole slab, still to be cut; otherwise exactly the chain of the free chunks, with their number.
pub allocate_all-IsFree :
    (m : Memory) (bytes n align : ℕ) (s : ObjectPage) (free : List ℕ)
    → n < 2 ^ 64
    → IsFree m bytes n s free
    → (is_full (allocate_all s n align).0 n ≡ true)
      × IsFree m bytes n (allocate_all s n align).0 []
      × (((s.counter ≡ 0) × ((allocate_all s n align).1 ≡ (s.data_start, n, some align)))
          ⊎ ((0 < s.counter)
              × ((allocate_all s n align).1 ≡ (s.ptr, length free, none))
              × Chain m (allocate_all s n align).1.0 free 0))
unfolding allocate_all is_full
allocate_all-IsFree m bytes n align s free few is = elim (Bool-cases (s.counter == 0)) [
  | inl fresh ↦ rw fresh (
    le→leb n n (omega arith),
    record { chain = refl; distinct = tt; inside = tt; counted = omega arith },
    inl (ground arith, refl),
  )
  | inr cut ↦
      let rest : sub64 n s.counter ≡ length free = omega (arith, is.counted) in
      rw (cut, rest)
        (
          le→leb n n (omega arith),
          record { chain = refl; distinct = tt; inside = tt; counted = omega arith },
          inr (ground arith, refl, is.chain),
        )
]

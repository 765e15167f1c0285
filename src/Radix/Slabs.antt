-- ===== src/Radix/Slabs.antt =====
-- `align_12k` and the two functions of unialloc/src/sc/efficient_sc.rs that enter a slab in the
-- tree and take it out. `page_bits` is the logarithm of PAGE_SIZE. The slab is cut where the page
-- number is a multiple of 2^16 or 4096, so that neither part crosses the end of a node.
use uni_alloc.Base.{
  ℕ, ◌+◌, ◌-◌, ◌*◌, ◌/◌, ◌%◌, ◌^◌, ◌≤◌, ◌<◌, ◌≡◌, ltb, leb, if◌then◌else◌, arith, zero, suc, ap,
  sym, ◌∙◌, Bool-cases, inl, inr,
}
use native.Mathlib.Nat.{pow-suc, zero-add, mul_comm, one-mul, mul_assoc, mul-div_cancel, one-le-pow}
use uni_alloc.Base.Run.{Run, ◌>>=◌, Returns, Returns-bind, Returns-map}
use uni_alloc.Base.Words.{add64, sub64, mul64}
use uni_alloc.Radix.Head.{RadixTree, insert, remove}
use uni_alloc.Radix.Lookup.{key_of, IsUpdate, insert-IsUpdate, remove-IsUpdate}

module _ (page_bits : ℕ) where
  -- The address a page would have if pages were 4096 bytes.
  unfoldable pub align_12k : ℕ → ℕ
  align_12k ptr =
      let page_vaddr = ptr / 2 ^ page_bits * 2 ^ page_bits in
      if ltb page_bits 12
      then page_vaddr * 2 ^ (12 - page_bits) % 2 ^ 64
      else if ltb 12 page_bits
      then page_vaddr / 2 ^ (page_bits - 12)
      else page_vaddr

  unfoldable pub handle_rd_tree_insert : ℕ → RadixTree → ℕ → ℕ → Run RadixTree
  handle_rd_tree_insert pg_num ptr_map idx addr =
      let num = 2 ^ 16 in
      let rem = sub64 num (addr / 2 ^ page_bits % num) in
      let ptr = align_12k addr in
      let split = do
        t ← insert (mul64 ptr (2 ^ 16)) idx rem ptr_map
        insert (mul64 (add64 ptr (mul64 4096 rem)) (2 ^ 16)) idx (sub64 pg_num rem) t
      in if leb pg_num rem then insert (mul64 ptr (2 ^ 16)) idx pg_num ptr_map else split

  unfoldable pub handle_rd_tree_remove : ℕ → RadixTree → ℕ → Run RadixTree
  handle_rd_tree_remove pg_num ptr_map addr =
      let rem = sub64 4096 (addr / 2 ^ page_bits % 4096) in
      let ptr = align_12k addr in
      let split = do
        t ← remove (mul64 ptr (2 ^ 16)) rem ptr_map
        remove (mul64 (add64 ptr (mul64 4096 rem)) (2 ^ 16)) (sub64 pg_num rem) t
      in if leb pg_num rem then remove (mul64 ptr (2 ^ 16)) pg_num ptr_map else split

pow_add : (a b : ℕ) → 2 ^ (a + b) ≡ 2 ^ a * 2 ^ b
pow_add zero b = rw (zero-add b) (sym (one-mul (2 ^ b)))
pow_add (suc a) b =
    let more : suc a + b ≡ suc (a + b) = omega arith in
    ap (λ (x : ℕ). 2 ^ x) more
    ∙ pow-suc 2 (a + b)
    ∙ ap (λ (x : ℕ). x * 2) (pow_add a b)
    ∙ mul_assoc (2 ^ a) (2 ^ b) 2
    ∙ ap (λ (x : ℕ). 2 ^ a * x) (mul_comm (2 ^ b) 2)
    ∙ sym (mul_assoc (2 ^ a) 2 (2 ^ b))
    ∙ ap (λ (x : ℕ). x * 2 ^ b) (sym (pow-suc 2 a))

-- A page number times its page size, taken to pages of 4096 bytes.
module _ (b q : ℕ) where
  smaller_pages : b ≤ 12 → q * 2 ^ b * 2 ^ (12 - b) ≡ q * 4096
  smaller_pages h =
      mul_assoc q (2 ^ b) (2 ^ (12 - b))
      ∙ ap (λ (x : ℕ). q * x) (sym (pow_add b (12 - b)) ∙ ap (λ (x : ℕ). 2 ^ x) whole)
    where
      whole : b + (12 - b) ≡ 12
      whole = omega arith

  larger_pages : 12 ≤ b → q * 2 ^ b / 2 ^ (b - 12) ≡ q * 4096
  larger_pages h =
      ap (λ (x : ℕ). q * x / 2 ^ (b - 12)) (ap (λ (x : ℕ). 2 ^ x) whole ∙ pow_add 12 (b - 12))
      ∙ ap (λ (x : ℕ). x / 2 ^ (b - 12)) (sym (mul_assoc q 4096 (2 ^ (b - 12))))
      ∙ mul-div_cancel (q * 4096) (one-le-pow (b - 12) 2 (omega arith))
    where
      whole : b ≡ 12 + (b - 12)
      whole = omega (arith, h)

pub align_12k-eq :
    (page_bits addr : ℕ)
    → addr / 2 ^ page_bits < 2 ^ 36
    → align_12k page_bits addr ≡ addr / 2 ^ page_bits * 4096
unfolding align_12k
align_12k-eq page_bits addr h = elim (Bool-cases (ltb page_bits 12)) [
  | inl less ↦
      rw (less, smaller_pages page_bits (addr / 2 ^ page_bits) (ground arith)) (omega arith)
  | inr not_less ↦ elim (Bool-cases (ltb 12 page_bits)) [
    | inl more ↦ rw (not_less, more) (larger_pages page_bits (addr / 2 ^ page_bits) (ground arith))
    | inr same ↦ rw (not_less, same) (equal (ground arith))
  ]
]
  where
    equal : page_bits ≡ 12 → addr / 2 ^ page_bits * 2 ^ page_bits ≡ addr / 2 ^ page_bits * 4096
    equal e = ap (λ (x : ℕ). addr / 2 ^ page_bits * 2 ^ x) e

join-IsUpdate :
    (p m n v : ℕ) (t t1 t2 : RadixTree)
    → m ≤ n
    → IsUpdate p m v t t1
    → IsUpdate (p + m) (n - m) v t1 t2
    → IsUpdate p n v t t2
join-IsUpdate p m n v t t1 t2 le f g q b = ground (arith, f q b, g q b)

-- The address behind `m` pages of 4096 bytes gives the key of the page there.
next_key :
    (p m : ℕ) → p + m < 2 ^ 36 → mul64 (add64 (p * 4096) (mul64 4096 m)) (2 ^ 16) ≡ key_of (p + m)
next_key p m h = omega arith

module _ (page_bits pg_num addr : ℕ) (t : RadixTree) where
  -- The number of the slab's first page.
  abbrev first : ℕ
  first = addr / 2 ^ page_bits

  pub handle_rd_tree_insert-IsUpdate :
      (idx : ℕ)
      → first + pg_num ≤ 2 ^ 36
      → 0 < pg_num
      → pg_num ≤ 2 ^ 16
      → Returns (IsUpdate first pg_num idx t) (handle_rd_tree_insert page_bits pg_num t idx addr)
  unfolding handle_rd_tree_insert
  handle_rd_tree_insert-IsUpdate idx fits pos small =
      let rem = sub64 (2 ^ 16) (first % 2 ^ 16) in
      rw (align_12k-eq page_bits addr (omega arith)) (elim (Bool-cases (leb pg_num rem)) [
        | inl one ↦ rw one (insert-IsUpdate first pg_num idx t (omega arith) (ground arith))
        | inr two ↦ rw two (
            Returns-bind (insert-IsUpdate first rem idx t (omega arith) (omega arith)) λ t1 f.
              rw (next_key first rem (ground arith), behind rem (ground arith))
                (Returns-map
                  (insert-IsUpdate (first + rem) (pg_num - rem) idx t1 (ground arith)
                    (ground arith))
                  λ t2 g. join-IsUpdate first rem pg_num idx t t1 t2 (ground arith) f g))
      ])
    where
      behind : (m : ℕ) → m ≤ pg_num → sub64 pg_num m ≡ pg_num - m
      behind m h = omega arith

  pub handle_rd_tree_remove-IsUpdate :
      first + pg_num ≤ 2 ^ 36
      → 0 < pg_num
      → pg_num ≤ 4096
      → Returns (IsUpdate first pg_num 0 t) (handle_rd_tree_remove page_bits pg_num t addr)
  unfolding handle_rd_tree_remove
  handle_rd_tree_remove-IsUpdate fits pos small =
      let rem = sub64 4096 (first % 4096) in
      rw (align_12k-eq page_bits addr (omega arith)) (elim (Bool-cases (leb pg_num rem)) [
        | inl one ↦ rw one (remove-IsUpdate first pg_num t (omega arith) (ground arith))
        | inr two ↦ rw two (
            Returns-bind (remove-IsUpdate first rem t (omega arith) (omega arith)) λ t1 f.
              rw (next_key first rem (ground arith), behind rem (ground arith))
                (Returns-map
                  (remove-IsUpdate (first + rem) (pg_num - rem) t1 (ground arith) (ground arith))
                  λ t2 g. join-IsUpdate first rem pg_num 0 t t1 t2 (ground arith) f g))
      ])
    where
      behind : (m : ℕ) → m ≤ pg_num → sub64 pg_num m ≡ pg_num - m
      behind m h = omega arith

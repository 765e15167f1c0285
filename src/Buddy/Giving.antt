-- ===== src/Buddy/Giving.antt =====
-- `deallocate` on the array gives back the block that `give` gives back in the abstract view.
use native.Mathlib.Nat.{pow-suc, mul-div_cancel}
use mathlib.Core.Path.{subst, subst₂, ap₂}
use uni_alloc.Base.{
  ℕ, zero, suc, ◌+◌, ◌-◌, ◌*◌, ◌/◌, ◌^◌, ◌<◌, ◌≤◌, ◌≡◌, refl, ap, ◌∙◌, sym, true, false, ◌&&◌, ltb,
  ◌==◌, if◌then◌else◌, arith, inl, inr, ◌⊎◌, Bool-cases, ne→==, eq→==, lt→ltb, ltb→lt, le→ltb,
  le→leb,
}
use uni_alloc.Base.Run.{ok, panic, Returns, returns}
use uni_alloc.Buddy.{
  FlatBlocks, max, set_block, blocks_in_tree, left_child, parent, update_block, update_blocks_above,
  deallocate, new_free,
}
use uni_alloc.Buddy.Space.{
  Space, free, taken, split, value, both_free, IsNormal, join, join-split, give, is_out, value_top,
}
use uni_alloc.Buddy.Nodes.{
  Stands, Stands-value, Stands-frame, Stands-split, Stands-set_above, Stands-IsNormal,
  set_block_self, SameBut, SameBut-right, SameBut-left, SameBut-above,
}
use uni_alloc.Buddy.Taking.{
  Fits, Fits-node, Fits-left, Fits-right, block-eq, block_mut-eq, set_block-SameBut, pow_pos,
  whole_tree,
}

-- The byte that `update_block` computes for a block of order `suc k` from those of its halves.
abbrev merged : ℕ → ℕ → ℕ → ℕ
merged k l r = if (l == suc k) && (r == suc k) then suc k + 1 else max l r

merged-apart :
    (k : ℕ) (l r : Space)
    → IsNormal k l
    → IsNormal k r
    → both_free l r ≡ false
    → merged k (value k l) (value k r) ≡ max (value k l) (value k r)
merged-apart k l r nl nr apart = elim (Bool-cases ((value k l == suc k) && (value k r == suc k))) [
  | inl both ↦
      let first : l ≡ free = value_top k l nl (ground arith) in
      let second : r ≡ free = value_top k r nr (ground arith) in
      absurd (whole (ap (λ x. both_free x r) (sym first) ∙ apart) second)
  | inr not_both ↦ rw not_both refl
]
  where
    whole : both_free free r ≡ false → r ≡ free → ⊥
    whole f e = unfold both_free in absurd (ground (arith, ap (λ x. both_free free x) e))

both_free-parts : (l r : Space) → both_free l r ≡ true → (l ≡ free) × (r ≡ free)
unfolding both_free
both_free-parts free free h = (refl, refl)
both_free-parts free taken h = absurd (ground arith)
both_free-parts free (split a b) h = absurd (ground arith)
both_free-parts taken r h = absurd (ground arith)
both_free-parts (split a b) r h = absurd (ground arith)

whole_value : (k l r : ℕ) → l ≡ value k free → r ≡ value k free → merged k l r ≡ suc (suc k)
unfolding value
whole_value k l r e f = ground (arith, e, f)

Stands-join :
    (t : FlatBlocks) (n k : ℕ) (l r : Space)
    → 0 < n
    → Stands t (2 * n) k l
    → Stands t (2 * n + 1) k r
    → Stands (set_block t (n - 1) (merged k (t (2 * n - 1)) (t (2 * n)))) n (suc k) (join l r)
Stands-join t n k l r pos low high =
    let first : t (2 * n - 1) ≡ value k l = Stands-value t (2 * n) k l low in
    let second : t (2 * n) ≡ value k r = ap t (omega arith) ∙ Stands-value t (2 * n + 1) k r high in
    elim (Bool-cases (both_free l r)) [
      | inl both ↦
          let (e, f) = both_free-parts l r both in
          let v = merged k (t (2 * n - 1)) (t (2 * n)) in
          subst₂
            (λ a b.
              Stands t (2 * n) k a
              → Stands t (2 * n + 1) k b
              → Stands (set_block t (n - 1) v) n (suc k) (join a b))
            (sym e) (sym f)
            (λ a b.
              unfold join in
              (
                set_block_self t (n - 1) v
                    ∙ whole_value k (t (2 * n - 1)) (t (2 * n)) (first ∙ ap (value k) e)
                        (second ∙ ap (value k) f),
                Stands-set_above t n (2 * n) k v free pos (omega arith) a,
                Stands-set_above t n (2 * n + 1) k v free pos (omega arith) b,
              ))
            low high
      | inr apart ↦ rw (join-split l r apart) (
          subst (λ v. Stands (set_block t (n - 1) v) n (suc k) (split l r))
            (sym (
              ap₂ (merged k) first second
              ∙ merged-apart k l r (Stands-IsNormal t (2 * n) k l low)
                  (Stands-IsNormal t (2 * n + 1) k r high) apart
              ∙ sym (ap₂ max first second)))
            (Stands-split t n k l r pos apart low high))
    ]

node_left : (p p' n q : ℕ) → p' ≡ p * 2 → n * p' + q ≡ 2 * n * p + q
node_left p p' n q f = rw f (grind arith)

node_right : (p p' n q q' : ℕ) → p' ≡ p * 2 → p + q' ≡ q → n * p' + q ≡ (2 * n + 1) * p + q'
node_right p p' n q q' f e = rw (f, sym e) (grind arith)

module _ (levels base_order max_order : ℕ) where
  -- The way up from the block `q` of the order `d`, `m` levels below `n`, after it was freed.
  pub record IsGiven (m d k n q : ℕ) (t : FlatBlocks) (b : Space) : Type 0 where
    pub after : FlatBlocks
    pub was : t (n * 2 ^ m + q - 1) ≡ 0
    pub rose :
        update_blocks_above levels base_order max_order m
          (set_block t (n * 2 ^ m + q - 1) (new_free d))
          (n * 2 ^ m + q)
          d
        ≡ ok (n, after)
    pub stands : Stands after n k (give m q b)
    pub same : SameBut n k t after

  update_block-eq :
      (t : FlatBlocks) (n k : ℕ)
      → 0 < n
      → 2 * n + 1 < 2 ^ levels
      → update_block levels base_order max_order t n (suc k)
        ≡ ok (set_block t (n - 1) (merged k (t (2 * n - 1)) (t (2 * n))))
  unfolding update_block left_child
  update_block-eq t n k pos h =
      let next : 2 * n - 1 + 1 ≡ 2 * n = omega arith in
      rw
        (
          ne→== (suc k) 0 (omega arith),
          ne→== n 0 (omega arith),
          block-eq levels base_order max_order t (2 * n - 1) (omega arith),
          next,
          block-eq levels base_order max_order t (2 * n) (omega arith),
          block_mut-eq levels base_order max_order t (n - 1) (merged k (t (2 * n - 1)) (t (2 * n)))
              (omega arith),
        )
        refl

  Stands-freed :
      (t : FlatBlocks) (n k : ℕ)
      → 0 < n
      → Stands t n k taken
      → (t (n - 1) ≡ 0) × Stands (set_block t (n - 1) (suc k)) n k free
  Stands-freed t n zero pos h = (h, set_block_self t (n - 1) 1)
  Stands-freed t n (suc k) pos (h, l, r) = (
    h,
    (
      set_block_self t (n - 1) (suc (suc k)),
      Stands-set_above t n (2 * n) k (suc (suc k)) free pos (omega arith) l,
      Stands-set_above t n (2 * n + 1) k (suc (suc k)) free pos (omega arith) r,
    ),
  )

  out_block : (q : ℕ) (b : Space) → is_out zero q b ≡ true → b ≡ taken
  unfolding is_out
  out_block q free h = absurd (ground arith)
  out_block q taken h = refl
  out_block q (split l r) h = absurd (ground arith)

  rose_up :
      (m d k n c i : ℕ) (s t : FlatBlocks)
      → (c ≡ 2 * n) ⊎ (c ≡ 2 * n + 1)
      → 0 < n
      → Fits levels base_order max_order n (suc k)
      → d + suc m ≡ suc k
      → update_blocks_above levels base_order max_order m s i d ≡ ok (c, t)
      → update_blocks_above levels base_order max_order (suc m) s i d
        ≡ ok (n, set_block t (n - 1) (merged k (t (2 * n - 1)) (t (2 * n))))
  unfolding update_blocks_above parent
  rose_up m d k n c i s t child pos fits order rose =
      let up : c / 2 ≡ n = elim child [ inl e ↦ omega (arith, e) | inr e ↦ omega (arith, e) ] in
      let inside =
        Fits-node levels base_order max_order (2 * n + 1) k
          (Fits-right levels base_order max_order n k fits) in
      rw (rose, up, order, update_block-eq t n k pos inside) refl

  IsGiven-left :
      (m d k n q : ℕ) (t : FlatBlocks) (l r : Space)
      → 0 < n
      → Fits levels base_order max_order n (suc k)
      → d + suc m ≡ suc k
      → Stands t (2 * n + 1) k r
      → ltb q (2 ^ m) ≡ true
      → IsGiven m d k (2 * n) q t l
      → IsGiven (suc m) d (suc k) n q t (split l r)
  unfolding give
  IsGiven-left m d k n q t l r pos fits order high left g =
      let here : n * 2 ^ suc m + q ≡ 2 * n * 2 ^ m + q =
        node_left (2 ^ m) (2 ^ suc m) n q (pow-suc 2 m) in
      record {
        after = set_block g.after (n - 1) (merged k (g.after (2 * n - 1)) (g.after (2 * n)));
        was = ap (λ (i : ℕ). t (i - 1)) here ∙ g.was;
        rose = rw here (
            rose_up m d k n (2 * n) (2 * n * 2 ^ m + q)
              (set_block t (2 * n * 2 ^ m + q - 1) (new_free d)) g.after (inl refl) pos fits order
              g.rose);
        stands = rw left (
            Stands-join g.after n k (give m q l) r pos g.stands (
              Stands-frame t g.after (2 * n + 1) k r (SameBut-right t g.after n k pos g.same)
                high));
        same =
            SameBut-above t g.after n (2 * n) k (merged k (g.after (2 * n - 1)) (g.after (2 * n)))
              (inl refl) pos g.same;
      }

  IsGiven-right :
      (m d k n q : ℕ) (t : FlatBlocks) (l r : Space)
      → 0 < n
      → Fits levels base_order max_order n (suc k)
      → d + suc m ≡ suc k
      → Stands t (2 * n) k l
      → 2 ^ m ≤ q
      → ltb q (2 ^ m) ≡ false
      → IsGiven m d k (2 * n + 1) (q - 2 ^ m) t r
      → IsGiven (suc m) d (suc k) n q t (split l r)
  unfolding give
  IsGiven-right m d k n q t l r pos fits order low big right g =
      let here : n * 2 ^ suc m + q ≡ (2 * n + 1) * 2 ^ m + (q - 2 ^ m) =
        node_right (2 ^ m) (2 ^ suc m) n q (q - 2 ^ m) (pow-suc 2 m) (omega arith) in
      record {
        after = set_block g.after (n - 1) (merged k (g.after (2 * n - 1)) (g.after (2 * n)));
        was = ap (λ (i : ℕ). t (i - 1)) here ∙ g.was;
        rose = rw here (
            rose_up m d k n (2 * n + 1) ((2 * n + 1) * 2 ^ m + (q - 2 ^ m))
              (set_block t ((2 * n + 1) * 2 ^ m + (q - 2 ^ m) - 1) (new_free d)) g.after (inr refl)
              pos fits order g.rose);
        stands = rw right (
            Stands-join g.after n k l (give m (q - 2 ^ m) r) pos
              (Stands-frame t g.after (2 * n) k l (SameBut-left t g.after n k pos g.same) low)
              g.stands);
        same =
            SameBut-above t g.after n (2 * n + 1) k
              (merged k (g.after (2 * n - 1)) (g.after (2 * n))) (inr refl) pos g.same;
      }

  pub giving :
      (m d k n q : ℕ) (t : FlatBlocks) (b : Space)
      → 0 < n
      → Fits levels base_order max_order n k
      → k ≡ d + m
      → q < 2 ^ m
      → Stands t n k b
      → is_out m q b ≡ true
      → IsGiven m d k n q t b
  giving zero d k n q t b pos fits e small st out =
      let whole : b ≡ taken = out_block q b out in
      let (was, freed) = Stands-freed t n k pos (subst (λ c. Stands t n k c) whole st) in
      let here : n * 2 ^ 0 + q ≡ n = omega arith in
      let order : k ≡ d = omega arith in
      unfold update_blocks_above give in
      record {
        after = set_block t (n - 1) (suc d);
        was = ap (λ (i : ℕ). t (i - 1)) here ∙ was;
        rose = rw here refl;
        stands = subst (λ o. Stands (set_block t (n - 1) (suc o)) n k free) order freed;
        same = set_block-SameBut levels base_order max_order t n k (suc d) pos;
      }
  giving (suc m) d zero n q t b pos fits e small st out = absurd (omega arith)
  giving (suc m) d (suc k) n q t free pos fits e small st out =
      absurd (unfold is_out in ground arith)
  giving (suc m) d (suc k) n q t taken pos fits e small st out =
      absurd (unfold is_out in ground arith)
  giving (suc m) d (suc k) n q t (split l r) pos fits e small (st, apart, low, high) out =
      elim (Bool-cases (ltb q (2 ^ m))) [
        | inl left ↦ IsGiven-left m d k n q t l r pos fits (omega arith) high left (
            giving m d k (2 * n) q t l (omega arith)
              (Fits-left levels base_order max_order n k fits) (omega arith) (ltb→lt q (2 ^ m) left)
              low (unfold is_out in rw left at out))
        | inr right ↦
            IsGiven-right m d k n q t l r pos fits (omega arith) low (ground arith) right (
              giving m d k (2 * n + 1) (q - 2 ^ m) t r (omega arith)
                (Fits-right levels base_order max_order n k fits) (omega arith)
                (omega (arith, small, pow-suc 2 m)) high (unfold is_out in rw right at out))
      ]

-- In an array that holds the whole tree: deallocate of a block that is out, and is not the last of
-- the array, returns; the bytes of the tree then stand for the space with that block free, free
-- halves put together, and no other byte changes.
pub deallocate-Stands :
    (levels base_order max_order order q : ℕ) (t : FlatBlocks) (b : Space)
    → max_order < levels
    → order ≤ max_order
    → Stands t 1 max_order b
    → q < 2 ^ (max_order - order)
    → is_out (max_order - order) q b ≡ true
    → 2 ^ (max_order - order) + q + 1 < 2 ^ levels
    → Returns
        (λ t'. Stands t' 1 max_order (give (max_order - order) q b) × SameBut 1 max_order t t')
        (deallocate levels base_order max_order t (q * 2 ^ (base_order + order)) order)
unfolding deallocate blocks_in_tree
deallocate-Stands levels base_order max_order order q t b fits le st small out inside =
    let m = max_order - order in
    let g =
      giving levels base_order max_order m order max_order 1 q t b (omega arith)
        (whole_tree levels max_order fits) (omega arith) small st out in
    let shift : q * 2 ^ (base_order + order) / 2 ^ (order + base_order) ≡ q =
      ap (λ o. q * 2 ^ (base_order + order) / 2 ^ o) (commuted order base_order)
      ∙ mul-div_cancel q (pow_pos (base_order + order)) in
    let index : 2 ^ m - 1 + q + 1 ≡ 1 * 2 ^ m + q = omega (arith, pow_pos m) in
    let some_index = pow_pos m in
    let read = block-eq levels base_order max_order t (1 * 2 ^ m + q - 1) (omega (arith, inside)) in
    let mut =
      block_mut-eq levels base_order max_order t (1 * 2 ^ m + q - 1) (new_free order)
        (omega (arith, inside)) in
    let below : ltb (1 * 2 ^ m + q) (2 ^ levels - 1) ≡ true =
      lt→ltb (1 * 2 ^ m + q) (2 ^ levels - 1) (omega (arith, inside)) in
    rw
      (
        le→leb order max_order le,
        shift,
        index,
        below,
        read,
        eq→== (t (1 * 2 ^ m + q - 1)) 0 g.was,
        mut,
        g.rose,
      )
      (returns (g.stands, g.same))
  where
    commuted : (a c : ℕ) → a + c ≡ c + a
    commuted a c = omega arith

-- In an array of exactly the tree, deallocate of the last block of order 0 panics, whatever the array
-- holds.
pub deallocate-last :
    (base_order max_order : ℕ) (t : FlatBlocks)
    → deallocate (max_order + 1) base_order max_order t ((2 ^ max_order - 1) * 2 ^ base_order) 0
      ≡ panic
unfolding deallocate blocks_in_tree
deallocate-last base_order max_order t =
    let q = 2 ^ max_order - 1 in
    let shift : q * 2 ^ base_order / 2 ^ (0 + base_order) ≡ q =
      ap (λ o. q * 2 ^ base_order / 2 ^ o) (none_more base_order)
      ∙ mul-div_cancel q (pow_pos base_order) in
    let level : max_order - 0 ≡ max_order = omega arith in
    let double : 2 ^ (max_order + 1) ≡ 2 ^ max_order * 2 =
      ap (λ o. 2 ^ o) (next max_order) ∙ pow-suc 2 max_order in
    let outside : ltb (2 ^ max_order - 1 + q + 1) (2 ^ (max_order + 1) - 1) ≡ false =
      le→ltb (2 ^ max_order - 1 + q + 1) (2 ^ (max_order + 1) - 1)
        (omega (arith, double, pow_pos max_order)) in
    rw (le→leb 0 max_order (omega arith), level, shift, outside) refl
  where
    none_more : (a : ℕ) → 0 + a ≡ a
    none_more a = omega arith

    next : (a : ℕ) → a + 1 ≡ suc a
    next a = omega arith

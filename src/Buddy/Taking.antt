-- ===== src/Buddy/Taking.antt =====
-- `allocate` on the array takes the block that `take` takes in the abstract view.
use native.Mathlib.Nat.{pow-suc, pow-le-pow_right}
use mathlib.Core.Path.{subst}
use uni_alloc.Base.{
  ℕ, zero, suc, ◌+◌, ◌-◌, ◌*◌, ◌/◌, ◌^◌, ◌<◌, ◌≤◌, ◌≡◌, refl, ap, ◌∙◌, sym, true, false, not, ◌&&◌,
  ◌||◌, ltb, ◌==◌, if◌then◌else◌, arith, inl, inr, ◌⊎◌, Bool-cases, lt→ltb, ltb→lt, none, some,
}
use uni_alloc.Base.Run.{ok, Returns, returns}
use uni_alloc.Base.Words.{add64}
use uni_alloc.Buddy.{
  FlatBlocks, max, set_block, block, block_mut, blocks_in_tree, left_child, parent, descend,
  climb_step, climb, allocate,
}
use uni_alloc.Buddy.Space.{
  Space, free, taken, split, value, both_free, place, take, value_le, value_top, IsTake,
  take-IsTake,
}
use uni_alloc.Buddy.Nodes.{
  Stands, Stands-value, Stands-frame, Stands-taken, Stands-split, Stands-IsNormal, SameBut,
  SameBut-right, SameBut-left, SameBut-above, under_self, under,
}

pub pow_pos : (k : ℕ) → 0 < 2 ^ k
pow_pos zero = omega arith
pow_pos (suc k) = omega (arith, pow-suc 2 k, pow_pos k)

pub pow_sum : (m x : ℕ) → 2 ^ (m + x) ≡ 2 ^ m * 2 ^ x
pow_sum zero x =
    let none_more : zero + x ≡ x = omega arith in
    let one : 2 ^ x ≡ 2 ^ zero * 2 ^ x = omega arith in ap (λ y. 2 ^ y) none_more ∙ one
pow_sum (suc m) x =
    let next : suc m + x ≡ suc (m + x) = omega arith in
    ap (λ y. 2 ^ y) next
    ∙ pow-suc 2 (m + x)
    ∙ double (2 ^ (m + x)) (2 ^ m) (2 ^ suc m) (2 ^ x) (pow_sum m x) (pow-suc 2 m)
  where
    double : (s p q r : ℕ) → s ≡ p * r → q ≡ p * 2 → s * 2 ≡ q * r
    double s p q r e f = grind arith

mul_ge : (a p q : ℕ) → 0 < p → a * p ≤ q → a ≤ q
mul_ge a p q pos h = grind arith

halves :
    (p p' q n : ℕ)
    → p' ≡ p * 2
    → (n + 1) * p' ≤ q
    → ((2 * n + 1) * p ≤ q) × ((2 * n + 1 + 1) * p ≤ q)
halves p p' q n e h = (grind arith, grind arith)

-- The two halves of a range of addresses.
rooms :
    (addr m x : ℕ)
    → 0 < x
    → addr + 2 ^ suc m * x ≤ 2 ^ 64
    → (addr + 2 ^ m * x ≤ 2 ^ 64)
      × (addr + 2 ^ m * x + 2 ^ m * x ≤ 2 ^ 64)
      × (add64 addr (2 ^ m * x) ≡ addr + 2 ^ m * x)
rooms addr m x pos h =
    let both = doubled (2 ^ m) (2 ^ suc m) (pow-suc 2 m) in
    let some_room : 2 ^ m ≤ 2 ^ m * x = grind (arith, pos) in
    (omega (arith, h, both), omega (arith, h, both), omega (arith, h, both, some_room, pow_pos m))
  where
    doubled : (p p' : ℕ) → p' ≡ p * 2 → p' * x ≡ p * x + p * x
    doubled p p' f = rw f (grind arith)

module _ (levels base_order max_order : ℕ) where
  -- The subtree of `n` with order `k` lies in the array.
  abbrev pub Fits : ℕ → ℕ → Type 0
  Fits n k = (n + 1) * 2 ^ k ≤ 2 ^ levels

  pub Fits-node : (n k : ℕ) → Fits n k → n < 2 ^ levels
  Fits-node n k h = omega (arith, mul_ge (n + 1) (2 ^ k) (2 ^ levels) (pow_pos k) h)

  pub Fits-left : (n k : ℕ) → Fits n (suc k) → Fits (2 * n) k
  Fits-left n k h = (halves (2 ^ k) (2 ^ suc k) (2 ^ levels) n (pow-suc 2 k) h).0

  pub Fits-right : (n k : ℕ) → Fits n (suc k) → Fits (2 * n + 1) k
  Fits-right n k h = (halves (2 ^ k) (2 ^ suc k) (2 ^ levels) n (pow-suc 2 k) h).1

  pub block-eq :
      (t : FlatBlocks) (i : ℕ)
      → i + 1 < 2 ^ levels
      → block levels base_order max_order t i ≡ ok (t i)
  unfolding block blocks_in_tree
  block-eq t i h = rw (lt→ltb i (2 ^ levels - 1) (omega arith)) refl

  pub block_mut-eq :
      (t : FlatBlocks) (i v : ℕ)
      → i + 1 < 2 ^ levels
      → block_mut levels base_order max_order t i v ≡ ok (set_block t i v)
  unfolding block_mut blocks_in_tree
  block_mut-eq t i v h = rw (lt→ltb i (2 ^ levels - 1) (omega arith)) refl

  -- A round of the way up from a child of `n`.
  climb_step-eq :
      (n c : ℕ) (t : FlatBlocks)
      → (c ≡ 2 * n) ⊎ (c ≡ 2 * n + 1)
      → 0 < n
      → 2 * n + 1 < 2 ^ levels
      → climb_step levels base_order max_order c t
        ≡ ok (n, set_block t (n - 1) (max (t (2 * n - 1)) (t (2 * n))))
  unfolding climb_step parent
  climb_step-eq n c t child pos h =
      let up : c / 2 ≡ n = elim child [ inl e ↦ omega (arith, e) | inr e ↦ omega (arith, e) ] in
      let even : n * 2 ≡ 2 * n = omega arith in
      rw
        (
          up,
          even,
          block-eq t (2 * n - 1) (omega arith),
          block-eq t (2 * n) (omega arith),
          block_mut-eq t (n - 1) (max (t (2 * n - 1)) (t (2 * n))) (omega arith),
        )
        refl

  -- The way down from `n` and the way up again, with the block at the end taken.
  pub record IsWent (m d k n level addr : ℕ) (t : FlatBlocks) (b : Space) : Type 0 where
    pub leaf : ℕ
    pub after : FlatBlocks
    pub leaf_eq : leaf ≡ n * 2 ^ m + place m d k b
    pub fits : leaf < 2 ^ levels
    pub went :
        descend levels base_order max_order m level d n addr t
        ≡ ok (leaf, addr + place m d k b * 2 ^ (base_order + d))
    pub came : climb levels base_order max_order m leaf (set_block t (leaf - 1) 0) ≡ ok (n, after)
    pub stands : Stands after n k (take m d k b)
    pub same : SameBut n k t after

  pub set_block-SameBut :
      (t : FlatBlocks) (n k v : ℕ) → 0 < n → SameBut n k t (set_block t (n - 1) v)
  unfolding set_block
  set_block-SameBut t n k v pos x xpos out =
      ground (arith, under_self k n, ap (λ y. under k n y) {x = n} {y = x})

  IsWent-zero :
      (d k n level addr : ℕ) (t : FlatBlocks) (b : Space)
      → 0 < n
      → Fits n k
      → k ≡ d
      → Stands t n k b
      → d < value k b
      → IsWent zero d k n level addr t b
  IsWent-zero d k n level addr t b pos fits e st h =
      let whole : b ≡ free = value_top k b (Stands-IsNormal t n k b st) (omega (arith, h)) in
      unfold place take descend climb in
      record {
        leaf = n;
        after = set_block t (n - 1) 0;
        leaf_eq = omega arith;
        fits = Fits-node n k fits;
        went = ap (λ a. ok (n, a)) (omega arith);
        came = refl;
        stands = Stands-taken t n k pos (subst (λ c. Stands t n k c) whole st);
        same = set_block-SameBut t n k 0 pos;
      }

  module _ (m d k n level addr : ℕ) (t : FlatBlocks) (l r : Space) (pos : 0 < n)
      (fits : Fits n (suc k)) (e : k ≡ d + m) (depth : level + suc k ≡ max_order)
      (low : Stands t (2 * n) k l) (high : Stands t (2 * n + 1) k r) where
    half-eq : 2 ^ (base_order + max_order - level - 1) ≡ 2 ^ m * 2 ^ (base_order + d)
    half-eq =
        let order : base_order + max_order - level - 1 ≡ m + (base_order + d) = omega arith in
        ap (λ x. 2 ^ x) order ∙ pow_sum m (base_order + d)

    -- Up from a child.
    module _ (c : ℕ) (child : (c ≡ 2 * n) ⊎ (c ≡ 2 * n + 1)) (leaf : ℕ) (s : FlatBlocks)
        (came : climb levels base_order max_order m leaf (set_block t (leaf - 1) 0)
          ≡ ok (c, s)) where
      came_up :
          climb levels base_order max_order (suc m) leaf (set_block t (leaf - 1) 0)
          ≡ ok (n, set_block s (n - 1) (max (s (2 * n - 1)) (s (2 * n))))
      unfolding climb
      came_up =
          rw came (climb_step-eq n c s child pos (Fits-node (2 * n + 1) k (Fits-right n k fits)))

    node_left : (q : ℕ) → 2 * n * 2 ^ m + q ≡ n * 2 ^ suc m + q
    node_left q = nodes (2 ^ m) (2 ^ suc m) (pow-suc 2 m)
      where
        nodes : (p p' : ℕ) → p' ≡ p * 2 → 2 * n * p + q ≡ n * p' + q
        nodes p p' f = rw f (grind arith)

    node_right : (q : ℕ) → (2 * n + 1) * 2 ^ m + q ≡ n * 2 ^ suc m + (2 ^ m + q)
    node_right q = nodes (2 ^ m) (2 ^ suc m) (pow-suc 2 m)
      where
        nodes : (p p' : ℕ) → p' ≡ p * 2 → (2 * n + 1) * p + q ≡ n * p' + (p + q)
        nodes p p' f = rw f (grind arith)

    go_left : (o : ℕ) → o ≡ value k l → (not (o == 0) && ltb d o) ≡ ltb d (value k l)
    go_left o same = ground (arith, same)

    read_left : block levels base_order max_order t (2 * n - 1) ≡ ok (t (2 * n - 1))
    read_left =
        let inside = Fits-node (2 * n + 1) k (Fits-right n k fits) in
        block-eq t (2 * n - 1) (omega (arith, inside))

    went_left :
        (leaf : ℕ) (b : Space)
        → place (suc m) d (suc k) b ≡ place m d k l
        → ltb d (value k l) ≡ true
        → descend levels base_order max_order m (suc level) d (2 * n) addr t
          ≡ ok (leaf, addr + place m d k l * 2 ^ (base_order + d))
        → descend levels base_order max_order (suc m) level d n addr t
          ≡ ok (leaf, addr + place (suc m) d (suc k) b * 2 ^ (base_order + d))
    unfolding descend left_child
    went_left leaf b place_eq left went =
        let test = go_left (t (2 * n - 1)) (Stands-value t (2 * n) k l low) ∙ left in
        rw (place_eq, read_left, test) went

    went_right :
        (leaf : ℕ) (b : Space)
        → place (suc m) d (suc k) b ≡ 2 ^ m + place m d k r
        → ltb d (value k l) ≡ false
        → add64 addr (2 ^ m * 2 ^ (base_order + d)) ≡ addr + 2 ^ m * 2 ^ (base_order + d)
        → descend levels base_order max_order m
            (suc level)
            d
            (2 * n + 1)
            (addr + 2 ^ m * 2 ^ (base_order + d))
            t
          ≡ ok (leaf, addr + 2 ^ m * 2 ^ (base_order + d) + place m d k r * 2 ^ (base_order + d))
        → descend levels base_order max_order (suc m) level d n addr t
          ≡ ok (leaf, addr + place (suc m) d (suc k) b * 2 ^ (base_order + d))
    unfolding descend left_child
    went_right leaf b place_eq right no_wrap went =
        let test = go_left (t (2 * n - 1)) (Stands-value t (2 * n) k l low) ∙ right in
        rw (read_left, test, half-eq, no_wrap)
          (went
            ∙ ap (λ a. ok (leaf, a))
                (sums (2 ^ m) (place m d k r) (2 ^ (base_order + d)) (place (suc m) d (suc k) b)
                  place_eq))
      where
        sums : (p q x r : ℕ) → r ≡ p + q → addr + p * x + q * x ≡ addr + r * x
        sums p q x r f = grind arith

    IsWent-left :
        (b : Space)
        → place (suc m) d (suc k) b ≡ place m d k l
        → take (suc m) d (suc k) b ≡ split (take m d k l) r
        → both_free (take m d k l) r ≡ false
        → ltb d (value k l) ≡ true
        → IsWent m d k (2 * n) (suc level) addr t l
        → IsWent (suc m) d (suc k) n level addr t b
    IsWent-left b place_eq take_eq apart left w = record {
      leaf = w.leaf;
      after = set_block w.after (n - 1) (max (w.after (2 * n - 1)) (w.after (2 * n)));
      leaf_eq = w.leaf_eq ∙ node_left (place m d k l) ∙ ap (λ q. n * 2 ^ suc m + q) (sym place_eq);
      fits = w.fits;
      went = went_left w.leaf b place_eq left w.went;
      came = came_up (2 * n) (inl refl) w.leaf w.after w.came;
      stands = rw take_eq (
          Stands-split w.after n k (take m d k l) r pos apart w.stands
            (Stands-frame t w.after (2 * n + 1) k r (SameBut-right t w.after n k pos w.same) high));
      same =
          SameBut-above t w.after n (2 * n) k (max (w.after (2 * n - 1)) (w.after (2 * n)))
            (inl refl) pos w.same;
    }

    IsWent-right :
        (b : Space)
        → place (suc m) d (suc k) b ≡ 2 ^ m + place m d k r
        → take (suc m) d (suc k) b ≡ split l (take m d k r)
        → both_free l (take m d k r) ≡ false
        → ltb d (value k l) ≡ false
        → add64 addr (2 ^ m * 2 ^ (base_order + d)) ≡ addr + 2 ^ m * 2 ^ (base_order + d)
        → IsWent m d k (2 * n + 1) (suc level) (addr + 2 ^ m * 2 ^ (base_order + d)) t r
        → IsWent (suc m) d (suc k) n level addr t b
    IsWent-right b place_eq take_eq apart right no_wrap w = record {
      leaf = w.leaf;
      after = set_block w.after (n - 1) (max (w.after (2 * n - 1)) (w.after (2 * n)));
      leaf_eq = w.leaf_eq ∙ node_right (place m d k r) ∙ ap (λ q. n * 2 ^ suc m + q) (sym place_eq);
      fits = w.fits;
      went = went_right w.leaf b place_eq right no_wrap w.went;
      came = came_up (2 * n + 1) (inr refl) w.leaf w.after w.came;
      stands = rw take_eq (
          Stands-split w.after n k l (take m d k r) pos apart
            (Stands-frame t w.after (2 * n) k l (SameBut-left t w.after n k pos w.same) low)
            w.stands);
      same =
          SameBut-above t w.after n (2 * n + 1) k (max (w.after (2 * n - 1)) (w.after (2 * n)))
            (inr refl) pos w.same;
    }

  -- The way down and up from a node whose bytes stand for a space with a free block of order `d`.
  pub taking :
      (m d k n level addr : ℕ) (t : FlatBlocks) (b : Space)
      → 0 < n
      → Fits n k
      → k ≡ d + m
      → level + k ≡ max_order
      → addr + 2 ^ m * 2 ^ (base_order + d) ≤ 2 ^ 64
      → Stands t n k b
      → d < value k b
      → IsWent m d k n level addr t b
  unfolding place take value max
  taking zero d k n level addr t b pos fits e depth room st h =
      IsWent-zero d k n level addr t b pos fits (omega arith) st h
  taking (suc m) d zero n level addr t b pos fits e depth room st h = absurd (omega arith)
  taking (suc m) d (suc k) n level addr t free pos fits e depth room (st, low, high) h =
      let order : k ≡ d + m = omega arith in
      IsWent-left m d k n level addr t free free pos fits order depth low high free refl refl
        (IsTake.other (take-IsTake m d k free order tt (omega arith)) free).0
        (lt→ltb d (suc k) (omega arith))
        (taking m d k (2 * n) (suc level) addr t free (omega arith) (Fits-left n k fits) order
          (omega arith) (rooms addr m (2 ^ (base_order + d)) (pow_pos (base_order + d)) room).0 low
          (omega arith))
  taking (suc m) d (suc k) n level addr t taken pos fits e depth room st h = absurd (omega arith)
  taking (suc m) d (suc k) n level addr t (split l r) pos fits e depth room (st, apart, low, high)
        h =
      let order : k ≡ d + m = omega arith in
      let half = 2 ^ m * 2 ^ (base_order + d) in
      elim (Bool-cases (ltb d (value k l))) [
        | inl left ↦
            IsWent-left m d k n level addr t l r pos fits order depth low high (split l r)
              (rw left refl) (rw left refl)
              ((IsTake.other
                (take-IsTake m d k l order (Stands-IsNormal t (2 * n) k l low)
                  (ltb→lt d (value k l) left))
                r).0)
              left
              (taking m d k (2 * n) (suc level) addr t l (omega arith) (Fits-left n k fits) order
                (omega arith)
                (rooms addr m (2 ^ (base_order + d)) (pow_pos (base_order + d)) room).0 low
                (ground arith))
        | inr right ↦
            IsWent-right m d k n level addr t l r pos fits order depth low high (split l r)
              (rw right refl) (rw right refl)
              ((IsTake.other
                (take-IsTake m d k r order (Stands-IsNormal t (2 * n + 1) k r high) (ground arith))
                l).1)
              right ((rooms addr m (2 ^ (base_order + d)) (pow_pos (base_order + d)) room).2)
              (taking m d k (2 * n + 1) (suc level) (addr + half) t r (omega arith)
                (Fits-right n k fits) order (omega arith)
                (rooms addr m (2 ^ (base_order + d)) (pow_pos (base_order + d)) room).1 high
                (ground arith))
      ]

pub whole_tree : (levels max_order : ℕ) → max_order < levels → (1 + 1) * 2 ^ max_order ≤ 2 ^ levels
whole_tree levels max_order h =
    let mono : 2 ^ suc max_order ≤ 2 ^ levels = pow-le-pow_right (omega arith) h in
    omega (arith, mono, pow-suc 2 max_order)

all_room :
    (base_order max_order m d : ℕ)
    → m + d ≡ max_order
    → base_order + max_order < 64
    → 0 + 2 ^ m * 2 ^ (base_order + d) ≤ 2 ^ 64
all_room base_order max_order m d e small =
    let mono : 2 ^ (m + (base_order + d)) ≤ 2 ^ 64 =
      pow-le-pow_right (omega arith) {i = m + (base_order + d)} {j = 64} (omega arith) in
    omega (arith, mono, pow_sum m (base_order + d))

-- In an array that holds the whole tree, of blocks of fewer than 64 address bits: without a free
-- block of the order asked for, allocate returns none and changes nothing; otherwise it returns the
-- address of the block that `take` takes, the bytes of the tree stand for the space without it, and
-- no other byte changes.
pub allocate-Stands :
    (levels base_order max_order desired_order : ℕ) (t : FlatBlocks) (b : Space)
    → max_order < levels
    → base_order + max_order < 64
    → Stands t 1 max_order b
    → let m = max_order - desired_order in
      Returns
        (λ (p, t').
          if ltb desired_order (value max_order b)
          then (p ≡ some (place m desired_order max_order b * 2 ^ (base_order + desired_order)))
            × Stands t' 1 max_order (take m desired_order max_order b)
            × SameBut 1 max_order t t'
          else (p ≡ none) × (t' ≡ t))
        (allocate levels base_order max_order t desired_order)
unfolding allocate
allocate-Stands levels base_order max_order d t b fits small st =
    let m = max_order - d in
    let root : t 0 ≡ value max_order b = Stands-value t 1 max_order b st in
    let inside = whole_tree levels max_order fits in
    let read =
      block-eq levels base_order max_order t 0
        (omega (arith, Fits-node levels base_order max_order 1 max_order inside)) in
    elim (Bool-cases (ltb d (value max_order b))) [
      | inl room ↦
          let test : ((t 0 == 0) || ltb (t 0 - 1) d) ≡ false = ground (arith, root) in
          let most = value_le max_order b in
          let order : d ≤ max_order = ground (arith, most) in
          let w =
            taking levels base_order max_order m d max_order 1 0 0 t b (omega arith) inside
              (omega arith) (omega arith) (all_room base_order max_order m d (omega arith) small) st
              (ltb→lt d (value max_order b) room) in
          let mut =
            block_mut-eq levels base_order max_order t (w.leaf - 1) 0
              (omega (arith, w.fits, w.leaf_eq, pow_pos m)) in
          rw (room, read, test, w.went, mut, w.came)
            (returns (ap (λ a. some a) (omega arith), w.stands, w.same))
      | inr full ↦
          let test : ((t 0 == 0) || ltb (t 0 - 1) d) ≡ true = ground (arith, root) in
          rw (full, read, test) (returns (refl, refl))
    ]

-- ===== src/Buddy/Nodes.antt =====
-- The array as a tree: which nodes are below a node, and the space that the bytes stand for.
use uni_alloc.Base.{
  ℕ, zero, suc, ◌+◌, ◌-◌, ◌*◌, ◌/◌, ◌<◌, ◌≤◌, ◌≡◌, ◌≢◌, refl, ap, ◌∙◌, sym, Bool, true, false, ◌||◌,
  ltb, ◌==◌, arith, inl, inr, ◌⊎◌, Bool-cases, ==→eq,
}
use uni_alloc.Buddy.{FlatBlocks, max, set_block}
use uni_alloc.Buddy.Space.{Space, free, taken, split, value, both_free, IsNormal}

-- `x` is the node `n` or one of the `k` levels below it.
unfoldable pub under : ℕ → ℕ → ℕ → Bool
under zero n x = n == x
under (suc k) n x = (n == x) || (under k (2 * n) x || under k (2 * n + 1) x)

-- The node `j` levels above `x`.
up : ℕ → ℕ → ℕ
up zero x = x
up (suc j) x = up j x / 2

under-up : (k n x : ℕ) → under k n x ≡ true → (j : ℕ) × (up j x ≡ n)
unfolding under up
under-up zero n x h = (0, ground arith)
under-up (suc k) n x h = elim (Bool-cases (n == x)) [
  | inl here ↦ (0, ground arith)
  | inr below ↦ elim (Bool-cases (under k (2 * n) x)) [
    | inl left ↦ let (j, e) = under-up k (2 * n) x left in (suc j, omega (arith, e))
    | inr right ↦ let (j, e) = under-up k (2 * n + 1) x (ground arith) in (suc j, omega (arith, e))
  ]
]

up_lt : (i j x : ℕ) → i < j → up j x ≤ up i x / 2
unfolding up
up_lt i zero x h = absurd (omega arith)
up_lt i (suc j) x h = elim (Bool-cases (i == j)) [
  | inl same ↦ ground (arith, ap (λ k. up k x) (==→eq i j same))
  | inr less ↦ omega (arith, up_lt i j x (ground arith))
]

-- A node has one place on its way up, so the subtrees of two children are apart.
up-apart : (i j x n : ℕ) → 0 < n → up i x ≡ 2 * n → up j x ≡ 2 * n + 1 → ⊥
up-apart i j x n pos e f = elim (Bool-cases (i == j)) [
  | inl same ↦ absurd (omega (arith, e, f, ap (λ k. up k x) (==→eq i j same)))
  | inr differ ↦ elim (Bool-cases (ltb i j)) [
    | inl below ↦ absurd (omega (arith, e, f, up_lt i j x (ground arith)))
    | inr above ↦ absurd (omega (arith, e, f, up_lt j i x (ground arith)))
  ]
]

up_le : (j x : ℕ) → up j x ≤ x
unfolding up
up_le zero x = omega arith
up_le (suc j) x = omega (arith, up_le j x)

pub under-apart : (k n x : ℕ) → 0 < n → under k (2 * n) x ≡ true → under k (2 * n + 1) x ≡ false
under-apart k n x pos h = elim (Bool-cases (under k (2 * n + 1) x)) [
  | inl both ↦
      let (i, e) = under-up k (2 * n) x h in
      let (j, f) = under-up k (2 * n + 1) x both in absurd (up-apart i j x n pos e f)
  | inr apart ↦ apart
]

-- A node is above its children.
pub under_above : (k n c : ℕ) → n < c → under k c n ≡ false
under_above k n c h = elim (Bool-cases (under k c n)) [
  | inl inside ↦ let (j, e) = under-up k c n inside in absurd (omega (arith, e, up_le j n))
  | inr outside ↦ outside
]

pub under_self : (k n : ℕ) → under k n n ≡ true
unfolding under
under_self zero n = ground arith
under_self (suc k) n = ground arith

under_pos : (k n x : ℕ) → 0 < n → under k n x ≡ true → 0 < x
under_pos k n x pos h = let (j, e) = under-up k n x h in omega (arith, e, up_le j x)

-- The bytes of the node `n`, of order `k`, and of the nodes below it stand for a space. Below a
-- block that is out as a whole the bytes are those of a free block.
abbrev pub Stands : FlatBlocks → ℕ → ℕ → Space → Type 0
Stands t n zero free = t (n - 1) ≡ 1
Stands t n zero taken = t (n - 1) ≡ 0
Stands t n zero (split l r) = ⊥
Stands t n (suc k) free =
    (t (n - 1) ≡ suc (suc k)) × Stands t (2 * n) k free × Stands t (2 * n + 1) k free
Stands t n (suc k) taken = (t (n - 1) ≡ 0) × Stands t (2 * n) k free × Stands t (2 * n + 1) k free
Stands t n (suc k) (split l r) =
    (t (n - 1) ≡ max (value k l) (value k r))
    × (both_free l r ≡ false)
    × Stands t (2 * n) k l
    × Stands t (2 * n + 1) k r

pub Stands-value : (t : FlatBlocks) (n k : ℕ) (b : Space) → Stands t n k b → t (n - 1) ≡ value k b
unfolding value
Stands-value t n zero free s = s
Stands-value t n zero taken s = s
Stands-value t n zero (split l r) s = absurd s
Stands-value t n (suc k) free s = s.0
Stands-value t n (suc k) taken s = s.0
Stands-value t n (suc k) (split l r) s = s.0

-- `t` and `s` have the same bytes at the nodes of the subtree, or at the nodes outside it.
abbrev pub SameUnder : ℕ → ℕ → FlatBlocks → FlatBlocks → Type 0
SameUnder n k t s = (x : ℕ) → under k n x ≡ true → s (x - 1) ≡ t (x - 1)

abbrev pub SameBut : ℕ → ℕ → FlatBlocks → FlatBlocks → Type 0
SameBut n k t s = (x : ℕ) → 0 < x → under k n x ≡ false → s (x - 1) ≡ t (x - 1)

pub Stands-frame :
    (t s : FlatBlocks) (n k : ℕ) (b : Space) → SameUnder n k t s → Stands t n k b → Stands s n k b
Stands-frame t s n zero free same h = same n (under_self 0 n) ∙ h
Stands-frame t s n zero taken same h = same n (under_self 0 n) ∙ h
Stands-frame t s n zero (split l r) same h = h
Stands-frame t s n (suc k) free same (h, l, r) = (
  same n (under_self (suc k) n) ∙ h,
  Stands-frame t s (2 * n) k free (λ x i. same x (unfold under in ground arith)) l,
  Stands-frame t s (2 * n + 1) k free (λ x i. same x (unfold under in ground arith)) r,
)
Stands-frame t s n (suc k) taken same (h, l, r) = (
  same n (under_self (suc k) n) ∙ h,
  Stands-frame t s (2 * n) k free (λ x i. same x (unfold under in ground arith)) l,
  Stands-frame t s (2 * n + 1) k free (λ x i. same x (unfold under in ground arith)) r,
)
Stands-frame t s n (suc k) (split a b) same (h, apart, l, r) = (
  same n (under_self (suc k) n) ∙ h,
  apart,
  Stands-frame t s (2 * n) k a (λ x i. same x (unfold under in ground arith)) l,
  Stands-frame t s (2 * n + 1) k b (λ x i. same x (unfold under in ground arith)) r,
)

-- A change of the byte of `n` leaves the subtree of a child as it is.
pub Stands-set_above :
    (t : FlatBlocks) (n c k v : ℕ) (b : Space)
    → 0 < n
    → n < c
    → Stands t c k b
    → Stands (set_block t (n - 1) v) c k b
unfolding set_block
Stands-set_above t n c k v b pos above h =
    Stands-frame t (set_block t (n - 1) v) c k b
      (λ x i. ground (arith, under_pos k c x (omega arith) i, under-ne k c n x above i)) h
  where
    under-ne : (k c n x : ℕ) → n < c → under k c x ≡ true → n ≢ x
    under-ne k c n x above i e = ground (arith, under_above k n c above, ap (λ y. under k c y) e)

pub set_block_self : (t : FlatBlocks) (i v : ℕ) → set_block t i v i ≡ v
unfolding set_block
set_block_self t i v = ground arith

-- What stands at the children of a block that is not out as a whole.
pub Stands-taken :
    (t : FlatBlocks) (n k : ℕ)
    → 0 < n
    → Stands t n k free
    → Stands (set_block t (n - 1) 0) n k taken
Stands-taken t n zero pos h = set_block_self t (n - 1) 0
Stands-taken t n (suc k) pos (h, l, r) = (
  set_block_self t (n - 1) 0,
  Stands-set_above t n (2 * n) k 0 free pos (omega arith) l,
  Stands-set_above t n (2 * n + 1) k 0 free pos (omega arith) r,
)

pub Stands-split :
    (t : FlatBlocks) (n k : ℕ) (l r : Space)
    → 0 < n
    → both_free l r ≡ false
    → Stands t (2 * n) k l
    → Stands t (2 * n + 1) k r
    → Stands (set_block t (n - 1) (max (t (2 * n - 1)) (t (2 * n)))) n (suc k) (split l r)
Stands-split t n k l r pos apart a b =
    let v = max (t (2 * n - 1)) (t (2 * n)) in
    let high : t (2 * n) ≡ value k r = ap t (omega arith) ∙ Stands-value t (2 * n + 1) k r b in
    (
      set_block_self t (n - 1) v ∙ rw (Stands-value t (2 * n) k l a, high) refl,
      apart,
      Stands-set_above t n (2 * n) k v l pos (omega arith) a,
      Stands-set_above t n (2 * n + 1) k v r pos (omega arith) b,
    )

-- The two subtrees below `n` keep what they stand for when the other one changes.
pub SameBut-right :
    (t s : FlatBlocks) (n k : ℕ) → 0 < n → SameBut (2 * n) k t s → SameUnder (2 * n + 1) k t s
SameBut-right t s n k pos same x i =
    same x (under_pos k (2 * n + 1) x (omega arith) i) (ground (arith, under-apart k n x pos))

pub SameBut-left :
    (t s : FlatBlocks) (n k : ℕ) → 0 < n → SameBut (2 * n + 1) k t s → SameUnder (2 * n) k t s
SameBut-left t s n k pos same x i =
    same x (under_pos k (2 * n) x (omega arith) i) (ground (arith, under-apart k n x pos))

-- A change below a child, then of the node, is one of its subtree.
pub SameBut-above :
    (t s : FlatBlocks) (n c k v : ℕ)
    → (c ≡ 2 * n) ⊎ (c ≡ 2 * n + 1)
    → 0 < n
    → SameBut c k t s
    → SameBut n (suc k) t (set_block s (n - 1) v)
unfolding under set_block
SameBut-above t s n c k v child pos same x xpos out =
    let below : under k c x ≡ false = elim child [
      | inl e ↦ ground (arith, ap (λ y. under k y x) e)
      | inr e ↦ ground (arith, ap (λ y. under k y x) e)
    ] in
    ground (arith, same x xpos below)

-- What stands at a node is normal, and determines the bytes of the subtree.
pub Stands-IsNormal : (t : FlatBlocks) (n k : ℕ) (b : Space) → Stands t n k b → IsNormal k b
Stands-IsNormal t n zero free s = tt
Stands-IsNormal t n zero taken s = tt
Stands-IsNormal t n zero (split l r) s = s
Stands-IsNormal t n (suc k) free s = tt
Stands-IsNormal t n (suc k) taken s = tt
Stands-IsNormal t n (suc k) (split l r) (h, apart, a, b) =
    (apart, Stands-IsNormal t (2 * n) k l a, Stands-IsNormal t (2 * n + 1) k r b)

SameUnder-node :
    (t s : FlatBlocks) (n k : ℕ)
    → s (n - 1) ≡ t (n - 1)
    → SameUnder (2 * n) k t s
    → SameUnder (2 * n + 1) k t s
    → SameUnder n (suc k) t s
unfolding under
SameUnder-node t s n k h l r x i = elim (Bool-cases (n == x)) [
  | inl here ↦ ground (
    arith,
    h,
    ap (λ (y : ℕ). s (y - 1)) (==→eq n x here),
    ap (λ (y : ℕ). t (y - 1)) (==→eq n x here),
  )
  | inr below ↦ elim (Bool-cases (under k (2 * n) x)) [
    | inl left ↦ l x left
    | inr right ↦ r x (ground arith)
  ]
]

same_leaf :
    (t s : FlatBlocks) (n x v : ℕ)
    → under 0 n x ≡ true
    → t (n - 1) ≡ v
    → s (n - 1) ≡ v
    → s (x - 1) ≡ t (x - 1)
unfolding under
same_leaf t s n x v i a b =
    let e : n ≡ x = ==→eq n x i in
    ap (λ (y : ℕ). s (y - 1)) (sym e) ∙ b ∙ sym a ∙ ap (λ (y : ℕ). t (y - 1)) e

pub Stands-unique :
    (t s : FlatBlocks) (n k : ℕ) (b : Space) → Stands t n k b → Stands s n k b → SameUnder n k t s
Stands-unique t s n zero free a b = λ x i. same_leaf t s n x 1 i a b
Stands-unique t s n zero taken a b = λ x i. same_leaf t s n x 0 i a b
Stands-unique t s n zero (split l r) a b = absurd a
Stands-unique t s n (suc k) free a b =
    SameUnder-node t s n k (b.0 ∙ sym (a.0)) (Stands-unique t s (2 * n) k free a.1 b.1)
      (Stands-unique t s (2 * n + 1) k free a.2 b.2)
Stands-unique t s n (suc k) taken a b =
    SameUnder-node t s n k (b.0 ∙ sym (a.0)) (Stands-unique t s (2 * n) k free a.1 b.1)
      (Stands-unique t s (2 * n + 1) k free a.2 b.2)
Stands-unique t s n (suc k) (split l r) a b =
    SameUnder-node t s n k (b.0 ∙ sym (a.0)) (Stands-unique t s (2 * n) k l a.2 b.2)
      (Stands-unique t s (2 * n + 1) k r a.3 b.3)

-- ===== src/Memory/Chain.antt =====
-- Chains of chunks: each word holds the address of the next chunk.
use uni_alloc.Base.{
  ℕ, ◌≡◌, refl, Bool, true, false, ◌||◌, List, [], ◌∷◌, ◌++◌, arith, ◌==◌, ◌∙◌, ap, Bool-cases, inl,
  inr, ==→eq,
}
use uni_alloc.Memory.{Memory, write}
use mathlib.Core.Bool.{or_assoc}

abbrev pub has : ℕ → List ℕ → Bool
has a [] = false
has a (x ∷ xs) = (a == x) || has a xs

-- From `p` the words lead through the chunks `xs` to `q`.
abbrev pub Chain : Memory → ℕ → List ℕ → ℕ → Type 0
Chain m p [] q = p ≡ q
Chain m p (x ∷ xs) q = (p ≡ x) × Chain m (m x) xs q

abbrev pub IsDistinct : List ℕ → Type 0
IsDistinct [] = Unit {0}
IsDistinct (x ∷ xs) = (has x xs ≡ false) × IsDistinct xs

-- `n` and `m` differ at most at the addresses in `xs`.
abbrev pub SameOutside : List ℕ → Memory → Memory → Type 0
SameOutside xs m n = (a : ℕ) → has a xs ≡ false → n a ≡ m a

pub has-append : (a : ℕ) (xs ys : List ℕ) → has a (xs ++ ys) ≡ (has a xs || has a ys)
has-append a [] ys = refl
has-append a (x ∷ xs) ys = rw (has-append a xs ys, or_assoc)

-- A chain survives a change that spares its own chunks.
pub Chain-frame :
    (m n : Memory) (p : ℕ) (xs : List ℕ) (q : ℕ)
    → ((a : ℕ) → has a xs ≡ true → n a ≡ m a)
    → Chain m p xs q
    → Chain n p xs q
Chain-frame m n p [] q same c = c
Chain-frame m n p (x ∷ xs) q same c =
    let tail = Chain-frame m n (m x) xs q (λ a h. same a (ground arith)) c.1 in
    (c.0, rw (same x (ground arith)) tail)

pub Chain-write :
    (m : Memory) (p : ℕ) (xs : List ℕ) (q a v : ℕ)
    → has a xs ≡ false
    → Chain m p xs q
    → Chain (write m a v) p xs q
unfolding write
Chain-write m p xs q a v out c = Chain-frame m (write m a v) p xs q (λ b h. ground arith) c

pub Chain-append :
    (m : Memory) (p : ℕ) (xs : List ℕ) (q : ℕ) (ys : List ℕ) (r : ℕ)
    → Chain m p xs q
    → Chain m q ys r
    → Chain m p (xs ++ ys) r
Chain-append m p [] q ys r c d = rw c d
Chain-append m p (x ∷ xs) q ys r c d = (c.0, Chain-append m (m x) xs q ys r c.1 d)

pub write_self : (m : Memory) (a v : ℕ) → write m a v a ≡ v
unfolding write
write_self m a v = ground arith

pub write_other : (m : Memory) (a v b : ℕ) → (a == b) ≡ false → write m a v b ≡ m b
unfolding write
write_other m a v b h = ground arith

-- What is in a list is not what is outside it.
pub has_ne : (b a : ℕ) (xs : List ℕ) → has b xs ≡ true → has a xs ≡ false → (b == a) ≡ false
has_ne b a xs h o = ground (arith, has_eq b a xs)
  where
    has_eq : (b a : ℕ) (xs : List ℕ) → b ≡ a → has b xs ≡ has a xs
    has_eq b a xs e = rw e

pub ne_has : (a b : ℕ) (xs : List ℕ) → has a xs ≡ false → has b xs ≡ true → (a == b) ≡ false
ne_has a b xs o h = ground (arith, has_ne b a xs)

pub write_other_two :
    (m : Memory) (a v c w b : ℕ)
    → (a == b) ≡ false
    → (c == b) ≡ false
    → write (write m a v) c w b ≡ m b
write_other_two m a v c w b e f = rw (write_other (write m a v) c w b f) (write_other m a v b e)

pub write_in :
    (m : Memory) (a v b : ℕ) (xs : List ℕ)
    → has a xs ≡ true
    → has b xs ≡ false
    → write m a v b ≡ m b
write_in m a v b xs h k = write_other m a v b (has_ne a b xs h k)

-- A new chunk `p` that points at the head of a chain.
pub Chain-cons_write :
    (m : Memory) (p : ℕ) (xs : List ℕ) (q r : ℕ)
    → has p xs ≡ false
    → Chain m q xs r
    → Chain (write m p q) p (p ∷ xs) r
Chain-cons_write m p xs q r out c = (refl, rw (write_self m p q) (Chain-write m q xs r p q out c))

pub SameOutside-write : (m : Memory) (p v : ℕ) → SameOutside (p ∷ []) m (write m p v)
unfolding write
SameOutside-write m p v a h = ground arith

-- A chain to null begins at null exactly when it is empty.
pub head_of_Chain : (m : Memory) (p x : ℕ) (xs : List ℕ) (q : ℕ) → Chain m p (x ∷ xs) q → p ≡ x
head_of_Chain m p x xs q c = c.0

-- The last of the chunks `x ∷ xs`.
unfoldable pub last_of : ℕ → List ℕ → ℕ
last_of x [] = x
last_of x (y ∷ ys) = last_of y ys

pub has-last_of : (x : ℕ) (xs : List ℕ) → has (last_of x xs) (x ∷ xs) ≡ true
unfolding last_of
has-last_of x [] = ground arith
has-last_of x (y ∷ ys) = ground (arith, has-last_of y ys)

-- No address of the one list is in the other.
abbrev pub Apart : List ℕ → List ℕ → Type 0
Apart xs ys = (a : ℕ) → has a xs ≡ true → has a ys ≡ false

pub IsDistinct-append :
    (xs ys : List ℕ) → IsDistinct xs → IsDistinct ys → Apart xs ys → IsDistinct (xs ++ ys)
IsDistinct-append [] ys a b apart = b
IsDistinct-append (x ∷ xs) ys a b apart = (
  rw (has-append x xs ys) (ground (arith, apart x)),
  IsDistinct-append xs ys a.1 b (λ c h. apart c (ground arith)),
)

pub IsDistinct-split :
    (xs : List ℕ) (x : ℕ) (ys : List ℕ)
    → IsDistinct (xs ++ (x ∷ ys))
    → (has x xs ≡ false) × IsDistinct (xs ++ ys) × (has x ys ≡ false)
IsDistinct-split [] x ys d = (refl, d.1, d.0)
IsDistinct-split (z ∷ zs) x ys (out, d) =
    let (no_xs, rest, no_ys) = IsDistinct-split zs x ys d in
    let outs = rw (has-append z zs (x ∷ ys)) at out in
    (ground arith, (rw (has-append z zs ys) (ground arith), rest), no_ys)

-- The two parts of a distinct list are distinct and share nothing.
pub IsDistinct-parts :
    (xs ys : List ℕ) → IsDistinct (xs ++ ys) → IsDistinct xs × IsDistinct ys × Apart xs ys
IsDistinct-parts [] ys d = (tt, d, λ a h. cc)
IsDistinct-parts (x ∷ xs) ys (out, d) =
    let (front, back, apart) = IsDistinct-parts xs ys d in
    let outs = rw (has-append x xs ys) at out in
    (
      (ground arith, front),
      back,
      λ a h. elim (Bool-cases (a == x)) [
        | inl e ↦ ap (λ b. has b ys) (==→eq a x e) ∙ ground arith
        | inr n ↦ apart a (ground arith)
      ],
    )

pub Apart-right : (xs ys : List ℕ) (a : ℕ) → Apart xs ys → has a ys ≡ true → has a xs ≡ false
Apart-right xs ys a apart h = ground (arith, apart a)

-- ===== src/Radix/Bottom.antt =====
-- `RadixBottomNode`: an array of 2^18 values, each an `i64` as a bit pattern.
use uni_alloc.Base.{
  ℕ, zero, suc, ◌+◌, ◌/◌, ◌%◌, ◌^◌, ◌≤◌, ◌≡◌, ap, lt→ltb, ltb, leb, ◌&&◌, ◌==◌, if◌then◌else◌,
  arith,
}
use uni_alloc.Base.Run.{Run, ok, panic}
use uni_alloc.Base.Words.{add64}
use mathlib.Core.Path.{fun_ext}

-- The values by index.
abbrev pub Node : Type 0
Node = ℕ → ℕ

-- The length of the arrays on both levels.
abbrev pub width : ℕ
width = 2 ^ 18

-- `(mask & k) >> 46`: the upper 18 bits of the key.
unfoldable pub index_of : ℕ → ℕ
index_of k = k % 2 ^ 64 / 2 ^ 46

unfoldable pub put {ℓ} : {A : Type ℓ} → (ℕ → A) → ℕ → A → ℕ → A
put f i v j = if j == i then v else f j

-- `for i in 0..n { self.nodes[idx + i] = v; }`, where an index outside the array panics.
pub fill : ℕ → ℕ → ℕ → Node → Run Node
unfolding put
fill zero idx v node = ok node
fill (suc n) idx v node =
    let rest = fill n (add64 idx 1) v (put node idx v) in if ltb idx width then rest else panic

unfoldable pub insert : ℕ → ℕ → ℕ → Node → Run Node
insert k v n node = fill n (index_of k) v node

unfoldable pub remove : ℕ → ℕ → Node → Run Node
remove k n node = fill n (index_of k) 0 node

-- An index of 18 bits is inside the array.
unfoldable pub get_mut : ℕ → Node → ℕ
get_mut k node = node (index_of k)

-- The array with `v` at the `n` places from `idx` on.
abbrev pub filled : ℕ → ℕ → ℕ → Node → Node
filled n idx v node j = if leb idx j && ltb j (idx + n) then v else node j

pub fill-filled :
    (n idx v : ℕ) (node : Node) → idx + n ≤ width → fill n idx v node ≡ ok (filled n idx v node)
unfolding fill put
fill-filled zero idx v node h = ap ok (fun_ext λ j. ground arith)
fill-filled (suc n) idx v node h =
    let next : add64 idx 1 ≡ idx + 1 = omega arith in
    let rest = fill-filled n (idx + 1) v (put node idx v) (omega arith) in
    rw (lt→ltb idx width (omega arith), next, rest) (ap ok (fun_ext λ j. ground arith))

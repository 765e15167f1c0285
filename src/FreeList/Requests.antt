-- ===== src/FreeList/Requests.antt =====
-- The list that `alloc` and `free` of the page backend look at for a size.
use uni_alloc.Base.{ℕ, ◌+◌, ◌*◌, ◌^◌, ◌≡◌, ◌≤◌, ◌<◌, arith}
use uni_alloc.FreeList.{index_for}

-- A size of more than `i` pages that fits in `i + 1` pages has the list of blocks of `i + 1` pages.
pub index_for-eq :
    (size i : ℕ)
    → i * 4096 < size
    → size ≤ (i + 1) * 4096
    → size + 4095 < 2 ^ 64
    → index_for size ≡ i
unfolding index_for
index_for-eq size i more fits word = omega arith

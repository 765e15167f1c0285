-- ===== src/Allocator.antt =====
-- unialloc/src/cache/mod.rs: `RustAllocator`, which serves a program from the cache of its thread. The
-- bytes of blocks that are out are kept apart from the words of free chunks, which are in the zone. A
-- layout is its size and its alignment.
pub mod Realloc
mod Examples
use uni_alloc.Base.{ℕ, ◌+◌, ◌-◌, Bool, ◌&&◌, ltb, leb, ◌==◌, if◌then◌else◌}
use uni_alloc.Base.Run.{Run, ok, ◌>>=◌}
use uni_alloc.SizeClass.{get_size_class, index}
use uni_alloc.Zone.{ZoneCalls}
use uni_alloc.Cache.{ThreadCache}
use uni_alloc.Cache

-- `GlobalTcache`, the zone, and the bytes that the program keeps in its blocks.
pub record RustAllocator (Z : Type 0) : Type 0 where
  pub cache : ThreadCache
  pub zone : Z
  pub bytes : ℕ → ℕ

-- `ptr::copy_nonoverlapping(src, dst, count)`
pub copy_nonoverlapping : ℕ → ℕ → ℕ → (ℕ → ℕ) → ℕ → ℕ
copy_nonoverlapping src dst count bytes a =
    if leb dst a && ltb (a - dst) count then bytes (src + (a - dst)) else bytes a

pub min : ℕ → ℕ → ℕ
min a b = if leb a b then a else b

module _ {Z : Type 0} (c : ZoneCalls Z) where
  -- The address, 0 if there is none.
  pub alloc : ℕ → ℕ → RustAllocator Z → Run (ℕ × RustAllocator Z)
  alloc size align s = do
    (r, t, z) ← Cache.allocate c size align s.cache s.zone
    ok (r, record s { cache = t; zone = z })

  pub dealloc : ℕ → ℕ → RustAllocator Z → Run (RustAllocator Z)
  dealloc ptr size s = do
    (t, z) ← Cache.deallocate c ptr size s.cache s.zone
    ok (record s { cache = t; zone = z })

  -- The block moves to one of another class.
  pub move_block : ℕ → ℕ → ℕ → ℕ → RustAllocator Z → Run (ℕ × RustAllocator Z)
  move_block ptr size align new_size s = do
    (new_ptr, s1) ← alloc new_size align s
    let moved = do
      s2 ←
          dealloc ptr size
            (record s1 { bytes = copy_nonoverlapping ptr new_ptr (min size new_size) s1.bytes })
      ok (new_ptr, s2)
      in if new_ptr == 0 then ok (new_ptr, s1) else moved

  pub realloc : ℕ → ℕ → ℕ → ℕ → RustAllocator Z → Run (ℕ × RustAllocator Z)
  realloc ptr size align new_size s = do
    old_class ← get_size_class size
    new_class ← get_size_class new_size
    let moved = move_block ptr size align new_size s in
        if index old_class == index new_class then ok (ptr, s) else moved

  -- The address and the length of the slice.
  unfoldable allocate : ℕ → ℕ → RustAllocator Z → Run ((ℕ × ℕ) × RustAllocator Z)
  allocate size align s = do (p, s') ← alloc size align s; ok ((p, size), s')

  unfoldable deallocate : ℕ → ℕ → RustAllocator Z → Run (RustAllocator Z)
  deallocate ptr size s = dealloc ptr size s

-- ===== src/Allocator/Realloc.antt =====
-- `realloc` of cache/mod.rs: when a block may stay where it is, and what moves when it may not.
use uni_alloc.Base.{
  ℕ, ◌+◌, ◌-◌, ◌<◌, ◌≤◌, lt→ltb, le→ltb, le→leb, lt→leb, ◌^◌, ◌≡◌, ◌≢◌, ◌⊎◌, refl, sym, ◌∙◌, ap,
  List, ◌++◌, arith, ◌==◌, leb, length, Bool-cases, inl, inr, ne→==, eq→==, ==→eq, set,
}
use uni_alloc.Base.Array.{get_or, get_elem?-get_or, get_or-set, length-set}
use uni_alloc.Base.Run.{Returns, returns, Returns-inv, ok}
use uni_alloc.Base.Words.{add64}
use uni_alloc.Memory.{write}
use uni_alloc.Memory.Chain.{write_self}
use uni_alloc.Linklist.{push_unchecked}
use uni_alloc.Linklist.Laws.{first_aligned}
use uni_alloc.SizeClass.{max_size, base, large, get_size_class, get_rounded_size, index, size_entry}
use uni_alloc.SizeClass.Fit.{IsBestFit}
use uni_alloc.SizeClass.Rounding.{
  entry-lt, get_size_class-inside, get_size_class_tuple-small, get_size_class_tuple-large,
}
use uni_alloc.Zone.{ZoneCalls}
use uni_alloc.Cache.{
  ThreadCacheUnit, ThreadCache, new, unit_allocate, unit_deallocate, allocate_class,
  deallocate_class,
}
use uni_alloc.Cache
use uni_alloc.Cache.Units.{IsStore}
use uni_alloc.Cache.Reuse.{IsCached, unit_allocate-IsTaken}
use uni_alloc.Allocator.{
  RustAllocator, copy_nonoverlapping, min, alloc, dealloc, move_block, realloc,
}

-- The class of any size.
Class : ℕ → Type 0
Class size =
    ((i s : ℕ) × (get_size_class size ≡ ok (base i))
      × (i < 64)
      × IsBestFit size i s
      × (get_rounded_size size ≡ ok s))
    ⊎ ((max_size < size) × (get_size_class size ≡ ok (large size)))

class_of : (size : ℕ) → Class size
unfolding Class get_size_class
class_of size = elim (Bool-cases (leb size max_size)) [
  | inl small ↦
      let ((cl, s), e, ((i, f, best), g, h)) =
        Returns-inv (get_size_class_tuple-small size (ground arith)) in
      inl (i, s, rw g (ap (λ k. ok k) f), entry-lt i s best.entry, best, h)
  | inr big ↦
      let (g, _, _) = get_size_class_tuple-large size (ground arith) in
      inr (ground arith, rw g refl)
]

smaller : (i n : ℕ) → i < n → i ≢ n
smaller i n h e = omega arith

same_chunk :
    {size new_size i j r r' : ℕ} → IsBestFit size i r → IsBestFit new_size j r' → i ≡ j → r ≡ r'
same_chunk best best' same = ground (arith, best.entry, best'.entry, ap size_entry same)

module _ {Z : Type 0} (c : ZoneCalls Z) (ptr size align new_size : ℕ) (s : RustAllocator Z) where
  -- For any two sizes, `realloc` does one of two things: it returns the same block and changes nothing,
  -- and then the size is the same or the chunk of its class holds the new size too; or it moves the
  -- block.
  pub realloc-stays :
      ((realloc c ptr size align new_size s ≡ ok (ptr, s))
        × ((size ≡ new_size) ⊎ Returns (λ r. new_size ≤ r) (get_rounded_size size)))
      ⊎ (realloc c ptr size align new_size s ≡ move_block c ptr size align new_size s)
  unfolding realloc index Class
  realloc-stays = elim (class_of size) [
    | inl (i, r, e, le, best, f) ↦ elim (class_of new_size) [
      | inl (j, r', e', le', best', f') ↦ elim (Bool-cases (i == j)) [
        | inl same ↦
            rw (e, e', same, f)
              (inl (
                refl,
                inr (returns (omega (arith, best'.fits, same_chunk best best' (==→eq i j same)))),
              ))
        | inr other ↦ rw (e, e', other) (inr refl)
      ]
      | inr (big, e') ↦ rw (e, e', ne→== i new_size (smaller i new_size (omega arith))) (inr refl)
    ]
    | inr (big, e) ↦ elim (class_of new_size) [
      | inl (j, r', e', le', best', f') ↦
          rw (e, e', ne→== size j (λ f. smaller j size (omega arith) (sym f))) (inr refl)
      | inr (big', e') ↦ elim (Bool-cases (size == new_size)) [
        | inl same ↦ rw (e, e', same) (inl (refl, inl (==→eq size new_size same)))
        | inr other ↦ rw (e, e', other) (inr refl)
      ]
    ]
  ]

-- What a move leaves: the block `p` has the bytes of the old one, other bytes are as they were, and the
-- old block is the first on the free list of its class.
pub record IsMoved {Z : Type 0} (c : ZoneCalls Z) (ptr n i p : ℕ) (s : RustAllocator Z)
    (r : ℕ × RustAllocator Z) : Type 0 where
  pub moved : r.0 ≡ p
  pub copied : (k : ℕ) → k < n → r.1.bytes (p + k) ≡ s.bytes (ptr + k)
  pub others : (a : ℕ) → (a < p) ⊎ (p + n ≤ a) → r.1.bytes a ≡ s.bytes a
  pub first : (get_or new r.1.cache i).list.link ≡ ptr
  pub longer : (get_or new r.1.cache i).list.length ≡ (get_or new s.cache i).list.length + 1
  pub linked : c.memory r.1.zone ptr ≡ (get_or new s.cache i).list.link

module _ (src dst n : ℕ) (bytes : ℕ → ℕ) where
  copied_bytes : (k : ℕ) → k < n → copy_nonoverlapping src dst n bytes (dst + k) ≡ bytes (src + k)
  unfolding copy_nonoverlapping
  copied_bytes k h =
      let back : dst + k - dst ≡ k = omega arith in
      rw (le→leb dst (dst + k) (omega arith), back, lt→ltb k n h) refl

  other_bytes :
      (a : ℕ) → (a < dst) ⊎ (dst + n ≤ a) → copy_nonoverlapping src dst n bytes a ≡ bytes a
  unfolding copy_nonoverlapping
  other_bytes a (inl h) = rw (lt→leb dst a h) refl
  other_bytes a (inr h) = rw (le→leb dst a (omega arith), le→ltb (a - dst) n (omega arith)) refl

module _ (ptr i : ℕ) (t : ThreadCache) (inside : i < length t) where
  abbrev given : ThreadCacheUnit
  given =
      let v = get_or new t i in
      record v { list = record { link = ptr; length = add64 v.list.length 1 } }

  given_back : get_or new (set t i given) i ≡ given
  given_back = rw (get_or-set new t i i given inside, eq→== i i refl) refl

module _ {Z : Type 0} (c : ZoneCalls Z) (ptr i : ℕ) (t : ThreadCache) (z : Z) (ne : ptr ≢ 0)
    (pos : 0 < i) (inside : i < length t) where
  deallocate_class-given :
      (size : ℕ)
      → deallocate_class c (base i) ptr size t z
        ≡ ok (
          set t i (given ptr i t inside),
          c.with_memory (write (c.memory z) ptr (get_or new t i).list.link) z,
        )
  unfolding deallocate_class unit_deallocate push_unchecked
  deallocate_class-given size =
      rw (ne→== i 0 (omega arith), get_elem?-get_or new t i inside, ne→== ptr 0 ne) refl

-- On a store, with a cache of 64 units whose lists are shorter than 2^64 - 1 chunks, for sizes from 1
-- to MAX_SIZE of different classes and a block that is not null, if the unit of the new class caches a chunk with the alignment:
-- `realloc` returns the first such chunk, with the bytes of the old block up to the smaller size, and the
-- old block is then the first on the free list of its class.
pub realloc-IsMoved :
    {Z : Type 0} (c : ZoneCalls Z)
    → IsStore c
    → (ptr size align new_size : ℕ) (s : RustAllocator Z) (xs ys : List ℕ) → ptr ≢ 0
    → 0 < size
    → size ≤ max_size
    → 0 < new_size
    → new_size ≤ max_size
    → get_size_class size ≢ get_size_class new_size
    → length s.cache ≡ 64
    → ((k : ℕ) → (get_or new s.cache k).list.length + 1 < 2 ^ 64)
    → ((j : ℕ)
        → get_size_class new_size ≡ ok (base j)
        → IsCached (c.memory s.zone) (get_or new s.cache j) xs ys)
    → first_aligned align (xs ++ ys) ≢ 0
    → (i : ℕ) × (get_size_class size ≡ ok (base i))
      × Returns
          (IsMoved c ptr (min size new_size) i (first_aligned align (xs ++ ys)) s)
          (realloc c ptr size align new_size s)
unfolding realloc move_block alloc dealloc Cache.allocate Cache.deallocate allocate_class index
realloc-IsMoved c store ptr size align new_size s xs ys ne p q p' q' differ all few cached found =
    let (i, r, e, pos, inside, best) = get_size_class-inside size p q in
    let (j, r', e', pos', inside', best') = get_size_class-inside new_size p' q' in
    let other : i ≢ j = λ f. differ (e ∙ ap (λ (k : ℕ). ok (base k)) f ∙ sym e') in
    let here = get_elem?-get_or new s.cache j (omega arith) in
    let ((a, u, z), f, taken) = Returns-inv (
      unit_allocate-IsTaken c store j align (get_or new s.cache j) xs ys s.zone (cached j e')
        found) in
    let t1 = set s.cache j u in
    let n = min size new_size in
    let inside1 : i < length t1 = rw (length-set s.cache j u) (omega arith) in
    let kept : get_or new t1 i ≡ get_or new s.cache i =
      rw (get_or-set new s.cache j i u (omega arith), ne→== j i (λ g. other (sym g))) refl in
    let back = given_back ptr i t1 inside1 in
    (
      i,
      e,
      rw
          (
            e,
            e',
            ne→== i j other,
            ne→== j 0 (omega arith),
            here,
            f,
            ne→== a 0 (λ g. found (sym taken.found ∙ g)),
            deallocate_class-given c ptr i t1 z ne pos inside1 size,
          )
          (returns (record {
            moved = taken.found;
            copied = λ k h. rw (sym taken.found) (copied_bytes ptr a n s.bytes k h);
            others = λ b h. other_bytes ptr a n s.bytes b (rw taken.found h);
            first = rw back refl;
            longer = rw (back, kept) (omega (arith, few i));
            linked =
                rw (store.read, kept)
                  (write_self (c.memory z) ptr (get_or new s.cache i).list.link);
          })),
    )

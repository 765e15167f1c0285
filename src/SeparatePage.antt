-- ===== src/SeparatePage.antt =====
-- unialloc/src/page/separate_page.rs: the header of a slab whose chunks are counted in a bit field
-- outside the slab. The backend is that of Page.Backing; `page_size` is PAGE_SIZE.
pub mod Fit
pub mod Trips
mod Examples
use uni_alloc.Base.{
  ℕ, zero, suc, ◌+◌, ◌-◌, ◌*◌, ◌/◌, ◌%◌, ◌^◌, Bool, true, false, not, ◌&&◌, ◌||◌, ltb, leb, ◌==◌,
  if◌then◌else◌, List, [], ◌∷◌, Option, none, some, get_elem?, set, length,
}
use uni_alloc.Base.Array.{replicate}
use uni_alloc.Base.Run.{Run, ok, panic, assert, expect, ◌>>=◌, ◌>>◌}
use uni_alloc.Base.Words.{add64, sub64, mul64}
use uni_alloc.Memory.{is_aligned}
use uni_alloc.Bitfield.{u32_max, bit, set_bit, clear_bit, trailing_ones}

-- `data_start` is the field `data`.
pub record ObjectPage : Type 0 where
  pub counter : ℕ
  pub data_start : ℕ

abbrev pub new : ObjectPage
new = record { counter = 0; data_start = 0 }

unfoldable pub is_inited : ObjectPage → Bool
is_inited s = not (s.data_start == 0)

unfoldable pub get_data_ptr : ObjectPage → Run ℕ
get_data_ptr s = if is_inited s then ok s.data_start else panic

unfoldable pub is_full : ObjectPage → ℕ → Bool
is_full s pg_count = leb pg_count s.counter

unfoldable pub is_empty : ObjectPage → Bool
is_empty s = s.counter == 0

unfoldable pub allocate_all : ObjectPage → List ℕ → ℕ → ℕ × ObjectPage × List ℕ
allocate_all s bitfield pg_count =
    (s.data_start, record s { counter = pg_count }, replicate (length bitfield) u32_max)

-- `deallocate`: `none` is the error EDBFRE. The index of the chunk divides by `pg_align`, so 0
-- panics.
unfoldable pub deallocate : ObjectPage → ℕ → List ℕ → ℕ → Run (Option (ObjectPage × List ℕ))
deallocate s ptr bitfield pg_align = do
  assert (not (pg_align == 0))
  let num = sub64 ptr s.data_start / pg_align
  bitval ← expect (get_elem? bitfield (num / 32))
  ok (
      if bit (num % 32) bitval
      then some (
        record s { counter = sub64 s.counter 1 },
        set bitfield (num / 32) (clear_bit (num % 32) bitval),
      )
      else none)

-- How the search of one word ends: with the bit `place` and its index and address; with no further
-- search; or with the next word.
pub data Probe : Type 0 where
  hit : (place idx addr : ℕ) → Probe
  stop : Probe
  next_word : Probe

module _ (page_size : ℕ) where
  module _ {Backend : Type 0} (alloc : Backend → ℕ → ℕ × Backend)
      (dealloc : Backend → ℕ → ℕ → Backend) where
    unfoldable pub allocate_page : ObjectPage → ℕ → Backend → Run (ℕ × ObjectPage × Backend)
    allocate_page s pg_num b = do
      let (ans, b') = alloc b (mul64 page_size pg_num)
      assert (not (ans == 0))
      ok (ans, record s { data_start = ans }, b')

    unfoldable pub destroy_page : ObjectPage → ℕ → Backend → Run (ℕ × ObjectPage × Backend)
    destroy_page s pg_num b =
        if is_inited s
        then ok (
          s.data_start,
          record s { data_start = 0 },
          dealloc b s.data_start (mul64 page_size pg_num),
        )
        else panic

  module _ (base_addr align pg_count pg_align pg_num : ℕ) where
    -- The inner loop of `first_fit` on the word `bitval`, over `left` further places from
    -- `first_free` on; the places end at 32.
    unfoldable pub probe : ℕ → ℕ → ℕ → ℕ → Probe
    probe zero base_idx bitval first_free = next_word
    probe (suc left) base_idx bitval first_free =
        let rest = probe left base_idx bitval (suc first_free) in
        let idx = base_idx * 32 + first_free in
        let offset = mul64 idx pg_align in
        let addr = add64 base_addr offset in
        if ltb pg_count idx
        then stop
        else if ltb (mul64 page_size pg_num) (add64 offset pg_align)
        then stop
        else if is_aligned align addr && not (bit first_free bitval)
        then hit first_free idx addr
        else rest

    -- The outer loop, over the words from `base_idx` on.
    unfoldable pub first_fit_from : ℕ → List ℕ → Option (ℕ × ℕ × List ℕ)
    first_fit_from base_idx [] = none
    first_fit_from base_idx (bitval ∷ words) =
        let rest : Option (ℕ × ℕ × List ℕ) = elim (first_fit_from (suc base_idx) words) [
          | none ↦ none
          | some (idx, addr, words') ↦ some (idx, addr, bitval ∷ words')
        ] in
        let ones = trailing_ones 32 bitval in
        let found : Option (ℕ × ℕ × List ℕ) = elim (probe (32 - ones) base_idx bitval ones) [
          | hit place idx addr ↦ some (idx, addr, set_bit place bitval ∷ words)
          | stop ↦ none
          | next_word ↦ rest
        ] in
        if bitval == u32_max then rest else found

    unfoldable pub first_fit : List ℕ → Option (ℕ × ℕ × List ℕ)
    first_fit bitfield = first_fit_from 0 bitfield

  -- Null if there is no chunk.
  unfoldable pub allocate : ObjectPage → ℕ → List ℕ → ℕ → ℕ → ℕ → ℕ × ObjectPage × List ℕ
  allocate s align bitfield pg_count pg_align pg_num =
      let found : ℕ × ObjectPage × List ℕ =
        elim (first_fit s.data_start align pg_count pg_align pg_num bitfield) [
          | none ↦ (0, s, bitfield)
          | some (idx, addr, bitfield') ↦
              (addr, record s { counter = add64 s.counter 1 }, bitfield')
        ] in
      if leb pg_count s.counter then (0, s, bitfield) else found

  -- The loop of `deallocate_batch` over the array: how many chunks came back.
  pub take_back_from : ℕ → ℕ → ℕ → List ℕ → List ℕ → ℕ → Run (ℕ × List ℕ)
  take_back_from base_addr pg_align pg_num [] bitfield ans = ok (ans, bitfield)
  take_back_from base_addr pg_align pg_num (ptr ∷ ptrs) bitfield ans =
      let one = do
        assert (not (pg_align == 0))
        let num = (ptr - base_addr) / pg_align
        bitval ← expect (get_elem? bitfield (num / 32))
        assert (bit (num % 32) bitval)
        take_back_from base_addr pg_align pg_num ptrs
            (set bitfield (num / 32) (clear_bit (num % 32) bitval)) (add64 ans 1)
      in if ltb ptr base_addr || leb (mul64 pg_num page_size) (ptr - base_addr)
        then ok (ans, bitfield)
        else one

  unfoldable pub deallocate_batch :
      ObjectPage → List ℕ → List ℕ → ℕ → ℕ → Run (ℕ × ObjectPage × List ℕ)
  deallocate_batch s res_array bitfield pg_align pg_num = do
    (ans, bitfield') ← take_back_from s.data_start pg_align pg_num res_array bitfield 0
    ok (ans, record s { counter = sub64 s.counter ans }, bitfield')

-- The variables of the loops of `allocate_batch`; `done` says that it returned.
pub record Batch : Type 0 where
  pub done : Bool
  pub allocated : ℕ
  pub counter : ℕ
  pub res_array : List ℕ

module _ (data_addr start count pg_count pg_align : ℕ) where
  -- One place of a word. A write past the end of `res_array` panics.
  unfoldable pub batch_place : ℕ → ℕ → ℕ → Batch → Run (ℕ × Batch)
  batch_place base_idx first_free bitval b =
      let idx = base_idx * 32 + first_free in
      let one = do
        assert (ltb (add64 start b.allocated) (length b.res_array))
        ok (
          set_bit first_free bitval,
          record {
            done = leb count (add64 b.allocated 1);
            allocated = add64 b.allocated 1;
            counter = add64 b.counter 1;
            res_array =
                set b.res_array (add64 start b.allocated) (add64 data_addr (mul64 idx pg_align));
          },
        )
      in if bit first_free bitval
        then ok (bitval, b)
        else if leb pg_count idx
        then ok (bitval, record b { done = true })
        else one

  pub batch_word : ℕ → ℕ → ℕ → ℕ → Batch → Run (ℕ × Batch)
  batch_word zero base_idx first_free bitval b = ok (bitval, b)
  batch_word (suc left) base_idx first_free bitval b = do
    (bitval', b') ← batch_place base_idx first_free bitval b
    if b'.done then ok (bitval', b') else batch_word left base_idx (suc first_free) bitval' b'

  pub batch_words : ℕ → List ℕ → Batch → Run (List ℕ × Batch)
  batch_words base_idx [] b = ok ([], b)
  batch_words base_idx (bitval ∷ words) b = do
    let ones = trailing_ones 32 bitval
    (bitval', b') ←
        if bitval == u32_max then ok (bitval, b) else batch_word (32 - ones) base_idx ones bitval b
    let rest = do (words', b'') ← batch_words (suc base_idx) words b'; ok (bitval' ∷ words', b'')
    if b'.done then ok (bitval' ∷ words, b') else rest

unfoldable pub allocate_batch :
    ObjectPage → List ℕ → ℕ → ℕ → List ℕ → ℕ → ℕ → Run (ℕ × List ℕ × ObjectPage × List ℕ)
allocate_batch s res_array start count bitfield pg_count pg_align =
    let b : Batch = record {
      done = false;
      allocated = 0;
      counter = s.counter;
      res_array = res_array;
    } in
    let filled = do
      (bitfield', b') ← batch_words s.data_start start count pg_count pg_align 0 bitfield b
      ok (b'.allocated, b'.res_array, record s { counter = b'.counter }, bitfield')
    in if leb pg_count s.counter then panic else filled

-- ===== src/Linklist.antt =====
-- unialloc/src/mm/linklist.rs: the singly linked free list of a thread cache.
mod Examples
pub mod Laws
use uni_alloc.Base.{ℕ, zero, suc, ◌+◌, Bool, not, ◌==◌, if◌then◌else◌, List, [], ◌∷◌}
use uni_alloc.Base.Run.{Run, ok, out_of_fuel, assert, ◌>>=◌, ◌>>◌}
use uni_alloc.Base.Words.{add64, sub64}
use uni_alloc.Memory.{Memory, write, is_aligned}

pub record Linklist : Type 0 where
  pub link : ℕ
  pub length : ℕ

abbrev pub new : Linklist
new = record { link = 0; length = 0 }

-- A push of null fails the debug assertion, or faults at the write.
unfoldable pub push_unchecked : Linklist → ℕ → Memory → Run (Linklist × Memory)
push_unchecked l ptr m = do
  assert (not (ptr == 0))
  ok (record { link = ptr; length = add64 l.length 1 }, write m ptr l.link)

-- The loop of `pop_unchecked_aligned` over `pre` and `now`. It takes one round for each chunk
-- behind the first and one more, so as many rounds as the list has chunks are enough.
pub scan : ℕ → ℕ → Linklist → Memory → ℕ → ℕ → Run (ℕ × Linklist × Memory)
scan zero align l m pre now = out_of_fuel
scan (suc fuel) align l m pre now =
    let rest = scan fuel align l m now (m now) in
    let unlinked = ok (now, record l { length = sub64 l.length 1 }, write m pre (m now)) in
    if now == 0 then ok (now, l, m) else if is_aligned align now then unlinked else rest

unfoldable pub pop_unchecked_aligned : Linklist → ℕ → Memory → Run (ℕ × Linklist × Memory)
pop_unchecked_aligned l align m =
    let popped = ok (l.link, record { link = m l.link; length = sub64 l.length 1 }, m) in
    let search = scan l.length align l m l.link (m l.link) in
    if l.length == 0
    then ok (0, l, m)
    else do assert (not (l.link == 0)); if is_aligned align l.link then popped else search

-- ===== src/ArrayList.antt =====
-- unialloc/src/collections/linklist.rs: doubly linked lists inside a vector of triples
-- (prev, next, item). Here the vector is kept by component: the items as a list, whose length is
-- that of the vector, and the links by index, read and written only below that length.
pub mod Links
mod Examples
use uni_alloc.Base.{
  ℕ, suc, zero, Bool, ltb, ◌==◌, if◌then◌else◌, Option, none, some, List, [], ◌∷◌, ◌++◌, length,
  get_elem?,
}
use uni_alloc.Base.Run.{Run, ok, panic, ◌>>=◌}
use uni_alloc.Base.Words.{sub64}

pub record ArrayLinkedList {ℓ} (A : Type ℓ) : Type ℓ where
  pub prev : ℕ → ℕ
  pub next : ℕ → ℕ
  pub items : List A

unfoldable pub update : (ℕ → ℕ) → ℕ → ℕ → ℕ → ℕ
update f i v j = if j == i then v else f j

module _ {ℓ} {A : Type ℓ} where
  abbrev pub new : ArrayLinkedList A
  new = record { prev = λ i. 0; next = λ i. 0; items = [] }

  unfoldable pub get : ArrayLinkedList A → ℕ → Option A
  get l idx = get_elem? l.items idx

  unfoldable pub get_prev : ArrayLinkedList A → ℕ → Run ℕ
  get_prev l idx = if ltb idx (length l.items) then ok (l.prev idx) else panic

  unfoldable pub get_next : ArrayLinkedList A → ℕ → Run ℕ
  get_next l idx = if ltb idx (length l.items) then ok (l.next idx) else panic

  unfoldable pub set_prev : ArrayLinkedList A → ℕ → ℕ → Run (ArrayLinkedList A)
  set_prev l curr new_prev =
      if ltb curr (length l.items)
      then ok (record l { prev = update l.prev curr new_prev })
      else panic

  unfoldable pub set_next : ArrayLinkedList A → ℕ → ℕ → Run (ArrayLinkedList A)
  set_next l curr new_next =
      if ltb curr (length l.items)
      then ok (record l { next = update l.next curr new_next })
      else panic

  unfoldable pub reset_links : ArrayLinkedList A → ℕ → Run (ArrayLinkedList A)
  reset_links l idx = do l1 ← set_prev l idx idx; set_next l1 idx idx

  unfoldable pub tail : ArrayLinkedList A → ℕ
  tail l = sub64 (length l.items) 1

  unfoldable pub push : ArrayLinkedList A → A → ArrayLinkedList A
  push l item = record {
    prev = update l.prev (length l.items) (length l.items);
    next = update l.next (length l.items) (length l.items);
    items = l.items ++ (item ∷ []);
  }

  unfoldable pub remove_node : ArrayLinkedList A → ℕ → Run (ArrayLinkedList A)
  remove_node l idx = do
    prev_idx ← get_prev l idx
    next_idx ← get_next l idx
    l1 ← set_prev l next_idx prev_idx
    l2 ← set_next l1 prev_idx next_idx
    l3 ← set_prev l2 idx idx
    set_next l3 idx idx

  -- `Vec::pop`: the last item and the items before it.
  abbrev pub vec_pop : List A → Option (A × List A)
  vec_pop [] = none
  vec_pop (x ∷ xs) = elim (vec_pop xs) [ none ↦ some (x, []) | some r ↦ some (r.0, x ∷ r.1) ]

  unfoldable pub pop : ArrayLinkedList A → Run (Option A × ArrayLinkedList A)
  pop l = do
    l1 ← remove_node l (tail l)
    elim (vec_pop l1.items) [
      | none ↦ ok (none, l1)
      | some r ↦ ok (some r.0, record l1 { items = r.1 })
    ]

  unfoldable pub insert_to_next : ArrayLinkedList A → ℕ → ℕ → Run (ArrayLinkedList A)
  insert_to_next l base idx = do
    next_idx ← get_next l base
    l1 ← set_prev l next_idx idx
    l2 ← set_next l1 base idx
    l3 ← set_next l2 idx next_idx
    set_prev l3 idx base

  unfoldable pub insert_to_prev : ArrayLinkedList A → ℕ → ℕ → Run (ArrayLinkedList A)
  insert_to_prev l base idx = do
    prev_idx ← get_prev l base
    l1 ← set_next l prev_idx idx
    l2 ← set_prev l1 base idx
    l3 ← set_next l2 idx base
    set_prev l3 idx prev_idx

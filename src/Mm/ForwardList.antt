-- ===== src/Mm/ForwardList.antt =====
-- kernel/src/mm/heap/slab_allocator/linked_list/forward_list.rs: the singly linked list whose nodes lie
-- in the memory that they manage. The memory is the `next` field of each node by its address; a null
-- pointer is 0.
pub mod Chain
mod Tests
use hecto_os.Base.{ℕ, zero, suc, Bool, not, Option, none, some, ◌==◌, if◌then◌else◌, ◌>>=◌, ◌>>◌}

abbrev pub Links : Type 0
Links = ℕ → ℕ

pub record ForwardList : Type 0 where
  pub head : ℕ
  pub next : Links

unfoldable pub set_next : Links → ℕ → ℕ → Links
set_next next node value = λ m. if m == node then value else next m

unfoldable pub new_list : Links → ForwardList
new_list next = record { head = 0; next = next }

unfoldable pub set_head : ℕ → ForwardList → ForwardList
set_head node l = record l { head = node }

unfoldable pub push_front : ℕ → ForwardList → ForwardList
unfolding set_next
push_front node l = record { head = node; next = set_next l.next node l.head }

-- The head must not be null.
unfoldable pub pop_front : ForwardList → Option ForwardList
unfolding set_next
pop_front l = do
  not (l.head == 0)
  some (record { head = l.next l.head; next = set_next l.next l.head 0 })

-- The loop of `remove` once `*prev` is not the head: `prev` is the next field of the node `at`. It
-- takes a null pointer for a panic, and one round of fuel for each node.
unfoldable pub remove_loop : ℕ → ℕ → ℕ → Links → Option Links
unfolding set_next
remove_loop zero node at next = none
remove_loop (suc fuel) node at next =
    let rest = remove_loop fuel node (next at) next in
    if next at == node
    then some (set_next next at (next node))
    else if next at == 0
    then none
    else rest

unfoldable pub remove_node : ℕ → ℕ → ForwardList → Option ForwardList
unfolding remove_loop
remove_node fuel node l =
    if l.head == node
    then some (record l { head = l.next node })
    else if l.head == 0
    then none
    else (do next ← remove_loop fuel node l.head l.next; some (record l { next = next }))

unfoldable pub insert_after : ℕ → ℕ → Links → Links
unfolding set_next
insert_after node new next = set_next (set_next next new (next node)) node new

unfoldable pub erase_after : ℕ → Links → Links
unfolding set_next
erase_after node next = set_next next node (next (next node))

unfoldable pub has_next : ℕ → Links → Bool
has_next node next = not (next node == 0)

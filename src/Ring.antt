-- ===== src/Ring.antt =====
-- The cyclic doubly-linked lists that every allocator keeps: `ring_link`, `ring_push_back` and
-- `ring_pop` of boxroot/boxroot.c, dll_boxroot.c, bitmap_boxroot.c and rem_boxroot.c, which differ
-- only in the type of the nodes. A node is an address, 0 is NULL, and the fields `prev` and `next`
-- of all nodes are two memories. An operation takes `*target` and returns its new value.
--
-- boxroot.c alone asserts more of `ring_push_back`: that the source is a single pool, is not the
-- target's first one and has its class. These assertions are `push_checked` of Boxroot/Collect.
pub mod Paths
pub mod PushBack
pub mod Pop
pub mod Walk
pub mod Rotate
pub mod Inside
mod Tests
use ocaml_boxroot.Prelude.{ℕ, zero, suc, ◌≡◌, Bool, List, [], ◌∷◌, upd, ◌==◌, if◌then◌else◌}

pub record Links : Type 0 where
  pub next : ℕ → ℕ
  pub prev : ℕ → ℕ

-- `p->next = q; q->prev = p;`
unfoldable pub ring_link : ℕ → ℕ → Links → Links
ring_link p q l = record { next = upd l.next p q; prev = upd l.prev q p }

-- Inserts the ring `source` at the back of `*target`, as dll_boxroot.c does.
unfoldable pub ring_push_back : ℕ → ℕ → Links → ℕ × Links
ring_push_back source target l =
    if source == 0
    then (target, l)
    else if target == 0
    then (source, l)
    else (target, ring_link (l.prev source) target (ring_link (l.prev target) source l))

-- Removes the first node of `*target`: the node, the new `*target` and the links.
unfoldable pub ring_pop : ℕ → Links → ℕ × ℕ × Links
ring_pop front l =
    if l.next front == front
    then (front, 0, ring_link front front l)
    else (front, l.next front, ring_link front front (ring_link (l.prev front) (l.next front) l))

-- The nodes that `p = start; do { ... p = p->next; } while (p != start);` comes by, in order.
unfoldable pub ring_walk : ℕ → Links → ℕ → ℕ → List ℕ
ring_walk zero l p start = []
ring_walk (suc f) l p start =
    let rest = ring_walk f l (l.next p) start in if l.next p == start then p ∷ [] else p ∷ rest

-- ===== src/Dll.antt =====
-- boxroot/dll_boxroot.c: every root is an element of a cyclic doubly-linked list of its own. A ring
-- of elements with young values, one with old values and one of free elements.
pub mod Scan
pub mod Invariant
pub mod Create
pub mod Delete
pub mod Modify
pub mod Visit
pub mod Validate
mod Tests
use ocaml_boxroot.Prelude.{
  ℕ, zero, suc, Bool, true, false, not, ◌||◌, List, [], ◌∷◌, Option, none, some, upd, ◌==◌,
  if◌then◌else◌,
}
use ocaml_boxroot.Words.{Runtime, is_young_block}
use ocaml_boxroot.Ring.{Links, ring_link, ring_push_back, ring_pop}

-- `rings`, `setup`, and the elements: `prev` and `next` are in `links`. `memory` are the answers
-- that `malloc` will give, 0 for NULL, and NULL behind the last; `freed` are the elements given
-- back, the latest first.
pub record Dll : Type 0 where
  pub young : ℕ
  pub old : ℕ
  pub free : ℕ
  pub links : Links
  pub slots : ℕ → ℕ
  pub memory : List ℕ
  pub freed : List ℕ
  pub setup : Bool

-- `ring_pop_elem`: the element leaves its ring, whichever it is.
unfoldable pub ring_pop_elem : ℕ → Dll → ℕ × Dll
ring_pop_elem elem s =
    let (prev, rest, l) = ring_pop elem s.links in
    (
      prev,
      record s {
        links = l;
        young = if s.young == prev then rest else s.young;
        old = if s.old == prev then rest else s.old;
      },
    )

-- `create_elem`: 0 is NULL.
unfoldable pub create_elem : Dll → ℕ × Dll
create_elem s =
    if not (s.free == 0)
    then (let (elem, rest, l) = ring_pop s.free s.links in
        (elem, record s { free = rest; links = l }))
    else elim s.memory [
      | [] ↦ (0, s)
      | elem ∷ more ↦
          if elem == 0
          then (0, record s { memory = more })
          else (elem, record s { memory = more; links = ring_link elem elem s.links })
    ]

-- `elem->slot = v;`
abbrev pub set_slot : ℕ → ℕ → Dll → Dll
set_slot elem v s = record s { slots = upd s.slots elem v }

-- `delete_elem`.
unfoldable pub delete_elem : ℕ → Dll → Dll
delete_elem elem s =
    let (head, l) = ring_push_back elem s.free s.links in
    record (set_slot elem 0 s) { free = head; links = l }

-- `free_ring`: `free` of each element, whose `next` has been read before.
unfoldable pub free_loop : ℕ → ℕ → ℕ → Dll → Option Dll
free_loop zero start cur s = none
free_loop (suc n) start cur s =
    let next = s.links.next cur in
    let s1 = record s { freed = cur ∷ s.freed } in
    elim (next == start) [ true ↦ some s1 | false ↦ free_loop n start next s1 ]

unfoldable pub free_ring : ℕ → ℕ → Dll → Option Dll
free_ring n ring s = if ring == 0 then some s else free_loop n ring ring s

-- `dll_boxroot_get`.
unfoldable pub dll_boxroot_get : ℕ → Dll → ℕ
dll_boxroot_get root s = s.slots root

-- `dll_boxroot_delete`.
unfoldable pub dll_boxroot_delete : ℕ → Dll → Dll
dll_boxroot_delete root s = let (elem, s1) = ring_pop_elem root s in delete_elem elem s1

module _ (r : Runtime) where
  -- `track_elem`.
  unfoldable pub track_elem : ℕ → Dll → Dll
  track_elem elem s =
      if is_young_block r (s.slots elem)
      then (let (head, l) = ring_push_back elem s.young s.links in
          record s { young = head; links = l })
      else (let (head, l) = ring_push_back elem s.old s.links in record s { old = head; links = l })

  -- `dll_boxroot_create`. It writes through the element that it gets, without a test for NULL: then
  -- there is no state behind.
  unfoldable pub dll_boxroot_create : ℕ → Dll → Option (ℕ × Dll)
  dll_boxroot_create init s =
      let (root, s1) = create_elem s in
      if root == 0 then none else some (root, track_elem root (set_slot root init s1))

  -- `dll_boxroot_modify`, with the new root.
  unfoldable pub dll_boxroot_modify : ℕ → ℕ → Dll → ℕ × Dll
  dll_boxroot_modify root new_value s =
      if is_young_block r (s.slots root) || not (is_young_block r new_value)
      then (root, set_slot root new_value s)
      else let (new_elem, s1) = ring_pop_elem root s in
        (new_elem, track_elem new_elem (set_slot new_elem new_value s1))

-- `dll_boxroot_setup`: whether it has set up. The hooks are installed.
unfoldable pub dll_boxroot_setup : Dll → Bool × Dll
dll_boxroot_setup s =
    if s.setup then (false, s) else (true, record s { young = 0; old = 0; free = 0; setup = true })

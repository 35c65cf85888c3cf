-- ===== src/Rem/Api.antt =====
-- The operations of boxroot/rem_boxroot.c: deallocation, the API, scanning, setup and teardown.
use ocaml_boxroot.Prelude.{
  ℕ, zero, suc, ◌+◌, ◌*◌, ◌/◌, Bool, true, false, not, ◌&&◌, ◌||◌, List, [], ◌∷◌, ◌++◌, Option,
  none, some, upd, ◌==◌, if◌then◌else◌, ◌>>=◌,
}
use ocaml_boxroot.Words.{
  Runtime, get_pool_header, is_young_block, is_empty_free_list, empty_free_list, decr32,
}
use ocaml_boxroot.Ring.{ring_push_back, ring_pop}
use ocaml_boxroot.Rem.{
  Rem, sizeof_header, pool_roots_capacity, set_header, remember, is_free_slot, untag_free_slot,
  tag_free_slot, free_list_push, is_empty_pool, pool_remove, alloc_slot,
}

-- `pool_remove(p)` and the push to the back of `pools` behind it.
unfoldable pub move_to_pools : ℕ → Rem → Rem
move_to_pools p s =
    let (removed, s1) = pool_remove p s in
    let (head, l) = ring_push_back removed s1.pools s1.links in
    record s1 { pools = head; links = l }

-- `rem_boxroot_get`.
unfoldable pub rem_boxroot_get : ℕ → Rem → ℕ
rem_boxroot_get root s = s.slots root

module _ (r : Runtime) where
  -- The free lists of `dealloc_slot`, which returns the slot to one of them.
  unfoldable pub push_slot : ℕ → ℕ → Rem → Rem
  push_slot v p s =
      let h = s.header p in
      if not (is_young_block r (s.slots v))
      then (let (major, m) = free_list_push v h.major_free_list s.slots in
          set_header p (record h { major_free_list = major }) (record s { slots = m }))
      else (let (minor, m) = free_list_push v h.minor_free_list s.slots in
          let last = if is_empty_free_list h.minor_free_list p then v else h.last_minor_free_slot in
          set_header p (record h { minor_free_list = minor; last_minor_free_slot = last })
            (record s { slots = m }))

  -- `dealloc_slot`.
  unfoldable pub dealloc_slot : ℕ → Rem → Rem
  dealloc_slot v s =
      let p = get_pool_header v in
      let s1 = push_slot v p s in
      let s2 =
        set_header p (record (s1.header p) { alloc_count = decr32 (s1.header p).alloc_count }) s1 in
      if (s2.header p).alloc_count == pool_roots_capacity * 3 / 4 then move_to_pools p s2 else s2

  -- `rem_boxroot_create`: 0 is NULL. `n` is the fuel of the loop over the pools.
  unfoldable pub rem_boxroot_create : ℕ → ℕ → Rem → Option (ℕ × Rem)
  rem_boxroot_create n init s = do
    (cell, s1) ← alloc_slot n (is_young_block r init) s
    some (if cell == 0 then (0, s1) else (cell, record s1 { slots = upd s1.slots cell init }))

  -- `rem_boxroot_delete`.
  unfoldable pub rem_boxroot_delete : ℕ → Rem → Rem
  rem_boxroot_delete root s = dealloc_slot root s

  -- `rem_boxroot_modify`.
  unfoldable pub rem_boxroot_modify : ℕ → ℕ → Rem → Rem
  rem_boxroot_modify cell new_value s =
      let s1 = record s { slots = upd s.slots cell new_value } in
      if not (is_young_block r new_value)
      then s1
      else if not (is_young_block r (s.slots cell))
      then remember cell s1
      else s1

-- The part of `scan_pool` for a minor collection: the minor free list goes in front of the major
-- one. `none` is a failed assertion.
unfoldable pub flush_minor_free_list : ℕ → Rem → Option Rem
flush_minor_free_list p s =
    let h = s.header p in
    if is_empty_free_list h.minor_free_list p
    then some s
    else if h.last_minor_free_slot == 0
        || not (is_free_slot (s.slots h.minor_free_list) p)
        || not (is_empty_free_list (untag_free_slot (s.slots h.last_minor_free_slot)) p)
    then none
    else some (
        set_header p
          (record h { major_free_list = h.minor_free_list; minor_free_list = empty_free_list p })
          (record s {
            slots = upd s.slots h.last_minor_free_slot (tag_free_slot h.major_free_list);
          }))

-- The loop of `scan_pool` over the last `n` slots, with so many roots to find: the slots that the
-- GC's action is called with, in order. `none` is a failed assertion.
unfoldable pub scan_slots : ℕ → ℕ → ℕ → ℕ → Rem → Option (List ℕ)
scan_slots n zero p current s = some []
scan_slots zero (suc k) p current s = none
scan_slots (suc n) (suc k) p current s = elim (is_free_slot (s.slots current) p) [
  | true ↦ scan_slots n (suc k) p (current + 8) s
  | false ↦ do found ← scan_slots n k p (current + 8) s; some (current ∷ found)
]

-- `scan_pool`.
unfoldable pub scan_pool : Bool → ℕ → Rem → Option (List ℕ × Rem)
scan_pool in_minor_collection p s =
    if in_minor_collection
    then (flush_minor_free_list p s >>= λ s1. some ([], s1))
    else (scan_slots pool_roots_capacity (s.header p).alloc_count p (p + sizeof_header) s
        >>= λ found. some (found, s))

-- The loop of `scan_pool_ring`, at the pool `p`.
unfoldable pub scan_pool_ring_loop : ℕ → Bool → ℕ → ℕ → Rem → Option (List ℕ × Rem)
scan_pool_ring_loop zero in_minor_collection first p s = none
scan_pool_ring_loop (suc n) in_minor_collection first p s = do
  (found, s1) ← scan_pool in_minor_collection p s
  elim (s1.links.next p == first) [
    | true ↦ some (found, s1)
    | false ↦ do
      (rest, s2) ← scan_pool_ring_loop n in_minor_collection first (s1.links.next p) s1
      some (found ++ rest, s2)
  ]

-- `scan_pool_ring`.
unfoldable pub scan_pool_ring : ℕ → Bool → ℕ → Rem → Option (List ℕ × Rem)
scan_pool_ring n in_minor_collection first s =
    if first == 0 then some ([], s) else scan_pool_ring_loop n in_minor_collection first first s

-- The loop of `free_empty_pools`, at the pool `p`, with so many empty pools to keep.
unfoldable pub free_empty_loop : ℕ → ℕ → ℕ → Rem → Option Rem
free_empty_loop zero keep p s = none
free_empty_loop (suc n) keep p s =
    let next = s.links.next p in
    let (removed, s1) = pool_remove p s in
    let freed = record s1 { freed = removed ∷ s1.freed } in
    let spare = is_empty_pool p s && (keep == 0) in
    let s2 = if spare then freed else s in
    let keep' = if is_empty_pool p s && not (keep == 0) then 0 else keep in
    elim (next == s2.pools) [ true ↦ some s2 | false ↦ free_empty_loop n keep' next s2 ]

-- `free_empty_pools`: all but one. `none` is also a read through NULL, if there are no pools.
unfoldable pub free_empty_pools : ℕ → Rem → Option Rem
free_empty_pools n s = elim (s.pools == 0) [ true ↦ none | false ↦ free_empty_loop n 1 s.pools s ]

-- `scan_roots`.
unfoldable pub scan_roots : ℕ → Bool → Rem → Option (List ℕ × Rem)
scan_roots n in_minor_collection s = do
  (found, s1) ← scan_pool_ring n in_minor_collection s.pools s
  (more, s2) ← scan_pool_ring n in_minor_collection s1.full_pools s1
  s3 ← free_empty_pools n s2
  some (found ++ more, s3)

-- `free_all_pools`.
unfoldable pub free_all_pools : ℕ → Rem → Option Rem
free_all_pools zero s = if s.pools == 0 then some s else none
free_all_pools (suc n) s = elim (s.pools == 0) [
  | true ↦ some s
  | false ↦
      let (p, rest, l) = ring_pop s.pools s.links in
      free_all_pools n (record s { pools = rest; links = l; freed = p ∷ s.freed })
]

-- `rem_boxroot_setup`, without the installation of the hooks: whether it did anything.
unfoldable pub rem_boxroot_setup : Rem → Bool × Rem
rem_boxroot_setup s =
    if s.setup then (false, s) else (true, record s { pools = 0; full_pools = 0; setup = true })

-- `rem_boxroot_teardown`. The pools of `full_pools` are not freed.
unfoldable pub rem_boxroot_teardown : ℕ → Rem → Option Rem
rem_boxroot_teardown n s =
    if not s.setup then some s else free_all_pools n (record s { setup = false })

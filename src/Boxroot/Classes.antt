-- ===== src/Boxroot/Classes.antt =====
-- "Pool class management" of boxroot/boxroot.c.
use ocaml_boxroot.Prelude.{
  ℕ, zero, suc, true, false, not, ◌&&◌, ◌||◌, [], ◌∷◌, Option, none, some, ◌==◌, if◌then◌else◌,
}
use ocaml_boxroot.Words.{Runtime, incr32, decr32}
use ocaml_boxroot.Pool.{Class, young, old, untracked, is_full_pool, is_not_too_full, init_pool}
use ocaml_boxroot.Boxroot.State.{
  State, Place, of_domain, variable, Field, old_ring, young_ring, current_ring, free_ring, rings_of,
  get_place, set_place, push_place, pop_place, set_fl, fl_of, set_current_fl,
}

-- `set_current_pool`.
unfoldable pub set_current_pool : ℕ → ℕ → State → State
set_current_pool dom p s =
    if p == 0
    then s
    else set_current_fl dom p (
        set_fl p
          (record (fl_of p s) {
            domain_id = dom;
            class = young;
            alloc_count = incr32 (fl_of p s).alloc_count;
          })
          (set_place (of_domain dom current_ring) p s))

abbrev pub ring_of_class : Class → Field
ring_of_class old = old_ring
ring_of_class young = young_ring
ring_of_class untracked = free_ring

-- `reclassify_pool`.
unfoldable pub reclassify_pool : Place → ℕ → Class → State → State
reclassify_pool source dom cl s =
    let (p, s1) = pop_place source s in
    let target = of_domain dom (ring_of_class cl) in
    let s2 = set_fl p (record (fl_of p s1) { domain_id = dom; class = cl }) s1 in
    let s3 = push_place p target s2 in
    if is_not_too_full p s3.store then set_place target p s3 else s3

-- `move_current_to_young`.
unfoldable pub move_current_to_young : ℕ → State → State
move_current_to_young dom s =
    if (rings_of dom s).current == 0
    then s
    else let (p, s1) = pop_place (of_domain dom current_ring) s in
      let s2 =
        set_fl p (record (fl_of p s1) { alloc_count = decr32 (fl_of p s1).alloc_count }) s1 in
      set_current_fl dom s.empty_fl (reclassify_pool (variable p) dom young s2)

-- `try_demote_pool`.
unfoldable pub try_demote_pool : ℕ → ℕ → State → State
try_demote_pool dom p s =
    let local = rings_of dom s in
    if p == local.current || not (is_not_too_full p s.store)
    then s
    else let cl = if (fl_of p s).alloc_count == 0 then untracked else (fl_of p s).class in
      let source =
        if p == local.old
        then of_domain dom old_ring
        else if p == local.young
        then of_domain dom young_ring
        else variable p in
      reclassify_pool source dom cl s

-- `pop_available`: 0 is NULL.
unfoldable pub pop_available : Place → State → ℕ × State
pop_available target s =
    if get_place target s == 0 || is_full_pool (get_place target s) s.store
    then (0, s)
    else pop_place target s

module _ (r : Runtime) where
  -- `get_empty_pool`, with the answer of `bxr_alloc_uninitialised_pool`. `posix_memalign` leaves
  -- `errno` alone.
  unfoldable pub get_empty_pool : State → ℕ × State
  get_empty_pool s = elim s.memory [
    | [] ↦ (0, s)
    | p ∷ rest ↦
        if p == 0
        then (0, record s { memory = rest })
        else (p, record s { memory = rest; store = init_pool r p s.store })
  ]

  -- The search of `find_and_set_available_pool`: each place is tried if the ones before had none.
  unfoldable pub find_available_pool : ℕ → State → ℕ × State
  find_available_pool dom s =
      let (p1, s1) = pop_available (of_domain dom young_ring) s in
      let old_head = (rings_of dom s1).old in
      let (p2, s2) =
        if (p1 == 0) && not (old_head == 0) && is_not_too_full old_head s1.store
        then pop_available (of_domain dom old_ring) s1
        else (p1, s1) in
      let (p3, s3) = if p2 == 0 then pop_available (of_domain dom free_ring) s2 else (p2, s2) in
      if p3 == 0 then get_empty_pool s3 else (p3, s3)

  -- `find_and_set_available_pool`.
  unfoldable pub find_and_set_available_pool : ℕ → State → State
  find_and_set_available_pool dom s =
      let (p, s') = find_available_pool dom s in set_current_pool dom p s'

-- `reclassify_ring`.
unfoldable pub reclassify_ring : ℕ → Place → ℕ → Class → State → Option State
reclassify_ring zero ring dom cl s = if get_place ring s == 0 then some s else none
reclassify_ring (suc n) ring dom cl s = elim (get_place ring s == 0) [
  | true ↦ some s
  | false ↦
      let s1 = set_place ring (s.store.links.prev (get_place ring s)) s in
      reclassify_ring n ring dom cl (reclassify_pool ring dom cl s1)
]

-- `promote_young_pools`.
unfoldable pub promote_young_pools : ℕ → ℕ → State → Option State
promote_young_pools n dom s = reclassify_ring n (of_domain dom young_ring) dom old s

-- `free_pool_ring`: the pools go back to the platform.
unfoldable pub free_pool_ring : ℕ → Place → State → Option State
free_pool_ring zero ring s = if get_place ring s == 0 then some s else none
free_pool_ring (suc n) ring s = elim (get_place ring s == 0) [
  | true ↦ some s
  | false ↦
      let (p, s1) = pop_place ring s in free_pool_ring n ring (record s1 { freed = p ∷ s1.freed })
]

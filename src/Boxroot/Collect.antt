-- ===== src/Boxroot/Collect.antt =====
-- "Scanning" of boxroot/boxroot.c: delayed deallocation in the rings, orphans, and the scan.
use ocaml_boxroot.Prelude.{
  ℕ, zero, suc, ◌+◌, Bool, true, false, List, [], ◌++◌, Option, none, some, ◌==◌, if◌then◌else◌,
  ◌>>=◌, not, ◌&&◌, ◌||◌,
}
use ocaml_boxroot.Words.{Runtime}
use ocaml_boxroot.Pool.{
  Store, young, old, untracked, is_not_too_full, anticipated_alloc_count, gc_pool, scan_pool_gen,
  scan_pool_young,
}
use ocaml_boxroot.Boxroot.State.{
  State, Place, of_domain, orphaned, variable, old_ring, young_ring, free_ring, rings_of, get_place,
  push_place, fl_of, init_pool_rings,
}
use ocaml_boxroot.Boxroot.Validate.{same_class}
use ocaml_boxroot.Boxroot.Classes.{
  reclassify_pool, reclassify_ring, move_current_to_young, promote_young_pools, free_pool_ring,
}

abbrev pub next_of : ℕ → State → ℕ
next_of p s = s.store.links.next p

-- `try_gc_and_reclassify_pool`.
unfoldable pub try_gc_and_reclassify_pool : Place → ℕ → State → State
try_gc_and_reclassify_pool source dom s =
    let p = get_place source s in
    let (moved, st) = gc_pool p s.store in
    let s1 = record s { store = st } in
    if moved == 0
    then s1
    else if (fl_of p s1).alloc_count == 0
    then reclassify_pool source dom untracked s1
    else if is_not_too_full p s1.store
    then reclassify_pool source dom (fl_of p s1).class s1
    else s1

-- The loop of `try_gc_and_reclassify_one_pool_no_stw`, at the pool `p`.
unfoldable pub try_gc_one_loop : ℕ → Place → ℕ → ℕ → ℕ → State → Option State
try_gc_one_loop zero source dom start p s = none
try_gc_one_loop (suc n) source dom start p s = elim (anticipated_alloc_count p s.store == 0) [
  | true ↦ some (try_gc_and_reclassify_pool (if p == start then source else variable p) dom s)
  | false ↦ elim (next_of p s == start) [
    | true ↦ some s
    | false ↦ try_gc_one_loop n source dom start (next_of p s) s
  ]
]

-- `try_gc_and_reclassify_one_pool_no_stw`.
unfoldable pub try_gc_and_reclassify_one_pool_no_stw : ℕ → Place → ℕ → State → Option State
try_gc_and_reclassify_one_pool_no_stw n source dom s =
    try_gc_one_loop n source dom (get_place source s) (get_place source s) s

-- The second loop of `gc_ring`, behind the head.
unfoldable pub gc_tail : ℕ → Place → ℕ → ℕ → State → Option State
gc_tail zero ring dom p s = none
gc_tail (suc n) ring dom p s =
    let next = next_of p s in
    let s1 = try_gc_and_reclassify_pool (variable p) dom s in
    elim (next == get_place ring s1) [ true ↦ some s1 | false ↦ gc_tail n ring dom next s1 ]

-- The first loop of `gc_ring`, at the head, and then the second.
unfoldable pub gc_head : ℕ → Place → ℕ → ℕ → State → Option State
gc_head zero ring dom p s = none
gc_head (suc n) ring dom p s = elim (p == get_place ring s) [
  | true ↦
      let next = next_of p s in
      let s1 = try_gc_and_reclassify_pool ring dom s in
      elim (p == next) [ true ↦ some s1 | false ↦ gc_head n ring dom next s1 ]
  | false ↦ gc_tail (suc n) ring dom p s
]

-- `gc_ring`, with BXR_MULTITHREAD true.
unfoldable pub gc_ring : ℕ → Place → ℕ → State → Option State
gc_ring n ring dom s =
    if get_place ring s == 0 then some s else gc_head n ring dom (get_place ring s) s

-- `gc_pool_rings`, with its assertion that there is no current pool.
unfoldable pub gc_pool_rings : ℕ → ℕ → State → Option State
gc_pool_rings n dom s = elim ((rings_of dom s).current == 0) [
  | false ↦ none
  | true ↦ do
    s1 ← gc_ring n (of_domain dom young_ring) dom s
    gc_ring n (of_domain dom old_ring) dom s1
]

-- `ring_push_back(source, target)` with its assertions: `source` is a single pool, it is not the
-- first of the target, and that one has the same class.
unfoldable pub push_checked : ℕ → Place → State → Option State
push_checked source target s =
    let head = get_place target s in
    if source == 0
    then some s
    else if not (s.store.links.prev source == source && s.store.links.next source == source)
    then none
    else if source == head
    then none
    else if not (head == 0 || same_class (fl_of head s).class (fl_of source s).class)
    then none
    else some (push_place source target s)

-- `orphan_pools`.
unfoldable pub orphan_pools : ℕ → ℕ → State → Option State
orphan_pools n dom s = elim (s.pools dom) [
  | none ↦ some s
  | some _ ↦ do
    s1 ← gc_pool_rings n dom (move_current_to_young dom s)
    s2 ← push_checked (rings_of dom s1).old (orphaned old_ring) s1
    s3 ← push_checked (rings_of dom s2).young (orphaned young_ring) s2
    s4 ← free_pool_ring n (of_domain dom free_ring) s3
    some (init_pool_rings dom s4)
]

-- `adopt_orphaned_pools`.
unfoldable pub adopt_orphaned_pools : ℕ → ℕ → State → Option State
adopt_orphaned_pools n dom s = do
  s1 ← reclassify_ring n (orphaned old_ring) dom old s
  reclassify_ring n (orphaned young_ring) dom young s1

module _ (r : Runtime) where
  -- `scan_pool`: the slots on which the GC's action is called, and the work.
  unfoldable pub scan_pool : Bool → Store → ℕ → Option (List ℕ × ℕ)
  scan_pool only_young st p =
      if only_young then some (scan_pool_young r st p) else scan_pool_gen r st p

  -- The loop of `scan_ring`.
  unfoldable pub scan_ring_loop : ℕ → Bool → Store → ℕ → ℕ → Option (List ℕ × ℕ)
  scan_ring_loop zero only_young st start p = none
  scan_ring_loop (suc n) only_young st start p = do
    (found, work) ← scan_pool only_young st p
    elim (st.links.next p == start) [
      | true ↦ some (found, work)
      | false ↦ do
        (more, work') ← scan_ring_loop n only_young st start (st.links.next p)
        some (found ++ more, work + work')
    ]

  -- `scan_ring`.
  unfoldable pub scan_ring : ℕ → Bool → Store → ℕ → Option (List ℕ × ℕ)
  scan_ring n only_young st ring =
      if ring == 0 then some ([], 0) else scan_ring_loop n only_young st ring ring

  -- `scan_pools`.
  unfoldable pub scan_pools : ℕ → Bool → ℕ → State → Option (List ℕ × ℕ)
  scan_pools n only_young dom s = do
    (found, work) ← scan_ring n only_young s.store (rings_of dom s).young
    elim only_young [
      | true ↦ some (found, work)
      | false ↦ do
        (more, work') ← scan_ring n false s.store (rings_of dom s).old
        some (found ++ more, work + work')
    ]

  -- `scan_roots`: the slots scanned, the work, and the state behind.
  unfoldable pub scan_roots : ℕ → Bool → Bool → ℕ → State → Option (List ℕ × ℕ × State)
  scan_roots n in_minor_collection only_young dom s = do
    s1 ← gc_pool_rings n dom (move_current_to_young dom s)
    s2 ← adopt_orphaned_pools n dom s1
    (found, work) ← scan_pools n only_young dom s2
    s3 ←
        (if in_minor_collection
          then promote_young_pools n dom s2
          else free_pool_ring n (of_domain dom free_ring) s2)
    some (found, work, s3)

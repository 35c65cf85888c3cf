-- ===== src/Boxroot/Api.antt =====
-- The API: `boxroot_create`, `boxroot_delete` and `boxroot_modify` of boxroot/boxroot.h with their
-- slow paths in boxroot/boxroot.c, `setup` and `boxroot_teardown`.
use ocaml_boxroot.Prelude.{
  ℕ, zero, suc, ◌+◌, Bool, true, false, not, ◌&&◌, ◌||◌, List, [], Option, none, some, ◌==◌,
  if◌then◌else◌, ◌>>=◌,
}
use ocaml_boxroot.Words.{Runtime, get_pool_header, minus_one32, is_young_block}
use ocaml_boxroot.Pool.{young, create_fast, bxr_free_slot, free_slot_atomic, write_slot}
use ocaml_boxroot.Boxroot.State.{
  State, Caller, lock_held, not_setup, running, tore_down, invalid, e_perm, Place, of_domain,
  orphaned, Field, old_ring, young_ring, current_ring, free_ring, rings_of, fl_of, init_pool_rings,
  set_current_fl,
}
use ocaml_boxroot.Boxroot.Classes.{
  move_current_to_young, try_demote_pool, find_and_set_available_pool, free_pool_ring,
}
use ocaml_boxroot.Boxroot.Collect.{try_gc_and_reclassify_one_pool_no_stw, scan_roots, orphan_pools}

-- `setup`: the hooks are installed on the first call, which on OCaml 4 notes that this thread has
-- the lock. It fails for good after a teardown.
unfoldable pub setup : State → Bool × State
setup s = elim s.status [
  | running ↦ (true, s)
  | not_setup ↦ (true, record s { status = running; thread_has_lock = true })
  | tore_down ↦ (false, s)
  | invalid ↦ (false, s)
]

-- `bxr_check_thread_hooks`, of boxroot/ocaml_hooks.c.
abbrev pub bxr_check_thread_hooks : Bool
bxr_check_thread_hooks = true

-- `boxroot_get`.
unfoldable pub boxroot_get : ℕ → State → ℕ
boxroot_get root s = s.store.slots root

module _ (r : Runtime) where
  -- The free list that `boxroot_create` looks at: the trap `empty_fl` before the domain's id is
  -- cached.
  abbrev pub current_free_list : State → ℕ
  current_free_list s =
      if r.ocaml_multicore
      then elim s.cached_dom_id [ none ↦ s.empty_fl | some dom ↦ s.current_fl dom ]
      else s.current_fl 0

  abbrev pub domain_of : Caller → ℕ
  domain_of c = if r.ocaml_multicore then c.domain_id else 0

  -- `bxr_create_slow` once the thread's domain id is cached and checked: makes a pool available.
  unfoldable pub refill : ℕ → ℕ → State → Option State
  refill n dom s =
      if (rings_of dom s).current == 0 then some (find_and_set_available_pool r dom s) else do
        s1 ←
            try_gc_and_reclassify_one_pool_no_stw n (of_domain dom young_ring) dom
              (move_current_to_young dom s)
        some (find_and_set_available_pool r dom s1)

  -- The rest of `bxr_create_slow` once the domain has rings, with the call of `boxroot_create` at
  -- its end passed in.
  unfoldable pub create_in_rings : ℕ → ℕ → (State → Option (ℕ × State)) → State → Option (ℕ × State)
  create_in_rings n dom again s = elim s.cached_dom_id [
    | none ↦ again (record s { cached_dom_id = some dom })
    | some cached ↦
        if cached == dom
        then (refill n dom s >>= λ s'.
            if (rings_of dom s').current == 0 then some (0, s') else again s')
        else none
  ]

  -- "Initialize pool rings on this domain."
  unfoldable pub ensure_rings : ℕ → State → State
  ensure_rings dom s = elim (s.pools dom) [ none ↦ init_pool_rings dom s | some _ ↦ s ]

  -- `bxr_create_slow`. `n` is the fuel of the loops. The root is 0 for NULL.
  unfoldable pub bxr_create_slow :
      ℕ → Caller → (State → Option (ℕ × State)) → State → Option (ℕ × State)
  bxr_create_slow n c again s =
      if not c.caml_state
      then some (0, record s { errno = e_perm })
      else let (done, s1) = setup s in
        if not done
        then some (0, s1)
        else if not r.ocaml_multicore && not (lock_held r c s1)
        then some (0, record s1 { errno = e_perm })
        else if not bxr_check_thread_hooks && not r.ocaml_multicore
        then some (0, record s1 { status = invalid })
        else let s2 = ensure_rings (domain_of c) s1 in
          elim (s2.pools (domain_of c)) [
            | none ↦ some (0, s2)
            | some _ ↦ create_in_rings n (domain_of c) again s2
          ]

  -- `boxroot_create`. It and its slow path call each other, `k` times at most.
  unfoldable pub boxroot_create : ℕ → ℕ → Caller → ℕ → State → Option (ℕ × State)
  boxroot_create zero n c init s = none
  boxroot_create (suc k) n c init s =
      let slow = bxr_create_slow n c (boxroot_create k n c init) s in
      if not (lock_held r c s)
      then slow
      else elim (create_fast (current_free_list s) init s.store) [
        | none ↦ slow
        | some (root, st) ↦ some (root, record s { store = st })
      ]

  -- Whether the pool of `fl` belongs to another domain than the caller's.
  abbrev pub remote_dom_id : ℕ → State → Bool
  remote_dom_id fl s =
      if r.ocaml_multicore
      then elim s.cached_dom_id [
        | none ↦ not ((fl_of fl s).domain_id == minus_one32)
        | some cached ↦ not ((fl_of fl s).domain_id == cached)
      ]
      else false

  -- `bxr_delete_slow`. With another domain's lock or with the mutex, the slot is freed atomically.
  unfoldable pub bxr_delete_slow : ℕ → ℕ → Bool → State → State
  bxr_delete_slow p root remote s =
      if not remote
      then try_demote_pool (fl_of p s).domain_id p s
      else record s { store = free_slot_atomic p root s.store }

  -- `boxroot_delete`, with BXR_FORCE_REMOTE false.
  unfoldable pub boxroot_delete : Caller → ℕ → State → State
  boxroot_delete c root s =
      let fl = get_pool_header root in
      if remote_dom_id fl s || not (lock_held r c s)
      then bxr_delete_slow fl root true s
      else let (threshold, st) = bxr_free_slot fl root s.store in
        let s1 = record s { store = st } in
        if threshold then bxr_delete_slow fl root false s1 else s1

  -- `bxr_modify_slow`: whether it succeeded, and the root's new value.
  unfoldable pub bxr_modify_slow : ℕ → ℕ → Caller → ℕ → ℕ → State → Option (Bool × ℕ × State)
  bxr_modify_slow k n c root new_value s =
      if not (is_young_block r new_value)
      then some (true, root, record s { store = write_slot root new_value s.store })
      else do
        (new, s1) ← boxroot_create k n c new_value s
        some (if new == 0 then (false, root, s1) else (true, new, boxroot_delete c root s1))

  -- `boxroot_modify`.
  unfoldable pub boxroot_modify : ℕ → ℕ → Caller → ℕ → ℕ → State → Option (Bool × ℕ × State)
  boxroot_modify k n c root new_value s =
      if not (lock_held r c s)
      then some (false, root, s)
      else elim (fl_of (get_pool_header root) s).class [
        | young ↦ some (true, root, record s { store = write_slot root new_value s.store })
        | _ ↦ bxr_modify_slow k n c root new_value s
      ]

  -- `scanning_callback`: what the scan found, and the state behind.
  unfoldable pub scanning_callback : ℕ → Bool → Bool → Caller → State → Option (List ℕ × ℕ × State)
  scanning_callback n in_minor_collection only_young c s =
      let scan : Option (List ℕ × ℕ × State) = elim (s.pools (domain_of c)) [
        | none ↦ some ([], 0, s)
        | some _ ↦
            let s1 =
              if not bxr_check_thread_hooks && not r.ocaml_multicore
              then record s { status = invalid }
              else s in
            scan_roots r n in_minor_collection only_young (domain_of c) s1
      ] in
      elim s.status [ not_setup ↦ some ([], 0, s) | tore_down ↦ some ([], 0, s) | _ ↦ scan ]

  -- `domain_termination_callback`, with its assertion.
  unfoldable pub domain_termination_callback : ℕ → Caller → State → Option State
  domain_termination_callback n c s =
      if r.ocaml_multicore then orphan_pools n (domain_of c) s else none

-- `free_pool_rings`, of a domain or of the orphans.
unfoldable pub free_pool_rings : ℕ → (Field → Place) → State → Option State
free_pool_rings n ps s = do
  s1 ← free_pool_ring n (ps old_ring) s
  s2 ← free_pool_ring n (ps young_ring) s1
  s3 ← free_pool_ring n (ps current_ring) s2
  free_pool_ring n (ps free_ring) s3

-- The loop of `boxroot_teardown` with `d` domains left, from 0 on. The freed `pool_rings` stays in
-- `pools`, and is not read again.
unfoldable pub teardown_loop : ℕ → ℕ → ℕ → State → Option State
teardown_loop n zero i s = some s
teardown_loop n (suc d) i s = elim (s.pools i) [
  | none ↦ teardown_loop n d (i + 1) s
  | some _ ↦ do
    s1 ← free_pool_rings n (of_domain i) s
    teardown_loop n d (i + 1) (set_current_fl i s1.empty_fl s1)
]

-- Num_domains.
abbrev pub num_domains : Runtime → ℕ
num_domains r = if r.ocaml_multicore then 128 else 1

-- `boxroot_teardown`.
unfoldable pub boxroot_teardown : Runtime → ℕ → State → Option State
boxroot_teardown r n s =
    let tear =
      teardown_loop n (num_domains r) 0 (record s { status = tore_down })
      >>= free_pool_rings n orphaned in
    elim s.status [ running ↦ tear | _ ↦ some s ]

-- ===== src/Boxroot/Validate.antt =====
-- The checks of a debug build on the rings of boxroot/boxroot.c: `validate_ring`,
-- `validate_current_pool` and `validate_all_pools`. The check of one pool is in Pool.
use ocaml_boxroot.Prelude.{
  ℕ, zero, suc, Bool, true, false, not, ◌&&◌, Option, none, some, ◌==◌, if◌then◌else◌, ◌>>=◌,
}
use ocaml_boxroot.Words.{Runtime, incr32, decr32}
use ocaml_boxroot.Pool.{Store, Class, young, old, untracked, validate_pool}
use ocaml_boxroot.Boxroot.State.{
  State, of_domain, old_ring, young_ring, current_ring, free_ring, get_place, set_fl, fl_of,
}

abbrev pub same_class : Class → Class → Bool
same_class young young = true
same_class old old = true
same_class untracked untracked = true
same_class _ _ = false

module _ (r : Runtime) where
  -- The assertions of `validate_ring` on the pool `p`, but for those on its neighbours.
  abbrev pub pool_checks : Store → ℕ → Class → ℕ → Bool
  pool_checks st dom cl p =
      ((st.free_list p).domain_id == dom)
      && same_class (st.free_list p).class cl
      && validate_pool r st p

  -- Those on its neighbours.
  abbrev pub link_checks : Store → ℕ → Bool
  link_checks st p =
      not (st.links.next p == 0)
      && (st.links.prev (st.links.next p) == p)
      && not (st.links.prev p == 0)
      && (st.links.next (st.links.prev p) == p)

  -- The loop of `validate_ring` from the pool `p` on: whether it ends and all its assertions hold.
  unfoldable pub validate_ring_loop : ℕ → Store → ℕ → ℕ → Class → ℕ → Bool
  validate_ring_loop zero st start dom cl p = false
  validate_ring_loop (suc n) st start dom cl p =
      elim (pool_checks st dom cl p && link_checks st p) [
        | false ↦ false
        | true ↦ elim (st.links.next p == start) [
          | true ↦ true
          | false ↦ validate_ring_loop n st start dom cl (st.links.next p)
        ]
      ]

  -- `validate_ring`.
  unfoldable pub validate_ring : ℕ → Store → ℕ → ℕ → Class → Bool
  validate_ring n st ring dom cl =
      if ring == 0 then true else validate_ring_loop n st ring dom cl ring

  -- `validate_current_pool`: `none` if an assertion fails.
  unfoldable pub validate_current_pool : ℕ → ℕ → State → Option State
  validate_current_pool n dom s = elim (get_place (of_domain dom current_ring) s == 0) [
    | true ↦ some s
    | false ↦
        let p = get_place (of_domain dom current_ring) s in
        let s1 = set_fl p (record (fl_of p s) { alloc_count = decr32 (fl_of p s).alloc_count }) s in
        elim (validate_ring n s1.store p dom young) [
          | false ↦ none
          | true ↦
              some (
                set_fl p (record (fl_of p s1) { alloc_count = incr32 (fl_of p s1).alloc_count }) s1)
        ]
  ]

  -- `validate_all_pools`: `none` if the domain has no rings or an assertion fails.
  unfoldable pub validate_all_pools : ℕ → ℕ → State → Option State
  validate_all_pools n dom s = elim (s.pools dom) [
    | none ↦ none
    | some _ ↦
        elim (validate_ring n s.store (get_place (of_domain dom old_ring) s) dom old
          && validate_ring n s.store (get_place (of_domain dom young_ring) s) dom young) [
            | false ↦ none
            | true ↦ do
              s1 ← validate_current_pool n dom s
              elim (validate_ring n s1.store (get_place (of_domain dom free_ring) s1) dom
                  untracked) [ false ↦ none | true ↦ some s1 ]
          ]
  ]

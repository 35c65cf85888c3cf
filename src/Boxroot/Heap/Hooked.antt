-- ===== src/Boxroot/Heap/Hooked.antt =====
-- `bxr_create_slow` behind `setup`, and behind its tests.
use ocaml_boxroot.Prelude.{
  ℕ, ◌≡◌, refl, ◌∙◌, ap, ◌≢◌, Bool, true, false, not, ◌&&◌, Option, none, some, if◌then◌else◌,
}
use ocaml_boxroot.Words.{Runtime}
use ocaml_boxroot.Boxroot.State.{
  State, Caller, PoolRings, lock_held, not_setup, running, tore_down, invalid, e_perm,
  init_pool_rings,
}
use ocaml_boxroot.Boxroot.Api.{setup, domain_of, create_in_rings, ensure_rings, bxr_create_slow}
use ocaml_boxroot.Boxroot.Heap.Setup.{ready_state}

and-false : (b : Bool) → (b && false) ≡ false
and-false true = refl
and-false false = refl

module _ (r : Runtime) (c : Caller) (n init : ℕ) (present : c.caml_state ≡ true) where
  abbrev pub here : ℕ
  here = domain_of r c

  -- `bxr_create_slow` once the hooks are set up.
  abbrev pub hooked : (State → Option (ℕ × State)) → State → Option (ℕ × State)
  hooked again s =
      if not r.ocaml_multicore && not (lock_held r c s)
      then some (0, record s { errno = e_perm })
      else elim ((ensure_rings r here s).pools here) as (λ _. Option (ℕ × State)) [
        | none ↦ some (0, ensure_rings r here s)
        | some _ ↦ create_in_rings r n here again (ensure_rings r here s)
      ]

  abbrev set_up : (State → Option (ℕ × State)) → Bool × State → Option (ℕ × State)
  set_up again (done, s) = if not done then some (0, s) else hooked again s

  slow-set_up :
      (again : State → Option (ℕ × State)) (s : State)
      → bxr_create_slow r n c again s ≡ set_up again (setup s)
  unfolding bxr_create_slow
  slow-set_up again s =
      ap (λ b. if not b then some (0, record s { errno = e_perm }) else set_up again (setup s))
        present

  pub slow-running :
      (again : State → Option (ℕ × State)) (s : State)
      → s.status ≡ running
      → bxr_create_slow r n c again s ≡ hooked again s
  unfolding setup
  slow-running again s e =
      slow-set_up again s
      ∙ ap
          (λ st. set_up again (elim st as (λ _. Bool × State) [
            | running ↦ (true, s)
            | not_setup ↦ (true, ready_state running true s.cached_dom_id s)
            | tore_down ↦ (false, s)
            | invalid ↦ (false, s)
          ]))
          e

  pub slow-not_setup :
      (again : State → Option (ℕ × State)) (s : State)
      → s.status ≡ not_setup
      → bxr_create_slow r n c again s ≡ hooked again (ready_state running true s.cached_dom_id s)
  unfolding setup
  slow-not_setup again s e =
      slow-set_up again s
      ∙ ap
          (λ st. set_up again (elim st as (λ _. Bool × State) [
            | running ↦ (true, s)
            | not_setup ↦ (true, ready_state running true s.cached_dom_id s)
            | tore_down ↦ (false, s)
            | invalid ↦ (false, s)
          ]))
          e

  -- The two tests behind are passed.
  pub hooked-in_rings :
      (again : State → Option (ℕ × State)) (s t : State)
      → lock_held r c s ≡ true
      → ensure_rings r here s ≡ t
      → t.pools here ≢ none
      → hooked again s ≡ create_in_rings r n here again t
  hooked-in_rings again s t lock e rings =
      ap
        (λ b.
          if not r.ocaml_multicore && not b
          then some (0, record s { errno = e_perm })
          else in_state (ensure_rings r here s))
        lock
      ∙ ap
          (λ b.
            if b then some (0, record s { errno = e_perm }) else in_state (ensure_rings r here s))
          (and-false (not r.ocaml_multicore))
      ∙ ap in_state e
      ∙ by_pools (t.pools here) rings
    where
      in_state : State → Option (ℕ × State)
      in_state u = elim (u.pools here) as (λ _. Option (ℕ × State)) [
        | none ↦ some (0, u)
        | some _ ↦ create_in_rings r n here again u
      ]

      by_pools :
          (o : Option PoolRings)
          → o ≢ none
          → (elim o as (λ _. Option (ℕ × State)) [
            | none ↦ some (0, t)
            | some _ ↦ create_in_rings r n here again t
          ])
            ≡ create_in_rings r n here again t
      by_pools none h = absurd (h refl)
      by_pools (some ps) h = refl

  pub ensured : (s : State) → s.pools here ≢ none → ensure_rings r here s ≡ s
  unfolding ensure_rings
  ensured s h = by_pools (s.pools here) h
    where
      by_pools :
          (o : Option PoolRings)
          → o ≢ none
          → (elim o as (λ _. State) [ none ↦ init_pool_rings here s | some _ ↦ s ]) ≡ s
      by_pools none k = absurd (k refl)
      by_pools (some ps) k = refl

-- ===== src/Boxroot/Heap/Call.antt =====
-- `boxroot_create` as a whole on a well-formed state.
use ocaml_boxroot.Prelude.{
  some-ne-none, ℕ, suc, ◌+◌, ◌*◌, ◌<◌, ◌≡◌, refl, sym, ◌∙◌, ap, subst, ◌≢◌, ◌⊎◌, inl, inr, Bool,
  true, false, Option, none, some, upd_self, ◌==◌, if◌then◌else◌, length, ◌>>=◌,
}
use ocaml_boxroot.Words.{Runtime, IsRuntime}
use ocaml_boxroot.Boxroot.State.{
  State, Caller, PoolRings, no_rings, lock_held, not_setup, running, rings_of, set_current_fl,
}
use ocaml_boxroot.Boxroot.Api.{domain_of, refill, create_in_rings, boxroot_create}
use ocaml_boxroot.Boxroot.Heap.{View, IsHeap}
use ocaml_boxroot.Boxroot.Heap.Setup.{
  ready_state, IsHeap-local, with_rings, ensure_rings-lem, with_rings-IsHeap,
}
use ocaml_boxroot.Boxroot.Heap.Slow.{in_rings-Creates}
use ocaml_boxroot.Boxroot.Heap.Create.{Creates, IsCached, IsOutside, by_slow}
use ocaml_boxroot.Boxroot.Heap.Hooked.{
  hooked, slow-running, slow-not_setup, hooked-in_rings, ensured,
}

module _ (r : Runtime) (ok : IsRuntime r) (c : Caller) (n init : ℕ)
    (present : c.caml_state ≡ true) where
  abbrev home : ℕ
  home = domain_of r c

  -- The call of a thread whose domain is cached and has rings.
  cached-Creates :
      (k : ℕ) (s : State) (v : View)
      → IsHeap r s v
      → IsOutside s v init
      → s.status ≡ running
      → lock_held r c s ≡ true
      → s.cached_dom_id ≡ some home
      → s.pools home ≢ none
      → length (v (4 + 4 * home + 1)) < n
      → Creates r init s v (boxroot_create r (suc (suc k)) n c init s)
  cached-Creates k s v inv out status lock cached rings fuel =
      by_slow r ok c n init (suc k) s v inv (inr (cached, rings)) out (
        subst (Creates r init s v)
          (sym (
            slow-running r c n init present (boxroot_create r (suc k) n c init) s status
            ∙ hooked-in_rings r c n init present (boxroot_create r (suc k) n c init) s s lock
                (ensured r c n init present s rings) rings))
          (in_rings-Creates r ok c n init s v out k inv lock cached rings fuel))

  -- The slow path of a domain with rings, which caches the domain if it has to.
  in_rings-cached :
      (k : ℕ) (s : State) (v : View)
      → IsHeap r s v
      → IsOutside s v init
      → s.status ≡ running
      → lock_held r c s ≡ true
      → IsCached s home
      → s.pools home ≢ none
      → length (v (4 + 4 * home + 1)) < n
      → Creates r init s v (create_in_rings r n home (boxroot_create r (suc (suc k)) n c init) s)
  unfolding create_in_rings
  in_rings-cached k s v inv out status lock (inr known) rings fuel =
      in_rings-Creates r ok c n init s v out (suc k) inv lock known.0 rings fuel
  in_rings-cached k s v inv out status lock (inl z) rings fuel =
      subst (Creates r init s v)
        (sym (
          ap
            (λ o. elim o as (λ _. Option (ℕ × State)) [
              | none ↦
                  boxroot_create r (suc (suc k)) n c init (record s { cached_dom_id = some home })
              | some d ↦
                  if d == home
                  then (refill r n home s >>= λ s'.
                      if (rings_of home s').current == 0
                      then some (0, s')
                      else boxroot_create r (suc (suc k)) n c init s')
                  else none
            ])
            z))
        (cached-Creates k (ready_state s.status s.thread_has_lock (some home) s) v
          (IsHeap-local r s v s.status s.thread_has_lock (some home) inv) out status lock refl rings
          fuel)

  -- The slow path of a domain that may have no rings yet.
  hooked-Creates :
      (k : ℕ) (s : State) (v : View)
      → IsHeap r s v
      → IsOutside s v init
      → s.status ≡ running
      → lock_held r c s ≡ true
      → IsCached s home
      → (s.pools home ≢ none) ⊎ (s.malloc_ok ≡ true)
      → length (v (4 + 4 * home + 1)) < n
      → Creates r init s v (hooked r c n init present (boxroot_create r (suc (suc k)) n c init) s)
  unfolding set_current_fl
  hooked-Creates k s v inv out status lock cached rings fuel = by_rings (s.pools home) refl rings
    where
      again : State → Option (ℕ × State)
      again = boxroot_create r (suc (suc k)) n c init

      by_some : s.pools home ≢ none → Creates r init s v (hooked r c n init present again s)
      by_some h =
          subst (Creates r init s v)
            (sym (
              hooked-in_rings r c n init present again s s lock (ensured r c n init present s h) h))
            (in_rings-cached k s v inv out status lock cached h fuel)

      by_rings :
          (o : Option PoolRings)
          → s.pools home ≡ o
          → (s.pools home ≢ none) ⊎ (s.malloc_ok ≡ true)
          → Creates r init s v (hooked r c n init present again s)
      by_rings o e (inl h) = by_some h
      by_rings (some ps) e (inr m) = by_some (λ z. some-ne-none (sym e ∙ z))
      by_rings none e (inr m) =
          let made : (with_rings home s).pools home ≢ none =
            λ z. some-ne-none (sym (upd_self s.pools home (some no_rings)) ∙ z) in
          subst (Creates r init s v)
            (sym (
              hooked-in_rings r c n init present again s (with_rings home s) lock
                (ensure_rings-lem r s v home inv e m) made))
            (in_rings-cached k (with_rings home s) v (with_rings-IsHeap r s v home inv e) out status
              lock (elim cached [ inl z ↦ inl z | inr z ↦ inr (z.0, made) ]) made fuel)

-- A thread with the runtime, whose call of `boxroot_create` of the value `init` cannot be refused
-- but for want of pools. `setup` has been done or is to be.
pub record CanCreate (r : Runtime) (c : Caller) (s : State) (v : View) (init : ℕ) : Type 0 where
  pub heap : IsHeap r s v
  pub caml_state : c.caml_state ≡ true
  pub status : ((s.status ≡ running) × (lock_held r c s ≡ true)) ⊎ (s.status ≡ not_setup)
  pub cached : IsCached s (domain_of r c)
  pub rings : (s.pools (domain_of r c) ≢ none) ⊎ (s.malloc_ok ≡ true)
  pub outside : IsOutside s v init

-- In a well-formed state, with the runtime, the hooks set up and the lock held or the hooks not
-- yet set up, the thread's domain uncached or with rings, rings there or memory for them, a value
-- that looks like no slot of a pool present or to come, three levels of calls and fuel for one
-- more round than the domain has young pools, `boxroot_create` returns a well-formed state: the
-- root is not 0, was no boxroot and now keeps the value alive, and the others are as before; or
-- the root is 0, the platform has no memory, and the boxroots are as before.
pub boxroot_create-Creates :
    (r : Runtime) (ok : IsRuntime r) (c : Caller) (s : State) (v : View) (init k n : ℕ)
    → CanCreate r c s v init
    → length (v (4 + 4 * domain_of r c + 1)) < n
    → Creates r init s v (boxroot_create r (suc (suc (suc k))) n c init s)
boxroot_create-Creates r ok c s v init k n can fuel =
    by_slow r ok c n init (suc (suc k)) s v can.heap can.cached can.outside (elim can.status [
      | inl h ↦
          subst (Creates r init s v) (sym (slow-running r c n init can.caml_state again s h.0)) (
            hooked-Creates r ok c n init can.caml_state k s v can.heap can.outside h.0 h.1
              can.cached can.rings fuel)
      | inr h ↦
          subst (Creates r init s v) (sym (slow-not_setup r c n init can.caml_state again s h)) (
            hooked-Creates r ok c n init can.caml_state k
              (ready_state running true s.cached_dom_id s) v
              (IsHeap-local r s v running true s.cached_dom_id can.heap) can.outside refl
              (locked r.ocaml_multicore) can.cached can.rings fuel)
    ])
  where
    again : State → Option (ℕ × State)
    again = boxroot_create r (suc (suc k)) n c init

    locked : (b : Bool) → (if b then c.caml_state else true) ≡ true
    locked true = can.caml_state
    locked false = refl

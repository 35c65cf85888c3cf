-- ===== src/Boxroot/Heap/Setup.antt =====
-- The first call of `bxr_create_slow` on a domain: `setup` and `ensure_rings`.
use ocaml_boxroot.Prelude.{
  ℕ, ◌≡◌, refl, sym, ◌∙◌, ap, subst, inl, inr, Bool, true, List, [], ◌∷◌, Option, none, some, upd,
  upd_ne, if◌then◌else◌, eq_cases, eq→==, ne→==,
}
use ocaml_boxroot.Words.{Runtime}
use ocaml_boxroot.Ring.Paths.{IsRing}
use ocaml_boxroot.Boxroot.State.{
  State, PoolRings, no_rings, Status, Place, of_domain, orphaned, variable, current_ring, get_place,
  get_field, rings_of, e_nomem, set_current_fl, init_pool_rings,
}
use ocaml_boxroot.Boxroot.Rings.{key}
use ocaml_boxroot.Boxroot.Api.{ensure_rings}
use ocaml_boxroot.Boxroot.Heap.{View, cur_key, current_of, IsHeap}

-- Fields that the well-formedness does not read.
-- The state that a successful `setup` leaves, and the domain cached.
abbrev pub ready_state : Status → Bool → Option ℕ → State → State
ready_state st b cd s = record s { status = st; thread_has_lock = b; cached_dom_id = cd }

pub IsHeap-local :
    (r : Runtime) (s : State) (v : View) (st : Status) (b : Bool) (cd : Option ℕ)
    → IsHeap r s v
    → IsHeap r (ready_state st b cd s) v
IsHeap-local r s v st b cd inv = record {
  rings = record {
    rings =
        λ pl g. subst (λ h. IsRing s.store.links h (v (key pl))) (same pl) (inv.rings.rings pl g);
    apart = inv.rings.apart;
  };
  pools = inv.pools;
  one_current = inv.one_current;
  current = inv.current;
  trap = inv.trap;
  trap_apart = inv.trap_apart;
  fresh = inv.fresh;
}
  where
    same : (pl : Place) → get_place pl s ≡ get_place pl (ready_state st b cd s)
    same (of_domain d f) = refl
    same (orphaned f) = refl
    same (variable p) = refl

-- The state in which the domain `dom` has got its rings.
abbrev pub with_rings : ℕ → State → State
with_rings dom s =
    set_current_fl dom s.empty_fl (record s { pools = upd s.pools dom (some no_rings) })

module _ (r : Runtime) (s : State) (v : View) (dom : ℕ) (inv : IsHeap r s v)
    (fresh : s.pools dom ≡ none) where
  pub ensure_rings-lem : s.malloc_ok ≡ true → ensure_rings r dom s ≡ with_rings dom s
  unfolding ensure_rings init_pool_rings
  ensure_rings-lem m =
      ap (λ o. elim o as (λ _. State) [ none ↦ init_pool_rings dom s | some _ ↦ s ]) fresh
      ∙ ap
          (λ o. elim o as (λ _. State) [
            | some _ ↦ with_rings dom s
            | none ↦ if s.malloc_ok then with_rings dom s else record s { errno = e_nomem }
          ])
          fresh
      ∙ ap (λ b. if b then with_rings dom s else record s { errno = e_nomem }) m

  same_rings : (d : ℕ) → rings_of d (with_rings dom s) ≡ rings_of d s
  unfolding set_current_fl
  same_rings d = elim (eq_cases d dom) [
    | inl e ↦
        ap
          (λ b. elim (if b then some no_rings else s.pools d) as (λ _. PoolRings) [
            | none ↦ no_rings
            | some ps ↦ ps
          ])
          (eq→== d dom e)
        ∙ sym (
            ap (λ o. elim o as (λ _. PoolRings) [ none ↦ no_rings | some ps ↦ ps ])
              (ap s.pools e ∙ fresh))
    | inr k ↦ rw (ne→== d dom k, rings_of) refl
  ]

  same_place : (pl : Place) → get_place pl (with_rings dom s) ≡ get_place pl s
  unfolding set_current_fl
  same_place (of_domain d f) = ap (get_field f) (same_rings d)
  same_place (orphaned f) = refl
  same_place (variable p) = refl

  no_current : v (cur_key dom) ≡ []
  no_current = empty (v (cur_key dom)) (
      subst (λ h. IsRing s.store.links h (v (cur_key dom)))
        (ap (λ o. (elim o as (λ _. PoolRings) [ none ↦ no_rings | some ps ↦ ps ]).current) fresh)
        (inv.rings.rings (of_domain dom current_ring) tt))
    where
      empty : (xs : List ℕ) → IsRing s.store.links 0 xs → xs ≡ []
      empty [] h = refl
      empty (x ∷ xs) h = absurd (h.1.0 h.0)

  pub with_rings-IsHeap : IsHeap r (with_rings dom s) v
  unfolding set_current_fl
  with_rings-IsHeap = record {
    rings = record {
      rings = λ pl g.
          subst (λ h. IsRing s.store.links h (v (key pl))) (sym (same_place pl))
            (inv.rings.rings pl g);
      apart = inv.rings.apart;
    };
    pools = inv.pools;
    one_current = inv.one_current;
    current = λ d h. elim (eq_cases d dom) [
      | inl e ↦
          ap (λ b. if b then s.empty_fl else s.current_fl d) (eq→== d dom e)
          ∙ sym (
              ap (λ x. current_of (v (cur_key x)) s.empty_fl) e
              ∙ ap (λ xs. current_of xs s.empty_fl) no_current)
      | inr k ↦
          ap (λ b. if b then s.empty_fl else s.current_fl d) (ne→== d dom k)
          ∙ inv.current d
              (elim h [ inl z ↦ inl z | inr m ↦ inr (λ e. m (upd_ne s.pools dom _ d k ∙ e)) ])
    ];
    trap = inv.trap;
    trap_apart = inv.trap_apart;
    fresh = inv.fresh;
  }

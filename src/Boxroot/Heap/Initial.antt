-- ===== src/Boxroot/Heap/Initial.antt =====
-- The state before the first call.
use ocaml_boxroot.Prelude.{ℕ, ◌≡◌, refl, ◌∙◌, ap, inl, inr, [], none, some, arith}
use mathlib.Core.Bool.{false≢true}
use ocaml_boxroot.Words.{Runtime}
use ocaml_boxroot.Boxroot.State.{
  State, PoolRings, Place, of_domain, orphaned, variable, Field, old_ring, young_ring, current_ring,
  free_ring, get_place, get_field, no_rings,
}
use ocaml_boxroot.Boxroot.Rings.{IsGlobal}
use ocaml_boxroot.Boxroot.Heap.{View, Fresh, IsHeap}

-- No pool is in any place.
abbrev pub no_pools : View
no_pools i = []

none_yet : (f : Field) → get_field f no_rings ≡ 0
none_yet old_ring = refl
none_yet young_ring = refl
none_yet current_ring = refl
none_yet free_ring = refl

-- Before the first call, when no domain has rings, the orphans are none, the list of domain 0 is
-- the static variable, which is its own next, and the blocks that the platform will give are
-- aligned and distinct, the state is well formed, with no pool in it.
pub initial-IsHeap :
    (r : Runtime) (s : State)
    → ((d : ℕ) → s.pools d ≡ none)
    → s.orphan ≡ no_rings
    → s.current_fl 0 ≡ s.empty_fl
    → (s.store.free_list s.empty_fl).next ≡ s.empty_fl
    → Fresh no_pools s.empty_fl s.memory
    → IsHeap r s no_pools
initial-IsHeap r s pools orphan list trap fresh = record {
  rings = record { rings = heads; apart = λ i j n. tt };
  pools = λ i p m. absurd (false≢true m);
  one_current = λ d. omega arith;
  current = λ d h. elim h [ inl z ↦ ap s.current_fl z ∙ list | inr n ↦ absurd (n (pools d)) ];
  trap = trap;
  trap_apart = λ m. false≢true m.1;
  fresh = fresh;
}
  where
    heads : (pl : Place) → IsGlobal pl → get_place pl s ≡ 0
    heads (of_domain d f) g =
        ap (λ o. get_field f (elim o as (λ _. PoolRings) [ none ↦ no_rings | some ps ↦ ps ]))
          (pools d)
        ∙ none_yet f
    heads (orphaned f) g = ap (get_field f) orphan ∙ none_yet f
    heads (variable p) g = absurd g

-- ===== src/Boxroot/Heap/Supplied.antt =====
-- `find_and_set_available_pool`: a current pool with a free slot, unless the platform has no memory.
use ocaml_boxroot.Prelude.{
  ℕ, ◌≡◌, refl, sym, ◌∙◌, ap, subst, ◌≢◌, ◌⊎◌, inl, inr, true, [], ◌∷◌, none, has, upd, eq→==,
}
use ocaml_boxroot.Words.{Runtime, IsRuntime}
use ocaml_boxroot.Pool.{Store}
use ocaml_boxroot.Pool.Count.{InPool}
use ocaml_boxroot.Pool.Invariant.{root_value}
use ocaml_boxroot.Boxroot.State.{State}
use ocaml_boxroot.Boxroot.Classes.{set_current_pool, find_and_set_available_pool}
use ocaml_boxroot.Boxroot.Heap.{View, cur_key, InHeap, Ready, IsHeap}
use ocaml_boxroot.Boxroot.Heap.Search.{RoomAt, IsFound}
use ocaml_boxroot.Boxroot.Heap.Fill.{refused, IsRefused}
use ocaml_boxroot.Boxroot.Heap.Supply.{find_available_pool-Got}
use ocaml_boxroot.Boxroot.Heap.Install.{set_current_pool-IsInstalled}

-- The domain's current pool `p` has a free slot, and the boxroots are those of before.
pub record IsSupplied (r : Runtime) (dom : ℕ) (s s' : State) (v v' : View) (p : ℕ) : Type 0 where
  pub nonzero : p ≢ 0
  pub heap : IsHeap r s' v'
  pub cur : v' (cur_key dom) ≡ p ∷ []
  pub room : RoomAt r s'.store p 1
  pub back : (q : ℕ) → InHeap v' q → (q ≡ p) ⊎ InHeap v q
  pub forth : (q : ℕ) → InHeap v q → InHeap v' q
  pub values :
      (q a : ℕ) → InHeap v q → InPool r q a → root_value s'.store q a ≡ root_value s.store q a
  pub source :
      InHeap v p
      ⊎ ((has p s.memory ≡ true) × ((a : ℕ) → InPool r p a → root_value s'.store p a ≡ none))
  pub empty_fl : s'.empty_fl ≡ s.empty_fl
  pub cached_dom_id : s'.cached_dom_id ≡ s.cached_dom_id
  pub thread_has_lock : s'.thread_has_lock ≡ s.thread_has_lock
  pub status : s'.status ≡ s.status
  pub some_rings : s'.pools dom ≢ none

-- The platform has no memory, and there is no current pool.
pub record IsOut (r : Runtime) (dom : ℕ) (s s' : State) (v v' : View) : Type 0 where
  pub no_memory : refused s.memory ≡ true
  pub kept : IsHeap r s' v'
  pub cur : v' (cur_key dom) ≡ []
  pub back : (q : ℕ) → InHeap v' q → InHeap v q
  pub forth : (q : ℕ) → InHeap v q → InHeap v' q
  pub values :
      (q a : ℕ) → InHeap v q → InPool r q a → root_value s'.store q a ≡ root_value s.store q a

abbrev pub Supplies : Runtime → ℕ → State → View → State → Type 0
Supplies r dom s v s' =
    (v' : View) × (IsOut r dom s s' v v' ⊎ ((p : ℕ) × IsSupplied r dom s s' v v' p))

module _ (r : Runtime) (ok : IsRuntime r) (dom : ℕ) where
  set_found :
      (s s' : State) (v v' : View) (p : ℕ)
      → v (cur_key dom) ≡ []
      → IsFound r dom s s' v v' p
      → Supplies r dom s v (set_current_pool dom p s')
  set_found s s' v v' p e f =
      let i = set_current_pool-IsInstalled r ok dom s' v' p f.heap f.nonzero f.spare (f.cur ∙ e) in
      let pool : InHeap (upd v' (cur_key dom) (p ∷ [])) p =
        (cur_key dom, ap (has p) i.cur ∙ rw (eq→== p p refl) refl) in
      (
        _,
        inr (
          p,
          record {
            nonzero = f.nonzero;
            heap = i.heap;
            cur = i.cur;
            room = i.room;
            back = λ q m. elim (i.back q m) [ inl k ↦ inl k | inr k ↦ inr (f.back q k) ];
            forth = λ q m. elim (f.forth q m) [
              | inl k ↦ subst (InHeap (upd v' (cur_key dom) (p ∷ []))) (sym k) pool
              | inr k ↦ i.forth q k
            ];
            values = λ q a m k. i.values q a ∙ f.values q a m k;
            source = elim f.source [
              | inl m ↦ inl m
              | inr h ↦ inr (h.0, λ a k. i.values p a ∙ h.1 a k)
            ];
            empty_fl = i.empty_fl ∙ f.empty_fl;
            cached_dom_id = i.cached_dom_id ∙ f.cached_dom_id;
            thread_has_lock = i.thread_has_lock ∙ f.thread_has_lock;
            status = i.status ∙ f.status;
            some_rings = i.some_rings;
          },
        ),
      )

  set_refused :
      (s s' : State) (v : View) (p : ℕ)
      → v (cur_key dom) ≡ []
      → p ≡ 0
      → IsRefused r s s' v
      → Supplies r dom s v (set_current_pool dom p s')
  unfolding set_current_pool
  set_refused s s' v p e z f =
      rw (eq→== p 0 z, set_current_pool)
        (
          v,
          inl (record {
            no_memory = f.no_memory;
            kept = f.heap;
            cur = e;
            back = λ q m. m;
            forth = λ q m. m;
            values = λ q a m k. ap (λ (st : Store). root_value st q a) f.store;
          }),
        )

  pub find_and_set_available_pool-Supplies :
      (s : State) (v : View)
      → IsHeap r s v
      → Ready s dom
      → v (cur_key dom) ≡ []
      → Supplies r dom s v (find_and_set_available_pool r dom s)
  unfolding find_and_set_available_pool
  find_and_set_available_pool-Supplies s v inv ready e =
      elim (find_available_pool-Got r ok dom s v inv ready) [
        | inl h ↦ set_refused s _ v _ e h.0 h.1
        | inr h ↦ set_found s _ v h.0 _ e h.1
      ]

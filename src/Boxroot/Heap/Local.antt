-- ===== src/Boxroot/Heap/Local.antt =====
-- Moves between the rings of a domain: composition, and what they keep.
use ocaml_boxroot.Prelude.{
  ℕ, ◌≤◌, ◌≡◌, refl, sym, ◌∙◌, ap, subst, ◌≢◌, ◌⊎◌, inl, inr, true, false, List, [], ◌∷◌, none,
  arith, has, length, Bool-cases, eq_cases,
}
use ocaml_boxroot.Words.{Runtime, IsRuntime}
use ocaml_boxroot.Pool.Kept.{PoolAt, KeptAt, PoolAt-KeptAt, root_value-KeptAt}
use ocaml_boxroot.Boxroot.State.{State}
use ocaml_boxroot.Boxroot.Rings.{IsRings}
use ocaml_boxroot.Boxroot.Heap.{
  View, extra, InHeap, own, cur_key, current_of, Fresh, Ready, IsLocal, IsFrame, IsHeap, IsShuffled,
}

pub own-extra : (dom i : ℕ) → own dom i ≡ true → extra i ≡ 0
own-extra dom i h = ground arith

pub own-cur_key : (dom d : ℕ) → own dom (cur_key d) ≡ false
own-cur_key dom d = ground arith

pub IsLocal-refl : (dom : ℕ) (v : View) → IsLocal dom v v
IsLocal-refl dom v = record {
  same = λ i h. refl;
  back = λ i p h m. (i, h, m);
  forth = λ i p h m. (i, h, m);
}

pub IsLocal-trans : (dom : ℕ) (u v w : View) → IsLocal dom u v → IsLocal dom v w → IsLocal dom u w
IsLocal-trans dom u v w a b = record {
  same = λ i h. b.same i h ∙ a.same i h;
  back = λ i p h m. let (j, k, n) = b.back i p h m in a.back j p k n;
  forth = λ i p h m. let (j, k, n) = a.forth i p h m in b.forth j p k n;
}

-- The same with what holds at an index of a pool.
pub IsLocal-back :
    (dom : ℕ) (v v' : View) (i p : ℕ)
    → IsLocal dom v v'
    → has p (v' i) ≡ true
    → (j : ℕ) × (extra j ≡ extra i) × (has p (v j) ≡ true)
IsLocal-back dom v v' i p l m = elim (Bool-cases (own dom i)) [
  | inl h ↦ let (j, k, n) = l.back i p h m in (j, own-extra dom j k ∙ sym (own-extra dom i h), n)
  | inr h ↦ (i, refl, ap (has p) (sym (l.same i h)) ∙ m)
]

pub InHeap-back : (dom : ℕ) (v v' : View) (p : ℕ) → IsLocal dom v v' → InHeap v' p → InHeap v p
InHeap-back dom v v' p l (i, m) = let (j, _, n) = IsLocal-back dom v v' i p l m in (j, n)

pub InHeap-forth : (dom : ℕ) (v v' : View) (p : ℕ) → IsLocal dom v v' → InHeap v p → InHeap v' p
InHeap-forth dom v v' p l (i, m) = elim (Bool-cases (own dom i)) [
  | inl h ↦ let (j, _, n) = l.forth i p h m in (j, n)
  | inr h ↦ (i, ap (has p) (l.same i h) ∙ m)
]

pub Fresh-mono :
    (v v' : View) (e : ℕ) (ps : List ℕ)
    → ((p : ℕ) → InHeap v' p → InHeap v p)
    → Fresh v e ps
    → Fresh v' e ps
Fresh-mono v v' e [] h f = tt
Fresh-mono v v' e (p ∷ ps) h (inl z, f) = (inl z, Fresh-mono v v' e ps h f)
Fresh-mono v v' e (p ∷ ps) h (inr q, f) =
    (inr (q.0, λ m. q.1 (h p m), q.2, q.3), Fresh-mono v v' e ps h f)

pub IsFrame-refl : (dom : ℕ) (s : State) → IsFrame dom s s
IsFrame-refl dom s = record {
  memory = refl;
  empty_fl = refl;
  cached_dom_id = refl;
  thread_has_lock = refl;
  status = refl;
  current_fl = λ d. refl;
  pools = λ d n. refl;
  ready = λ h. h;
  trap = refl;
}

pub IsFrame-trans : (dom : ℕ) (s t u : State) → IsFrame dom s t → IsFrame dom t u → IsFrame dom s u
IsFrame-trans dom s t u a b = record {
  memory = b.memory ∙ a.memory;
  empty_fl = b.empty_fl ∙ a.empty_fl;
  cached_dom_id = b.cached_dom_id ∙ a.cached_dom_id;
  thread_has_lock = b.thread_has_lock ∙ a.thread_has_lock;
  status = b.status ∙ a.status;
  current_fl = λ d. b.current_fl d ∙ a.current_fl d;
  pools = λ d n. b.pools d n ∙ a.pools d n;
  ready = λ h. b.ready (a.ready h);
  trap =
      subst (λ e. (u.store.free_list e).next ≡ (t.store.free_list e).next) a.empty_fl b.trap
      ∙ a.trap;
}

-- What a well-formed state says of the static variable and of the memory to come.
pub IsHeap-rest :
    (r : Runtime) (dom : ℕ) (s s' : State) (v v' : View)
    → IsHeap r s v
    → IsFrame dom s s'
    → ((p : ℕ) → InHeap v' p → InHeap v p)
    → ((s'.store.free_list s'.empty_fl).next ≡ s'.empty_fl)
      × (InHeap v' s'.empty_fl → ⊥)
      × Fresh v' s'.empty_fl s'.memory
IsHeap-rest r dom s s' v v' inv f back = (
  subst (λ e. (s'.store.free_list e).next ≡ e) (sym f.empty_fl) (f.trap ∙ inv.trap),
  λ m. inv.trap_apart (back s.empty_fl (subst (InHeap v') f.empty_fl m)),
  subst (λ e. Fresh v' e s'.memory) (sym f.empty_fl)
      (subst (Fresh v' s.empty_fl) (sym f.memory)
        (Fresh-mono v v' s.empty_fl s.memory back inv.fresh)),
)

-- A domain that is ready now was so before.
pub Ready-back :
    (dom d : ℕ) (s s' : State) → Ready s dom → IsFrame dom s s' → Ready s' d → Ready s d
Ready-back dom d s s' ready f h = elim (eq_cases d dom) [
  | inl e ↦ subst (Ready s) (sym e) ready
  | inr n ↦ subst (λ o. (d ≡ 0) ⊎ (o ≢ none)) (f.pools d n) h
]

module _ (r : Runtime) (dom : ℕ) (s s' : State) (v v' : View) (inv : IsHeap r s v)
    (ready : Ready s dom) (l : IsLocal dom v v') (f : IsFrame dom s s')
    (rings : IsRings s' v') where
  pub IsHeap-intro :
      ((i p : ℕ) → has p (v i) ≡ true → PoolAt r s'.store p (extra i)) → IsHeap r s' v'
  IsHeap-intro pools =
      let rest = IsHeap-rest r dom s s' v v' inv f (λ p. InHeap-back dom v v' p l) in
      record {
        rings = rings;
        pools = λ i p m.
            let (j, e, n) = IsLocal-back dom v v' i p l m in
            subst (PoolAt r s'.store p) e (pools j p n);
        one_current = λ d.
            subst (λ xs. length xs ≤ 1) (sym (l.same (cur_key d) (own-cur_key dom d)))
              (inv.one_current d);
        current = λ d h.
            f.current_fl d
            ∙ inv.current d (Ready-back dom d s s' ready f h)
            ∙ ap (λ xs. current_of xs s.empty_fl) (sym (l.same (cur_key d) (own-cur_key dom d)))
            ∙ ap (current_of (v' (cur_key d))) (sym f.empty_fl);
        trap = rest.0;
        trap_apart = rest.1;
        fresh = rest.2;
      }

  -- A change that leaves all pools alone but for their links, classes and domains.
  pub IsShuffled-intro :
      IsRuntime r
      → ((p : ℕ) → InHeap v p → KeptAt r s.store s'.store p)
      → IsShuffled r dom s s' v v'
  IsShuffled-intro ok kept = record {
    heap =
        IsHeap-intro
          (λ i p m. PoolAt-KeptAt r s.store s'.store p (extra i) (kept p (i, m)) (inv.pools i p m));
    local = l;
    values = λ p a m i. root_value-KeptAt r ok s.store s'.store p a (kept p m) i;
    frame = f;
  }

pub IsShuffled-refl :
    (r : Runtime) (dom : ℕ) (s : State) (v : View) → IsHeap r s v → IsShuffled r dom s s v v
IsShuffled-refl r dom s v inv = record {
  heap = inv;
  local = IsLocal-refl dom v;
  values = λ p a m i. refl;
  frame = IsFrame-refl dom s;
}

pub IsShuffled-trans :
    (r : Runtime) (dom : ℕ) (s t u : State) (v w x : View)
    → IsShuffled r dom s t v w
    → IsShuffled r dom t u w x
    → IsShuffled r dom s u v x
IsShuffled-trans r dom s t u v w x a b = record {
  heap = b.heap;
  local = IsLocal-trans dom v w x a.local b.local;
  values = λ p q m i. b.values p q (InHeap-forth dom v w p a.local m) i ∙ a.values p q m i;
  frame = IsFrame-trans dom s t u a.frame b.frame;
}

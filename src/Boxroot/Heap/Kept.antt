-- ===== src/Boxroot/Heap/Kept.antt =====
-- Operations that may change the current ring, and writes of an allocation count.
use ocaml_boxroot.Prelude.{ℕ, ◌+◌, ◌≤◌, ◌≡◌, refl, ◌∙◌, ◌≢◌, arith, eq→==, ne→==}
use ocaml_boxroot.Words.{Runtime}
use ocaml_boxroot.Pool.Kept.{PoolAt, KeptAt, IsPool-recount}
use ocaml_boxroot.Boxroot.State.{State, set_fl, fl_of}
use ocaml_boxroot.Boxroot.Heap.{View, IsHeap, IsFrame, IsKept, IsShuffled}
use ocaml_boxroot.Boxroot.Heap.Local.{InHeap-back, InHeap-forth}

pub IsKept-refl :
    (r : Runtime) (dom : ℕ) (s : State) (v : View) → IsHeap r s v → IsKept r dom s s v v
IsKept-refl r dom s v inv = record {
  heap = inv;
  back = λ p m. m;
  forth = λ p m. m;
  values = λ p a m i. refl;
  memory = refl;
  empty_fl = refl;
  cached_dom_id = refl;
  thread_has_lock = refl;
  status = refl;
  ready = λ h. h;
}

pub IsKept-trans :
    (r : Runtime) (dom : ℕ) (s t u : State) (v w x : View)
    → IsKept r dom s t v w
    → IsKept r dom t u w x
    → IsKept r dom s u v x
IsKept-trans r dom s t u v w x a b = record {
  heap = b.heap;
  back = λ p m. a.back p (b.back p m);
  forth = λ p m. b.forth p (a.forth p m);
  values = λ p q m i. b.values p q (a.forth p m) i ∙ a.values p q m i;
  memory = b.memory ∙ a.memory;
  empty_fl = b.empty_fl ∙ a.empty_fl;
  cached_dom_id = b.cached_dom_id ∙ a.cached_dom_id;
  thread_has_lock = b.thread_has_lock ∙ a.thread_has_lock;
  status = b.status ∙ a.status;
  ready = λ h. b.ready (a.ready h);
}

pub IsKept-IsShuffled :
    (r : Runtime) (dom : ℕ) (s t : State) (v w : View)
    → IsShuffled r dom s t v w
    → IsKept r dom s t v w
IsKept-IsShuffled r dom s t v w a = record {
  heap = a.heap;
  back = λ p. InHeap-back dom v w p a.local;
  forth = λ p. InHeap-forth dom v w p a.local;
  values = a.values;
  memory = a.frame.memory;
  empty_fl = a.frame.empty_fl;
  cached_dom_id = a.frame.cached_dom_id;
  thread_has_lock = a.frame.thread_has_lock;
  status = a.frame.status;
  ready = a.frame.ready;
}

-- A write of the allocation count of the pool `p`.
abbrev pub counted : ℕ → ℕ → State → State
counted p n s = set_fl p (record (fl_of p s) { alloc_count = n }) s

module _ (r : Runtime) (dom p n : ℕ) (s : State) where
  pub counted-IsFrame : IsFrame dom s (counted p n s)
  counted-IsFrame = record {
    memory = refl;
    empty_fl = refl;
    cached_dom_id = refl;
    thread_has_lock = refl;
    status = refl;
    current_fl = λ d. refl;
    pools = λ d k. refl;
    ready = λ h. h;
    trap = ground arith;
  }

  pub counted-KeptAt : (q : ℕ) → q ≢ p → KeptAt r s.store (counted p n s).store q
  counted-KeptAt q k = record {
    slots = λ a i. refl;
    next = rw (ne→== q p k) refl;
    end = rw (ne→== q p k) refl;
    count = rw (ne→== q p k) refl;
    delayed = refl;
  }

  pub counted-PoolAt :
      (k k' : ℕ)
      → k' ≤ 1
      → n + k ≡ (fl_of p s).alloc_count + k'
      → PoolAt r s.store p k
      → PoolAt r (counted p n s).store p k'
  counted-PoolAt k k' small e (fs, ds, v) = (
    fs,
    ds,
    IsPool-recount r s.store (counted p n s).store p fs ds k k' v (λ a i. refl)
        (rw (eq→== p p refl) refl) (rw (eq→== p p refl) refl) refl small (rw (eq→== p p refl) e),
  )

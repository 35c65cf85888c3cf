-- ===== src/Boxroot/Heap.antt =====
-- The well-formed states of boxroot/boxroot.c: the rings of all domains and of the orphans, and
-- the pools in them.
pub mod Local
pub mod Relabel
pub mod Moves
pub mod Inside
pub mod Collect
pub mod OnePool
pub mod Kept
pub mod Initial
pub mod First
pub mod GcHead
pub mod Current
pub mod Search
pub mod Fill
pub mod Supply
pub mod Install
pub mod Supplied
pub mod Refill
pub mod Touch
pub mod Roots
pub mod Demote
pub mod Delete
pub mod Modify
pub mod Scan
pub mod Tags
pub mod GcStep
pub mod GcMove
pub mod GcRounds
pub mod GcTail
pub mod GcRing
pub mod Emptied
pub mod Adopt
pub mod Uncurrent
pub mod Freed
pub mod Gather
pub mod MineRoots
pub mod ScanRoots
pub mod ValidateRing
pub mod Validate
pub mod Create
pub mod Setup
pub mod Slow
pub mod Hooked
pub mod Call
pub mod Errors
use ocaml_boxroot.Prelude.{
  ℕ, ◌+◌, ◌*◌, ◌%◌, ◌≤◌, ◌≡◌, refl, sym, ◌∙◌, ap, subst, ◌≢◌, ◌↔◌, ◌⊎◌, inl, inr, Bool, true, false,
  ◌||◌, List, [], ◌∷◌, Option, none, some, arith, has, NotIn, length, ◌==◌, if◌then◌else◌,
  Bool-cases,
}
use ocaml_boxroot.Words.{Runtime, bxr_pool_size, is_pool_member}
use ocaml_boxroot.Pool.{Store}
use ocaml_boxroot.Pool.Count.{InPool}
use ocaml_boxroot.Pool.Invariant.{root_value}
use ocaml_boxroot.Pool.Kept.{PoolAt, KeptAt, PoolAt-KeptAt}
use ocaml_boxroot.Boxroot.State.{State, PoolRings, Status, of_domain, current_ring}
pub use ocaml_boxroot.Boxroot.Rings.{View}
use ocaml_boxroot.Boxroot.Rings.{key, IsRings}

abbrev pub cur_key : ℕ → ℕ
cur_key dom = key (of_domain dom current_ring)

-- The count of a current pool is 1 too high.
abbrev pub extra : ℕ → ℕ
extra i = if i % 4 == 2 then 1 else 0

-- The pool `p` is in some ring.
abbrev pub InHeap : View → ℕ → Type 0
InHeap v p = (i : ℕ) × (has p (v i) ≡ true)

-- The free list that belongs to a current ring.
abbrev pub current_of : List ℕ → ℕ → ℕ
current_of [] e = e
current_of (p ∷ ps) e = p

-- Each block that the platform will give is aligned, and is no pool yet, nor the static variable.
abbrev pub Fresh : View → ℕ → List ℕ → Type 0
Fresh v e [] = Unit {0}
Fresh v e (p ∷ ps) =
    ((p ≡ 0) ⊎ ((p % bxr_pool_size ≡ 0) × (InHeap v p → ⊥) × (p ≢ e) × NotIn p ps)) × Fresh v e ps

-- The domain has rings, or is domain 0, whose free list is set from the start.
abbrev pub Ready : State → ℕ → Type 0
Ready s d = (d ≡ 0) ⊎ (s.pools d ≢ none)

pub record IsHeap (r : Runtime) (s : State) (v : View) : Type 0 where
  pub rings : IsRings s v
  pub pools : (i p : ℕ) → has p (v i) ≡ true → PoolAt r s.store p (extra i)
  pub one_current : (d : ℕ) → length (v (cur_key d)) ≤ 1
  pub current : (d : ℕ) → Ready s d → s.current_fl d ≡ current_of (v (cur_key d)) s.empty_fl
  pub trap : (s.store.free_list s.empty_fl).next ≡ s.empty_fl
  pub trap_apart : InHeap v s.empty_fl → ⊥
  pub fresh : Fresh v s.empty_fl s.memory

-- The boxroot `a` is there, and keeps the value `w` alive.
abbrev pub IsRoot : Runtime → Store → View → ℕ → ℕ → Type 0
IsRoot r st v a w = (p : ℕ) × InHeap v p × InPool r p a × (root_value st p a ≡ some w)

-- The old, young and free rings of a domain, and those of the orphans.
abbrev pub own : ℕ → ℕ → Bool
own dom i =
    (i == 4 + 4 * dom + 0)
    || (i == 4 + 4 * dom + 1)
    || (i == 4 + 4 * dom + 3)
    || ((i == 0) || (i == 1) || (i == 3))

-- Pools have moved only between the old, young and free rings of the domain and of the orphans.
pub record IsLocal (dom : ℕ) (v v' : View) : Type 0 where
  pub same : (i : ℕ) → own dom i ≡ false → v' i ≡ v i
  pub back :
      (i p : ℕ)
      → own dom i ≡ true
      → has p (v' i) ≡ true
      → (j : ℕ) × (own dom j ≡ true) × (has p (v j) ≡ true)
  pub forth :
      (i p : ℕ)
      → own dom i ≡ true
      → has p (v i) ≡ true
      → (j : ℕ) × (own dom j ≡ true) × (has p (v' j) ≡ true)

-- What else an operation on the rings of a domain leaves alone.
pub record IsFrame (dom : ℕ) (s s' : State) : Type 0 where
  pub memory : s'.memory ≡ s.memory
  pub empty_fl : s'.empty_fl ≡ s.empty_fl
  pub cached_dom_id : s'.cached_dom_id ≡ s.cached_dom_id
  pub thread_has_lock : s'.thread_has_lock ≡ s.thread_has_lock
  pub status : s'.status ≡ s.status
  pub current_fl : (d : ℕ) → s'.current_fl d ≡ s.current_fl d
  pub pools : (d : ℕ) → d ≢ dom → s'.pools d ≡ s.pools d
  pub ready : Ready s dom → Ready s' dom
  pub trap : (s'.store.free_list s.empty_fl).next ≡ (s.store.free_list s.empty_fl).next

-- `s'` is a well-formed state with the pools and the boxroots of `s`.
pub record IsShuffled (r : Runtime) (dom : ℕ) (s s' : State) (v v' : View) : Type 0 where
  pub heap : IsHeap r s' v'
  pub local : IsLocal dom v v'
  pub values :
      (p a : ℕ) → InHeap v p → InPool r p a → root_value s'.store p a ≡ root_value s.store p a
  pub frame : IsFrame dom s s'

-- The same for an operation that may change the current ring of the domain.
pub record IsKept (r : Runtime) (dom : ℕ) (s s' : State) (v v' : View) : Type 0 where
  pub heap : IsHeap r s' v'
  pub back : (p : ℕ) → InHeap v' p → InHeap v p
  pub forth : (p : ℕ) → InHeap v p → InHeap v' p
  pub values :
      (p a : ℕ) → InHeap v p → InPool r p a → root_value s'.store p a ≡ root_value s.store p a
  pub memory : s'.memory ≡ s.memory
  pub empty_fl : s'.empty_fl ≡ s.empty_fl
  pub cached_dom_id : s'.cached_dom_id ≡ s.cached_dom_id
  pub thread_has_lock : s'.thread_has_lock ≡ s.thread_has_lock
  pub status : s'.status ≡ s.status
  pub ready : Ready s dom → Ready s' dom

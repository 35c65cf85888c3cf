-- ===== src/Boxroot/State.antt =====
-- The globals of boxroot/boxroot.c, and the operations on places.
use ocaml_boxroot.Prelude.{ℕ, Bool, false, List, [], Option, none, some, upd, ◌==◌, if◌then◌else◌}
use ocaml_boxroot.Words.{Runtime, minus_one32}
use ocaml_boxroot.Ring.{Links, ring_push_back, ring_pop}
use ocaml_boxroot.Pool.{Store, FreeList, untracked, write_fl}

-- The pool rings of a domain: the heads, 0 for NULL.
pub record PoolRings : Type 0 where
  pub old : ℕ
  pub young : ℕ
  pub current : ℕ
  pub free : ℕ

pub data Field : Type 0 where
  old_ring young_ring current_ring free_ring : Field

abbrev pub get_field : Field → PoolRings → ℕ
get_field old_ring ps = ps.old
get_field young_ring ps = ps.young
get_field current_ring ps = ps.current
get_field free_ring ps = ps.free

abbrev pub set_field : Field → ℕ → PoolRings → PoolRings
set_field old_ring p ps = record ps { old = p }
set_field young_ring p ps = record ps { young = p }
set_field current_ring p ps = record ps { current = p }
set_field free_ring p ps = record ps { free = p }

abbrev pub no_rings : PoolRings
no_rings = record { old = 0; young = 0; current = 0; free = 0 }

-- BOXROOT_NOT_SETUP, BOXROOT_RUNNING, BOXROOT_TORE_DOWN, BOXROOT_INVALID.
pub data Status : Type 0 where
  not_setup running tore_down invalid : Status

pub data Errno : Type 0 where
  e_ok e_perm e_nomem : Errno

-- The calling thread: whether `Caml_state_opt` is not NULL, and `Caml_state->id`.
pub record Caller : Type 0 where
  pub caml_state : Bool
  pub domain_id : ℕ

-- `pools`, `orphan`, `bxr_current_free_list` (without its first entry, which is never changed),
-- the thread-local `bxr_cached_dom_id` (-1 is `none`) and `bxr_thread_has_lock` (of OCaml 4),
-- `status`, and `errno`. `memory` are the
-- answers that `posix_memalign` will give, 0 for ENOMEM, and ENOMEM behind the last; `malloc_ok`
-- tells whether `malloc` of a `pool_rings` succeeds; `freed` are the pools given back, the latest
-- first. `empty_fl` is the address of the static variable.
pub record State : Type 0 where
  pub store : Store
  pub pools : ℕ → Option PoolRings
  pub orphan : PoolRings
  pub current_fl : ℕ → ℕ
  pub cached_dom_id : Option ℕ
  pub thread_has_lock : Bool
  pub status : Status
  pub errno : Errno
  pub memory : List ℕ
  pub malloc_ok : Bool
  pub freed : List ℕ
  pub empty_fl : ℕ

-- `bxr_domain_lock_held`, of boxroot/ocaml_hooks.h.
abbrev pub lock_held : Runtime → Caller → State → Bool
lock_held r c s = if r.ocaml_multicore then c.caml_state else s.thread_has_lock

-- What a `pool **` points to.
pub data Place : Type 0 where
  of_domain : ℕ → Field → Place
  orphaned : Field → Place
  variable : ℕ → Place

-- The rings of a domain. Where `pools[dom]` is NULL the source would read through it; here the rings
-- are empty then, and a write by `set_place` makes them. The callbacks and `bxr_create_slow` test
-- `pools[dom]` first, and a pool that bears a domain's number was made with its rings there.
abbrev pub rings_of : ℕ → State → PoolRings
rings_of dom s = elim (s.pools dom) [ none ↦ no_rings | some ps ↦ ps ]

abbrev pub get_place : Place → State → ℕ
get_place (of_domain dom f) s = get_field f (rings_of dom s)
get_place (orphaned f) s = get_field f s.orphan
get_place (variable p) s = p

-- A write to a local variable is not read again.
abbrev pub set_place : Place → ℕ → State → State
set_place (of_domain dom f) p s = record s {
  pools = upd s.pools dom (some (set_field f p (rings_of dom s)));
}
set_place (orphaned f) p s = record s { orphan = set_field f p s.orphan }
set_place (variable q) p s = s

abbrev pub set_links : Links → State → State
set_links l s = record s { store = record (s.store) { links = l } }

-- `ring_push_back(source, target)` but for its assertions, for a source that is a single pool:
-- `push_checked` of Boxroot/Collect has them.
unfoldable pub push_place : ℕ → Place → State → State
push_place source target s =
    let (head, l) = ring_push_back source (get_place target s) s.store.links in
    set_place target head (set_links l s)

-- `ring_pop(target)`.
unfoldable pub pop_place : Place → State → ℕ × State
pop_place target s =
    let (front, head, l) = ring_pop (get_place target s) s.store.links in
    (front, set_place target head (set_links l s))

-- `p->free_list = f`, by fields.
abbrev pub set_fl : ℕ → FreeList → State → State
set_fl p f s = record s { store = write_fl p f s.store }

abbrev pub fl_of : ℕ → State → FreeList
fl_of p s = s.store.free_list p

-- `bxr_current_free_list[dom_id + 1] = fl`.
unfoldable pub set_current_fl : ℕ → ℕ → State → State
set_current_fl dom fl s = record s { current_fl = upd s.current_fl dom fl }

-- `init_pool_rings`.
unfoldable pub init_pool_rings : ℕ → State → State
init_pool_rings dom s = elim (s.pools dom) [
  | some ps ↦ set_current_fl dom s.empty_fl (record s { pools = upd s.pools dom (some no_rings) })
  | none ↦
      if s.malloc_ok
      then set_current_fl dom s.empty_fl (record s { pools = upd s.pools dom (some no_rings) })
      else record s { errno = e_nomem }
]

-- The static initialisers: no domain has rings, there are no orphans, `empty_fl` is its own next,
-- and it is the list of domain 0. `st` is the memory elsewhere, and the other arguments are the
-- answers of the platform and the address of `empty_fl`.
unfoldable pub initial : Store → List ℕ → Bool → ℕ → State
initial st memory malloc_ok empty_fl = record {
  store =
      write_fl empty_fl
        (record {
          next = empty_fl;
          end = 0;
          alloc_count = minus_one32;
          domain_id = minus_one32;
          class = untracked;
        })
        st;
  pools = λ dom. none;
  orphan = no_rings;
  current_fl = λ dom. if dom == 0 then empty_fl else 0;
  cached_dom_id = none;
  thread_has_lock = false;
  status = not_setup;
  errno = e_ok;
  memory = memory;
  malloc_ok = malloc_ok;
  freed = [];
  empty_fl = empty_fl;
}

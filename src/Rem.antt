-- ===== src/Rem.antt =====
-- boxroot/rem_boxroot.c: roots with young values are in the remembered set of the OCaml runtime, so
-- a minor collection scans no pool. A pool has two free lists, and the slots of the minor one are
-- in the remembered set. Counters of `struct stats` are left out.
pub mod Api
pub mod Laws
pub mod Validate
pub mod Invariant
pub mod Accepted
pub mod Steps
pub mod Alloc
pub mod Create
mod Tests
mod PoolTests
use ocaml_boxroot.Prelude.{
  ℕ, zero, suc, ◌+◌, ◌-◌, ◌*◌, ◌/◌, ◌%◌, Bool, true, false, not, ◌||◌, List, [], ◌∷◌, Option, none,
  some, upd, ◌==◌, if◌then◌else◌, ◌>>=◌,
}
use ocaml_boxroot.Words.{
  Runtime, get_pool_header, is_young_block, is_empty_free_list, empty_free_list, incr32, decr32,
}
use ocaml_boxroot.Ring.{Links, ring_link, ring_push_back, ring_pop}

-- POOL_SIZE.
abbrev pub pool_size : ℕ
pool_size = 16384

-- `struct header`: five pointers and an int, padded.
abbrev pub sizeof_header : ℕ
sizeof_header = 48

-- POOL_ROOTS_CAPACITY.
abbrev pub pool_roots_capacity : ℕ
pool_roots_capacity = (pool_size - sizeof_header) / 8

-- `struct header`, without `prev` and `next`.
pub record Header : Type 0 where
  pub major_free_list : ℕ
  pub minor_free_list : ℕ
  pub last_minor_free_slot : ℕ
  pub alloc_count : ℕ

-- `pools`, `full_pools`, `setup`, and the memory: words of slots, headers of pools and their links.
-- `remembered` are the slots that `Add_to_ref_table` has been called with, the latest first;
-- `memory` are the answers that `posix_memalign` will give, 0 for ENOMEM, and ENOMEM behind the
-- last; `freed` are the pools given back, the latest first.
pub record Rem : Type 0 where
  pub slots : ℕ → ℕ
  pub header : ℕ → Header
  pub links : Links
  pub pools : ℕ
  pub full_pools : ℕ
  pub setup : Bool
  pub remembered : List ℕ
  pub memory : List ℕ
  pub freed : List ℕ

-- `is_free_slot`: `(p | 1) == (v & ~(POOL_SIZE - 2))`.
unfoldable pub is_free_slot : ℕ → ℕ → Bool
is_free_slot v p = p / 2 * 2 + 1 == v / pool_size * pool_size + v % 2

-- `(v | 1) - 1`.
unfoldable pub untag_free_slot : ℕ → ℕ
untag_free_slot v = v / 2 * 2 + 1 - 1

-- `s | 1`.
unfoldable pub tag_free_slot : ℕ → ℕ
tag_free_slot s = s / 2 * 2 + 1

-- `free_list_push`: the new head of the list, and the slots.
unfoldable pub free_list_push : ℕ → ℕ → (ℕ → ℕ) → ℕ × (ℕ → ℕ)
free_list_push s free_list m = (s, upd m s (tag_free_slot free_list))

-- `free_list_pop`: the slot, and the new head of the list.
unfoldable pub free_list_pop : ℕ → (ℕ → ℕ) → ℕ × ℕ
free_list_pop free_list m = (free_list, untag_free_slot (m free_list))

abbrev pub set_header : ℕ → Header → Rem → Rem
set_header p h s = record s { header = upd s.header p h }

abbrev pub remember : ℕ → Rem → Rem
remember slot s = record s { remembered = slot ∷ s.remembered }

abbrev pub is_full_pool : ℕ → Rem → Bool
is_full_pool p s = (s.header p).alloc_count == pool_roots_capacity

abbrev pub is_empty_pool : ℕ → Rem → Bool
is_empty_pool p s = (s.header p).alloc_count == 0

-- The loop of `get_empty_pool`, from the last slot to the first, with `n` slots left.
unfoldable pub push_slots : ℕ → ℕ → ℕ → (ℕ → ℕ) → ℕ × (ℕ → ℕ)
push_slots zero p free_list m = (free_list, m)
push_slots (suc n) p free_list m =
    let (head, m1) = free_list_push (p + sizeof_header + 8 * n) free_list m in
    push_slots n p head m1

-- `get_empty_pool`: 0 is NULL.
unfoldable pub get_empty_pool : Rem → ℕ × Rem
get_empty_pool s = elim s.memory [
  | [] ↦ (0, s)
  | p ∷ rest ↦
      if p == 0
      then (0, record s { memory = rest })
      else let (major, m) = push_slots pool_roots_capacity p (empty_free_list p) s.slots in
        (
          p,
          record s {
            memory = rest;
            links = ring_link p p s.links;
            slots = m;
            header = upd s.header p (record {
              major_free_list = major;
              minor_free_list = empty_free_list p;
              last_minor_free_slot = 0;
              alloc_count = 0;
            });
          },
        )
]

-- The loop of `find_available_pool`.
unfoldable pub skip_full_pools : ℕ → Rem → Option Rem
skip_full_pools zero s =
    if s.pools == 0 then some s else if is_full_pool s.pools s then none else some s
skip_full_pools (suc n) s = elim (s.pools == 0 || not (is_full_pool s.pools s)) [
  | true ↦ some s
  | false ↦
      let (p, rest, l) = ring_pop s.pools s.links in
      let (full, l1) = ring_push_back p s.full_pools l in
      skip_full_pools n (record s { pools = rest; full_pools = full; links = l1 })
]

-- `find_available_pool`.
unfoldable pub find_available_pool : ℕ → Rem → Option (ℕ × Rem)
find_available_pool n s = do
  s1 ← skip_full_pools n s
  some (
      if s1.pools == 0
      then (let (p, s2) = get_empty_pool s1 in (p, record s2 { pools = p }))
      else (s1.pools, s1))

-- `pool_remove`.
unfoldable pub pool_remove : ℕ → Rem → ℕ × Rem
pool_remove p s =
    let (removed, rest, l) = ring_pop p s.links in
    (
      removed,
      record s {
        links = l;
        pools = if removed == s.pools then rest else s.pools;
        full_pools = if removed == s.full_pools then rest else s.full_pools;
      },
    )

-- `alloc_slot` in the pool `p`, which is not full.
unfoldable pub alloc_in_pool : Bool → ℕ → Rem → ℕ × Rem
alloc_in_pool for_young p s =
    let h = record (s.header p) { alloc_count = incr32 (s.header p).alloc_count } in
    let (major, major_rest) = free_list_pop h.major_free_list s.slots in
    let (minor, minor_rest) = free_list_pop h.minor_free_list s.slots in
    let from_major = set_header p (record h { major_free_list = major_rest }) s in
    let from_minor = set_header p (record h { minor_free_list = minor_rest }) s in
    if for_young
    then (if not (is_empty_free_list h.minor_free_list p)
        then (minor, from_minor)
        else (major, remember major from_major))
    else (if not (is_empty_free_list h.major_free_list p)
        then (major, from_major)
        else (minor, from_minor))

-- `alloc_slot`. `n` is the fuel of the loop over the pools; 0 is NULL.
unfoldable pub alloc_slot : ℕ → Bool → Rem → Option (ℕ × Rem)
alloc_slot n for_young s =
    if not (s.pools == 0 || is_full_pool s.pools s)
    then some (alloc_in_pool for_young s.pools s)
    else if not s.setup
    then some (0, s)
    else do
      (p, s1) ← find_available_pool n s
      some (if p == 0 then (0, s1) else alloc_in_pool for_young p s1)

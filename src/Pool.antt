-- ===== src/Pool.antt =====
-- One pool of boxroot/boxroot.c: its header, its slots and the two free lists, with the inline
-- operations of boxroot/boxroot.h that work on one pool.
-- A `bxr_slot` is a word of `slots` at its address. The struct at address `p` is spread over
-- `free_list p` (at offset 0, so a `bxr_free_list *` and its `pool *` are one address),
-- `delayed_fl p` and the links. Mutexes and the memory orders are left out: an operation is atomic
-- here.
pub mod Chain
pub mod Count
pub mod Invariant
pub mod Init
pub mod Create
pub mod Modify
pub mod Delete
pub mod Gc
pub mod Scan
pub mod Kept
mod Tests
use ocaml_boxroot.Prelude.{
  ℕ, zero, suc, ◌+◌, ◌-◌, ◌*◌, ◌/◌, ◌%◌, ◌^◌, ◌≡◌, Bool, true, false, not, ◌&&◌, List, [], ◌∷◌,
  Option, none, some, upd, ltb, leb, ◌==◌, if◌then◌else◌,
}
use ocaml_boxroot.Words.{
  Runtime, bxr_pool_size, bxr_dealloc_threshold, pool_capacity, slot_addr, is_pool_member,
  is_empty_free_list, empty_free_list, incr32, decr32, add32, sub32, sle32, minus_one32,
  in_young_range,
}
use ocaml_boxroot.Ring.{Links, ring_link}

-- YOUNG, OLD, UNTRACKED.
pub data Class : Type 0 where
  young old untracked : Class

pub record FreeList : Type 0 where
  pub next : ℕ
  pub end : ℕ
  pub alloc_count : ℕ
  pub domain_id : ℕ
  pub class : Class

pub record AtomicFreeList : Type 0 where
  pub a_next : ℕ
  pub end : ℕ
  pub a_alloc_count : ℕ

pub record Store : Type 0 where
  pub slots : ℕ → ℕ
  pub free_list : ℕ → FreeList
  pub delayed_fl : ℕ → AtomicFreeList
  pub links : Links

abbrev pub write_slot : ℕ → ℕ → Store → Store
write_slot s v st = record st { slots = upd st.slots s v }

abbrev pub write_fl : ℕ → FreeList → Store → Store
write_fl p f st = record st { free_list = upd st.free_list p f }

abbrev pub write_delayed : ℕ → AtomicFreeList → Store → Store
write_delayed p d st = record st { delayed_fl = upd st.delayed_fl p d }

abbrev pub is_full_pool : ℕ → Store → Bool
is_full_pool p st = is_empty_free_list (st.free_list p).next p

abbrev pub is_not_too_full : ℕ → Store → Bool
is_not_too_full p st = sle32 (st.free_list p).alloc_count (bxr_dealloc_threshold / 8)

abbrev pub anticipated_alloc_count : ℕ → Store → ℕ
anticipated_alloc_count p st = add32 (st.free_list p).alloc_count (st.delayed_fl p).a_alloc_count

-- The part of `boxroot_create` behind its guard: takes the first free slot. `none` means that the
-- free list is empty, and the caller goes the slow way.
unfoldable pub create_fast : ℕ → ℕ → Store → Option (ℕ × Store)
create_fast fl init st =
    let f = st.free_list fl in
    let new_root = f.next in
    if is_empty_free_list new_root fl
    then none
    else some (
      new_root,
      write_slot new_root init (
          write_fl fl (record f { next = st.slots new_root; alloc_count = incr32 f.alloc_count })
            st),
    )

-- `bxr_free_slot`, with BXR_MULTITHREAD true: the slot goes to the front of the free list. The
-- result tells whether a deallocation threshold is passed.
unfoldable pub bxr_free_slot : ℕ → ℕ → Store → Bool × Store
bxr_free_slot fl s st =
    let f = st.free_list fl in
    let next = f.next in
    let alloc_count = decr32 f.alloc_count in
    (
      (alloc_count % bxr_dealloc_threshold) == 0,
      write_fl fl
          (record f {
            next = s;
            end = if is_empty_free_list next fl then s else f.end;
            alloc_count = alloc_count;
          })
          (write_slot s next st),
    )

-- `free_slot_atomic`: the slot goes to the front of the delayed free list.
unfoldable pub free_slot_atomic : ℕ → ℕ → Store → Store
free_slot_atomic p new_next st =
    let d = st.delayed_fl p in
    let old_next = d.a_next in
    write_delayed p
      (record {
        a_next = new_next;
        end = if is_empty_free_list old_next p then new_next else d.end;
        a_alloc_count = decr32 d.a_alloc_count;
      })
      (write_slot new_next old_next st)

-- `gc_pool`: puts the delayed free list in front of the free list.
unfoldable pub gc_pool : ℕ → Store → ℕ × Store
gc_pool p st =
    let f = st.free_list p in
    let d = st.delayed_fl p in
    let old_alloc_count = d.a_alloc_count in
    if old_alloc_count == 0 then (0, st) else (
      old_alloc_count,
      write_slot d.end f.next (
          write_delayed p (record d { a_next = empty_free_list p; a_alloc_count = 0 })
            (write_fl p
              (record f {
                next = d.a_next;
                end = if is_full_pool p st then d.end else f.end;
                alloc_count = anticipated_alloc_count p st;
              })
              st)),
    )

-- The GC's action is called on the slot before the loop goes on.
abbrev scan_found : ℕ → Option (List ℕ × ℕ) → Option (List ℕ × ℕ)
scan_found current none = none
scan_found current (some (found, stop)) = some (current ∷ found, stop)

module _ (r : Runtime) where
  -- The loop of `get_empty_pool` with `n` slots left to link, from the back.
  pub link_slots : ℕ → ℕ → (ℕ → ℕ) → ℕ → ℕ
  link_slots p zero m = m
  link_slots p (suc i) m = link_slots p i (upd m (slot_addr r p i) (slot_addr r p (suc i)))

  -- `get_empty_pool` at the memory that the platform has given, its statistics apart.
  unfoldable pub init_pool : ℕ → Store → Store
  unfolding link_slots ring_link
  init_pool p st = record {
    slots =
        link_slots p (pool_capacity r - 1)
          (upd st.slots (slot_addr r p (pool_capacity r - 1)) (empty_free_list p));
    free_list = upd st.free_list p (record {
      next = slot_addr r p 0;
      end = slot_addr r p (pool_capacity r - 1);
      alloc_count = 0;
      domain_id = minus_one32;
      class = untracked;
    });
    delayed_fl =
        upd st.delayed_fl p (record { a_next = empty_free_list p; end = 0; a_alloc_count = 0 });
    links = ring_link p p st.links;
  }

  -- The loop of `scan_pool_gen`: the slots on which the GC's action is called, in order, and the
  -- slot where the loop stops. `n` slots are left from `current` to the end of the pool, behind
  -- which the program must not read: `none`.
  pub scan_gen_loop : ℕ → Store → ℕ → ℕ → ℕ → Option (List ℕ × ℕ)
  scan_gen_loop zero st p current allocs_to_find =
      if allocs_to_find == 0 then some ([], current) else none
  scan_gen_loop (suc n) st p current allocs_to_find = elim (allocs_to_find == 0) [
    | true ↦ some ([], current)
    | false ↦ elim (is_pool_member (st.slots current) p) [
      | true ↦ scan_gen_loop n st p (current + 8) allocs_to_find
      | false ↦ scan_found current (scan_gen_loop n st p (current + 8) (allocs_to_find - 1))
    ]
  ]

  -- `scan_pool_gen`: the slots scanned, and the work done.
  unfoldable pub scan_pool_gen : Store → ℕ → Option (List ℕ × ℕ)
  unfolding scan_gen_loop
  scan_pool_gen st p =
      let start = slot_addr r p 0 in
      elim (scan_gen_loop (pool_capacity r) st p start (anticipated_alloc_count p st)) [
        | none ↦ none
        | some (found, stop) ↦ some (found, (stop - start) / 8)
      ]

  pub scan_young_loop : ℕ → Store → ℕ → List ℕ
  scan_young_loop zero st current = []
  scan_young_loop (suc n) st current =
      let v = st.slots current in
      let rest = scan_young_loop n st (current + 8) in
      if in_young_range r v && r.is_block v then current ∷ rest else rest

  -- `scan_pool_young`.
  unfoldable pub scan_pool_young : Store → ℕ → List ℕ × ℕ
  unfolding scan_young_loop
  scan_pool_young st p = (scan_young_loop (pool_capacity r) st (slot_addr r p 0), pool_capacity r)

  -- The first loop of `validate_pool`, with `n` = POOL_CAPACITY - pos: the final `pos`, or `none`
  -- if an assertion fails.
  pub check_free_list : ℕ → Store → ℕ → ℕ → ℕ → Option ℕ
  check_free_list zero st pl curr pos = if is_empty_free_list curr pl then some pos else none
  check_free_list (suc n) st pl curr pos = elim (is_empty_free_list curr pl) [
    | true ↦ some pos
    | false ↦ elim (leb (slot_addr r pl 0) curr && ltb curr (slot_addr r pl (pool_capacity r))) [
      | true ↦ check_free_list n st pl (st.slots curr) (pos + 1)
      | false ↦ none
    ]
  ]

  -- The assertion on a slot that holds a value: only a young pool has young blocks.
  pub class_allows : Class → ℕ → Bool
  class_allows young v = true
  class_allows _ v = if r.is_block v then not (r.is_young v) else true

  -- Its second loop, over `n` slots: the count, or `none` if an assertion fails.
  pub check_values : ℕ → Store → ℕ → ℕ → ℕ → Option ℕ
  unfolding class_allows
  check_values zero st pl s count = some count
  check_values (suc n) st pl s count = elim (is_pool_member (st.slots s) pl) [
    | true ↦ check_values n st pl (s + 8) count
    | false ↦ elim (class_allows (st.free_list pl).class (st.slots s)) [
      | true ↦ check_values n st pl (s + 8) (count + 1)
      | false ↦ none
    ]
  ]

  -- `validate_pool`: whether all its assertions hold.
  unfoldable pub validate_pool : Store → ℕ → Bool
  unfolding check_free_list check_values
  validate_pool st pl =
      let f = st.free_list pl in
      let capacity = pool_capacity r in
      if f.next == 0
      then elim f.class [ untracked ↦ true | _ ↦ false ]
      else elim (check_free_list capacity st pl f.next 0) [
        | none ↦ false
        | some pos ↦
            (pos == sub32 capacity f.alloc_count)
            && elim (check_values capacity st pl (slot_addr r pl 0) 0) [
              | none ↦ false
              | some count ↦ count == anticipated_alloc_count pl st
            ]
      ]

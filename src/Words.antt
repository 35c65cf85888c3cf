-- ===== src/Words.antt =====
-- Machine words: the address arithmetic of boxroot/boxroot.h and boxroot/boxroot.c ("Tests in the
-- hot path"), `int` counters, and what the allocator reads of the OCaml runtime.
-- An address or a `value` is a natural number, an `int` its 32-bit pattern, and a mask by
-- ~(BXR_POOL_SIZE - 1) is written as a division by BXR_POOL_SIZE.
pub mod Laws
pub mod Samples
mod Tests
use ocaml_boxroot.Prelude.{
  ℕ, ◌+◌, ◌-◌, ◌*◌, ◌/◌, ◌%◌, ◌^◌, ◌≤◌, ◌<◌, ◌≡◌, Bool, ◌&&◌, ltb, leb, ◌==◌, if◌then◌else◌,
}

abbrev pub bxr_pool_log_size : ℕ
bxr_pool_log_size = 14

abbrev pub bxr_pool_size : ℕ
bxr_pool_size = 2 ^ bxr_pool_log_size

abbrev pub bxr_dealloc_threshold : ℕ
bxr_dealloc_threshold = bxr_pool_size / 2

-- `Bxr_get_pool_header`, and `get_pool_header` of boxroot.c.
unfoldable pub get_pool_header : ℕ → ℕ
get_pool_header s = s / bxr_pool_size * bxr_pool_size

-- `p == (v & ~(BXR_POOL_SIZE - 2))`: the mask keeps the high bits and the lowest one.
unfoldable pub is_pool_member : ℕ → ℕ → Bool
is_pool_member v p = p == v / bxr_pool_size * bxr_pool_size + v % 2

abbrev pub is_empty_free_list : ℕ → ℕ → Bool
is_empty_free_list v p = v == p

-- `empty_free_list(p)`: a pointer to the pool itself.
abbrev pub empty_free_list : ℕ → ℕ
empty_free_list p = p

-- `int` arithmetic on 32-bit patterns.
abbrev pub incr32 : ℕ → ℕ
incr32 x = (x + 1) % 2 ^ 32

abbrev pub decr32 : ℕ → ℕ
decr32 x = (x + 2 ^ 32 - 1) % 2 ^ 32

abbrev pub add32 : ℕ → ℕ → ℕ
add32 x y = (x + y) % 2 ^ 32

abbrev pub sub32 : ℕ → ℕ → ℕ
sub32 x y = (x + 2 ^ 32 - y) % 2 ^ 32

-- The signed comparison `x <= y`.
abbrev pub sle32 : ℕ → ℕ → Bool
sle32 x y = leb ((x + 2 ^ 31) % 2 ^ 32) ((y + 2 ^ 31) % 2 ^ 32)

abbrev pub sub64 : ℕ → ℕ → ℕ
sub64 x y = (x + 2 ^ 64 - y) % 2 ^ 64

abbrev pub minus_one32 : ℕ
minus_one32 = 2 ^ 32 - 1

-- What the program takes from its platform and from the OCaml runtime: `sizeof(pool)`, which
-- contains a pthread_mutex_t; OCAML_MULTICORE; the bounds of the minor heap (the minor heaps, if
-- multicore); and the macros `Is_block` and `Is_young`.
pub record Runtime : Type 0 where
  pub sizeof_pool : ℕ
  pub ocaml_multicore : Bool
  pub young_start : ℕ
  pub young_end : ℕ
  pub is_block : ℕ → Bool
  pub is_young : ℕ → Bool

-- Their documented behaviour: slots are aligned and the pool has room for one (a static_assert);
-- a block is an even word; a young block lies strictly inside the minor heap.
pub record IsRuntime (r : Runtime) : Type 0 where
  pub sizeof_aligned : r.sizeof_pool % 8 ≡ 0
  pub sizeof_pos : 0 < r.sizeof_pool
  pub room : r.sizeof_pool + 8 ≤ bxr_pool_size
  pub block_even : (v : ℕ) → r.is_block v ≡ (v % 2 == 0)
  pub young_inside : (v : ℕ) → r.is_young v ≡ (ltb r.young_start v && ltb v r.young_end)
  pub heap_bounds : (r.young_start + 2 ≤ r.young_end) × (r.young_end < 2 ^ 64)

module _ (r : Runtime) where
  unfoldable pub is_young_block : ℕ → Bool
  is_young_block v = r.is_block v && r.is_young v

  -- POOL_CAPACITY.
  abbrev pub pool_capacity : ℕ
  pool_capacity = (bxr_pool_size - r.sizeof_pool) / 8

  -- `&p->roots[i]`.
  abbrev pub slot_addr : ℕ → ℕ → ℕ
  slot_addr p i = p + r.sizeof_pool + 8 * i

  -- The word's test in `scan_pool_young`, which compares without a branch on both bounds.
  unfoldable pub in_young_range : ℕ → Bool
  in_young_range v =
      let start = if r.ocaml_multicore then r.young_start + 1 else r.young_start in
      let range =
        if r.ocaml_multicore then sub64 (sub64 r.young_end 1) start else sub64 r.young_end start in
      leb (sub64 v start) range

-- ===== src/Rem/Validate.antt =====
-- The checks of a debug build in boxroot/rem_boxroot.c: `validate`.
use ocaml_boxroot.Prelude.{
  ℕ, zero, suc, ◌+◌, ◌%◌, Bool, true, false, not, ◌&&◌, ◌||◌, Option, none, some, ◌==◌,
  if◌then◌else◌,
}
use ocaml_boxroot.Words.{is_empty_free_list}
use ocaml_boxroot.Rem.{Rem, sizeof_header, pool_roots_capacity, is_free_slot, untag_free_slot}

-- `validate_roots` over the last `n` slots of the pool `p`, from `s` on: the free and the full ones.
unfoldable pub validate_roots : ℕ → ℕ → ℕ → (ℕ → ℕ) → ℕ × ℕ
validate_roots zero p s m = (0, 0)
validate_roots (suc n) p s m =
    let (free_count, full_count) = validate_roots n p (s + 8) m in
    if is_free_slot (m s) p then (free_count + 1, full_count) else (free_count, full_count + 1)

-- `validate_free_list` from `s` on: the length. `none` is a failed assertion, or fuel that has run
-- out.
unfoldable pub validate_free_list : ℕ → ℕ → ℕ → (ℕ → ℕ) → Option ℕ
validate_free_list zero p s m = if is_empty_free_list s p then some 0 else none
validate_free_list (suc n) p s m = elim (is_empty_free_list s p) [
  | true ↦ some 0
  | false ↦ elim ((m s % 2 == 1) && is_free_slot (m s) p) [
    | false ↦ none
    | true ↦ elim (validate_free_list n p (untag_free_slot (m s)) m) [
      | none ↦ none
      | some count ↦ some (count + 1)
    ]
  ]
]

-- `validate_pool`: whether its assertions hold, with fuel for free lists of `n` slots.
unfoldable pub validate_pool : ℕ → ℕ → Rem → Bool
validate_pool n p s =
    let h = s.header p in
    let (free_count, full_count) =
      validate_roots pool_roots_capacity p (p + sizeof_header) s.slots in
    elim (validate_free_list n p h.major_free_list s.slots) [
      | none ↦ false
      | some major ↦ elim (validate_free_list n p h.minor_free_list s.slots) [
        | none ↦ false
        | some minor ↦
            (is_empty_free_list h.minor_free_list p
              || not (h.last_minor_free_slot == 0)
                && is_free_slot (s.slots h.last_minor_free_slot) p)
            && (free_count == major + minor)
            && (full_count == h.alloc_count)
            && (free_count + full_count == pool_roots_capacity)
      ]
    ]

-- The loop of `validate_pool_ring`, at the pool `p`.
unfoldable pub validate_pool_ring_loop : ℕ → ℕ → ℕ → ℕ → Rem → Bool
validate_pool_ring_loop zero m first p s = false
validate_pool_ring_loop (suc n) m first p s = elim (validate_pool m p s) [
  | false ↦ false
  | true ↦ elim (s.links.next p == first) [
    | true ↦ true
    | false ↦ validate_pool_ring_loop n m first (s.links.next p) s
  ]
]

-- `validate_pool_ring`.
unfoldable pub validate_pool_ring : ℕ → ℕ → ℕ → Rem → Bool
validate_pool_ring n m first s =
    if first == 0 then true else validate_pool_ring_loop n m first first s

-- `validate`.
unfoldable pub validate : ℕ → ℕ → Rem → Bool
validate n m s = validate_pool_ring n m s.pools s && validate_pool_ring n m s.full_pools s

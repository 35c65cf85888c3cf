-- ===== src/Bitmap/Scan.antt =====
-- "Scanning" of boxroot/bitmap_boxroot.c, the setup and the teardown.
use ocaml_boxroot.Prelude.{
  ℕ, zero, suc, ◌+◌, ◌&&◌, Bool, true, false, not, List, [], ◌∷◌, ◌++◌, Option, none, some, upd,
  ◌==◌, if◌then◌else◌, filter, length, ◌>>=◌,
}
use ocaml_boxroot.Words.{Runtime, in_young_range}
use ocaml_boxroot.Ring.{ring_push_back}
use ocaml_boxroot.Bitmap.{Chunks, chunk_size, chunk_index, bit}

-- FOREACH_ELEM_IN_CHUNK: the slots whose bit says that they are allocated, from `i` on.
unfoldable pub chunk_elems : ℕ → ℕ → ℕ → ℕ → List ℕ
chunk_elems zero chunk free i = []
chunk_elems (suc n) chunk free i =
    let rest = chunk_elems n chunk free (suc i) in
    if bit free i then rest else chunk_index chunk i ∷ rest

-- FOREACH_ELEM_IN_RING: the allocated slots of the ring.
unfoldable pub ring_elems : ℕ → Chunks → ℕ → ℕ → Option (List ℕ)
ring_elems zero s end chunk = none
ring_elems (suc n) s end chunk = elim (s.links.next chunk == end) [
  | true ↦ some (chunk_elems chunk_size chunk (s.free chunk) 0)
  | false ↦ do
    more ← ring_elems n s end (s.links.next chunk)
    some (chunk_elems chunk_size chunk (s.free chunk) 0 ++ more)
]

-- `scan_ring_gen`: the slots on which the GC's action is called. The work is their number.
unfoldable pub scan_ring_gen : ℕ → Chunks → ℕ → Option (List ℕ)
scan_ring_gen n s ring = if ring == 0 then some [] else ring_elems n s ring ring

-- The loop of `scan_roots` that clears `is_young`.
unfoldable pub age_chunks : ℕ → ℕ → ℕ → Chunks → Option Chunks
age_chunks zero end chunk s = none
age_chunks (suc n) end chunk s =
    let s1 = record s { is_young = upd s.is_young chunk false } in
    elim (s.links.next chunk == end) [
      | true ↦ some s1
      | false ↦ age_chunks n end (s.links.next chunk) s1
    ]

-- The loop of `free_ring`.
unfoldable pub free_loop : ℕ → ℕ → ℕ → Chunks → Option Chunks
free_loop zero end cur s = none
free_loop (suc n) end cur s =
    let s1 = record s { freed = cur ∷ s.freed } in
    elim (s.links.next cur == end) [
      | true ↦ some s1
      | false ↦ free_loop n end (s.links.next cur) s1
    ]

-- `free_ring`.
unfoldable pub free_ring : ℕ → ℕ → Chunks → Option Chunks
free_ring n ring s = if ring == 0 then some s else free_loop n ring ring s

-- `bitmap_boxroot_setup`: whether it has set up. The hooks are installed.
unfoldable pub bitmap_boxroot_setup : Chunks → Bool × Chunks
bitmap_boxroot_setup s =
    if s.setup then (false, s) else (true, record s { young = 0; old = 0; setup = true })

-- `bitmap_boxroot_teardown`.
unfoldable pub bitmap_boxroot_teardown : ℕ → Chunks → Option Chunks
bitmap_boxroot_teardown n s = if not s.setup then some s else do
  s1 ← free_ring n s.young (record s { setup = false })
  s2 ← free_ring n s.old (record s1 { young = 0 })
  some (record s2 { old = 0 })

module _ (r : Runtime) where
  -- `scan_ring_young`.
  unfoldable pub scan_ring_young : ℕ → Chunks → Option (List ℕ)
  scan_ring_young n s = do
    elems ← scan_ring_gen n s s.young
    some (filter (λ elem. in_young_range r (s.slots elem) && r.is_block (s.slots elem)) elems)

  -- `scan_roots`: the slots scanned, the work, and the state behind.
  unfoldable pub scan_roots : ℕ → Bool → Chunks → Option (List ℕ × ℕ × Chunks)
  scan_roots n in_minor_collection s = elim in_minor_collection [
    | true ↦ do
      found ← scan_ring_young n s
      elim (s.young == 0) [
        | true ↦ some (found, length found, s)
        | false ↦ do
          s1 ← age_chunks n s.young s.young s
          (let (head, l) = ring_push_back s1.young s1.old s1.links in
              some (found, length found, record s1 { old = head; links = l; young = 0 }))
      ]
    | false ↦ do
      found ← scan_ring_gen n s s.young
      more ← scan_ring_gen n s s.old
      some (found ++ more, length found + length more, s)
  ]

  -- `scanning_callback`.
  unfoldable pub scanning_callback : ℕ → Bool → Chunks → Option (List ℕ × ℕ × Chunks)
  scanning_callback n in_minor_collection s =
      if not s.setup then some ([], 0, s) else scan_roots n in_minor_collection s

-- ===== src/Dll/Scan.antt =====
-- "Scanning" of boxroot/dll_boxroot.c, its checks, and the teardown.
use ocaml_boxroot.Prelude.{
  ℕ, zero, suc, ◌+◌, Bool, true, false, not, ◌&&◌, List, [], ◌∷◌, ◌++◌, Option, none, some, ◌==◌,
  if◌then◌else◌, ◌>>=◌,
}
use ocaml_boxroot.Words.{Runtime, is_young_block}
use ocaml_boxroot.Ring.{ring_push_back}
use ocaml_boxroot.Dll.{Dll, free_ring}

-- FOREACH_ELEM_IN_RING with an assertion: whether it holds of every element.
unfoldable pub check_ring : ℕ → (ℕ → Bool) → Dll → ℕ → ℕ → Option Bool
check_ring zero test s ring elem = none
check_ring (suc n) test s ring elem =
    if not (test elem) then some false else elim (s.links.next elem == ring) [
      | true ↦ some true
      | false ↦ check_ring n test s ring (s.links.next elem)
    ]

-- `validate_free_ring`.
unfoldable pub validate_free_ring : ℕ → Dll → Option Bool
validate_free_ring n s =
    if s.free == 0 then some true else check_ring n (λ elem. s.slots elem == 0) s s.free s.free

-- The loop of `scan_ring`: the elements on whose slots the GC's action is called, and the work.
unfoldable pub scan_loop : ℕ → Dll → ℕ → ℕ → ℕ → Option (List ℕ × ℕ)
scan_loop zero s ring elem work = none
scan_loop (suc n) s ring elem work = elim (s.links.next elem == ring) [
  | true ↦ some (elem ∷ [], suc work)
  | false ↦ do
    (found, total) ← scan_loop n s ring (s.links.next elem) (suc work)
    some (elem ∷ found, total)
]

-- `scan_ring`.
unfoldable pub scan_ring : ℕ → Dll → ℕ → Option (List ℕ × ℕ)
scan_ring n s ring = if ring == 0 then some ([], 0) else scan_loop n s ring ring 0

-- `scan_roots`: the elements scanned, the work, and the state behind.
unfoldable pub scan_roots : ℕ → Bool → Dll → Option (List ℕ × ℕ × Dll)
scan_roots n in_minor_collection s = do
  (found, work) ← scan_ring n s s.young
  elim in_minor_collection [
    | true ↦
        let (head, l) = ring_push_back s.young s.old s.links in
        some (found, work, record s { old = head; links = l; young = 0 })
    | false ↦ do
      (more, work') ← scan_ring n s s.old
      s1 ← free_ring n s.free s
      some (found ++ more, work + work', record s1 { free = 0 })
  ]

-- `scanning_callback`.
unfoldable pub scanning_callback : ℕ → Bool → Dll → Option (List ℕ × ℕ × Dll)
scanning_callback n in_minor_collection s =
    if not s.setup then some ([], 0, s) else scan_roots n in_minor_collection s

-- `dll_boxroot_teardown`.
unfoldable pub dll_boxroot_teardown : ℕ → Dll → Option Dll
dll_boxroot_teardown n s = if not s.setup then some s else do
  s1 ← free_ring n s.young (record s { setup = false })
  s2 ← free_ring n s.old (record s1 { young = 0 })
  s3 ← free_ring n s.free (record s2 { old = 0 })
  some (record s3 { free = 0 })

module _ (r : Runtime) where
  -- `validate_old_ring`.
  unfoldable pub validate_old_ring : ℕ → Dll → Option Bool
  validate_old_ring n s =
      if s.old == 0
      then some true
      else check_ring n (λ elem. not (is_young_block r (s.slots elem))) s s.old s.old

  -- `validate_all_rings`: the young ring may hold anything.
  unfoldable pub validate_all_rings : ℕ → Dll → Option Bool
  validate_all_rings n s = do a ← validate_old_ring n s; b ← validate_free_ring n s; some (a && b)

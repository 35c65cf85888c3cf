-- ===== src/Dll/Tests.antt =====
-- The list of roots on a small example: two young elements, an old one and a free one.
use ocaml_boxroot.Prelude.{
  false, ℕ, ◌≡◌, refl, true, [], ◌∷◌, some, arith, upd, ◌==◌, if◌then◌else◌,
}
use ocaml_boxroot.Words.Samples.{runtime}
use ocaml_boxroot.Words.{is_young_block}
use ocaml_boxroot.Dll.{Dll, dll_boxroot_create}
use ocaml_boxroot.Dll.Invariant.{IsDll}
use ocaml_boxroot.Dll.Create.{dll_boxroot_create-IsDll}
use ocaml_boxroot.Ring.Paths.{IsRing}
use ocaml_boxroot.Dll.Scan.{scan_roots, validate_all_rings}
use ocaml_boxroot.Dll.Validate.{validate_all_rings-IsDll}
use ocaml_boxroot.Dll.Visit.{scan_roots-minor, scan_roots-major}
use ocaml_boxroot.Dll.Modify.{Modified, dll_boxroot_modify-old, dll_boxroot_modify-young}
use ocaml_boxroot.Dll.Delete.{Deleted, dll_boxroot_delete-young, dll_boxroot_delete-old}

abbrev swap : ℕ → ℕ
swap p = if p == 16 then 40 else if p == 40 then 16 else p

abbrev four : Dll
four = record {
  young = 16;
  old = 64;
  free = 88;
  links = record { next = swap; prev = swap };
  slots = λ a. if a == 88 then 0 else 7;
  memory = [];
  freed = [];
  setup = true;
}

four-IsDll : IsDll runtime four (16 ∷ 40 ∷ []) (64 ∷ []) (88 ∷ [])
unfolding is_young_block
four-IsDll = record {
  young_ring = omega arith;
  old_ring = omega arith;
  free_ring = omega arith;
  young_old = omega arith;
  young_free = omega arith;
  old_free = omega arith;
  old_values = (refl, tt);
  no_values = (refl, tt);
}

dll_boxroot_create-IsDll_example :
    (s' : Dll) × (dll_boxroot_create runtime 9 four ≡ some (88, s'))
    × (s'.slots ≡ upd four.slots 88 9)
    × IsDll runtime s' (16 ∷ 40 ∷ []) (64 ∷ 88 ∷ []) []
unfolding is_young_block
dll_boxroot_create-IsDll_example =
    dll_boxroot_create-IsDll runtime four (16 ∷ 40 ∷ []) (64 ∷ []) (88 ∷ []) 88 9 four-IsDll refl

dll_boxroot_delete-young_example : Deleted runtime four (16 ∷ []) (64 ∷ []) (88 ∷ []) 40
dll_boxroot_delete-young_example =
    dll_boxroot_delete-young runtime four (16 ∷ []) 40 [] (64 ∷ []) (88 ∷ []) four-IsDll

dll_boxroot_delete-old_example : Deleted runtime four (16 ∷ 40 ∷ []) [] (88 ∷ []) 64
dll_boxroot_delete-old_example =
    dll_boxroot_delete-old runtime four (16 ∷ 40 ∷ []) [] 64 [] (88 ∷ []) four-IsDll

dll_boxroot_modify-old_example : Modified runtime four 64 1500 (16 ∷ 40 ∷ 64 ∷ []) [] (88 ∷ [])
unfolding is_young_block
dll_boxroot_modify-old_example =
    dll_boxroot_modify-old runtime four (16 ∷ 40 ∷ []) [] 64 [] (88 ∷ []) 1500 four-IsDll

dll_boxroot_modify-young_example : Modified runtime four 16 1500 (40 ∷ 16 ∷ []) (64 ∷ []) (88 ∷ [])
unfolding is_young_block
dll_boxroot_modify-young_example =
    dll_boxroot_modify-young runtime four [] 16 (40 ∷ []) (64 ∷ []) (88 ∷ []) 1500 four-IsDll

scan_roots-minor_example :
    (s' : Dll) × (scan_roots 2 true four ≡ some (16 ∷ 40 ∷ [], 2, s'))
    × (s'.young ≡ 0)
    × IsRing s'.links s'.old (64 ∷ 16 ∷ 40 ∷ [])
scan_roots-minor_example =
    scan_roots-minor runtime 2 four (16 ∷ 40 ∷ []) (64 ∷ []) (88 ∷ []) four-IsDll (omega arith)

scan_roots-major_example :
    scan_roots 2 false four ≡ some (16 ∷ 40 ∷ 64 ∷ [], 3, record four { freed = 88 ∷ []; free = 0 })
scan_roots-major_example =
    scan_roots-major runtime 2 four (16 ∷ 40 ∷ []) (64 ∷ []) (88 ∷ []) four-IsDll (omega arith)
      (omega arith) (omega arith)

validate_all_rings-IsDll_example : validate_all_rings runtime 1 four ≡ some true
validate_all_rings-IsDll_example =
    validate_all_rings-IsDll runtime 1 four (16 ∷ 40 ∷ []) (64 ∷ []) (88 ∷ []) four-IsDll
      (omega arith) (omega arith)

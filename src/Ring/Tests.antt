-- ===== src/Ring/Tests.antt =====
-- The theorems on rings at a ring of three nodes and one of two.
use ocaml_boxroot.Prelude.{ℕ, ◌≡◌, List, [], ◌∷◌, arith, ◌==◌, if◌then◌else◌}
use ocaml_boxroot.Ring.{Links, ring_push_back, ring_pop}
use ocaml_boxroot.Ring.Paths.{IsRing}
use ocaml_boxroot.Ring.PushBack.{ring_push_back-IsRing}
use ocaml_boxroot.Ring.Pop.{ring_pop-IsRing}

-- 1, 2, 3 and 4, 5.
abbrev two_rings : Links
two_rings = record {
  next = λ a.
      if a == 1 then 2 else if a == 2 then 3 else if a == 3 then 1 else if a == 4 then 5 else 4;
  prev = λ a.
      if a == 1 then 3 else if a == 2 then 1 else if a == 3 then 2 else if a == 4 then 5 else 4;
}

abbrev three : List ℕ
three = 1 ∷ 2 ∷ 3 ∷ []

abbrev two : List ℕ
two = 4 ∷ 5 ∷ []

three-IsRing : IsRing two_rings 1 three
three-IsRing = omega arith

two-IsRing : IsRing two_rings 4 two
two-IsRing = omega arith

ring_push_back-IsRing_example :
    IsRing
      (ring_push_back 4 1 two_rings).1
      (ring_push_back 4 1 two_rings).0
      (1 ∷ 2 ∷ 3 ∷ 4 ∷ 5 ∷ [])
ring_push_back-IsRing_example =
    ring_push_back-IsRing two_rings 4 1 three two three-IsRing two-IsRing (omega arith)

ring_pop-IsRing_example :
    ((ring_pop 1 two_rings).0 ≡ 1)
    × IsRing (ring_pop 1 two_rings).2 1 (1 ∷ [])
    × IsRing (ring_pop 1 two_rings).2 (ring_pop 1 two_rings).1 (2 ∷ 3 ∷ [])
ring_pop-IsRing_example = ring_pop-IsRing two_rings 1 1 (2 ∷ 3 ∷ []) three-IsRing

-- ===== src/Rem/Tests.antt =====
-- A pool with one slot in each free list, and a write of a young value.
use ocaml_boxroot.Prelude.{ℕ, ◌≡◌, refl, true, [], ◌∷◌, some, arith, has, ◌==◌, if◌then◌else◌}
use ocaml_boxroot.Words.{is_young_block}
use ocaml_boxroot.Words.Samples.{runtime}
use ocaml_boxroot.Rem.{Rem, is_free_slot, untag_free_slot}
use ocaml_boxroot.Rem.Api.{flush_minor_free_list, rem_boxroot_modify}
use ocaml_boxroot.Rem.Laws.{
  FreeChain, flush_minor_free_list-FreeChain, rem_boxroot_modify-Remembered,
}

abbrev pub two_slots : Rem
two_slots = record {
  slots = λ a. if a == 16432 then 16385 else if a == 16440 then 16385 else 0;
  header = λ p. record {
    major_free_list = 16440;
    minor_free_list = 16432;
    last_minor_free_slot = 16432;
    alloc_count = 2040;
  };
  links = record { next = λ p. p; prev = λ p. p };
  pools = 16384;
  full_pools = 0;
  setup = true;
  remembered = [];
  memory = [];
  freed = [];
}

flush_minor_free_list-FreeChain_example :
    (s' : Rem) × (flush_minor_free_list 16384 two_slots ≡ some s')
    × FreeChain s'.slots 16384 (s'.header 16384).major_free_list (16432 ∷ 16440 ∷ [])
    × FreeChain s'.slots 16384 (s'.header 16384).minor_free_list []
unfolding is_free_slot untag_free_slot
flush_minor_free_list-FreeChain_example =
    flush_minor_free_list-FreeChain 16384 16432 [] (16440 ∷ []) two_slots
      (refl, (λ e. omega (arith, e)), refl) (refl, (λ e. omega (arith, e)), refl) refl
      (λ e. omega (arith, e)) refl refl (tt, tt) (((λ e. omega (arith, e)), tt), tt)

nothing_young :
    (a : ℕ) → is_young_block runtime (two_slots.slots a) ≡ true → has a two_slots.remembered ≡ true
unfolding is_young_block
nothing_young a h = ground (arith, h)

rem_boxroot_modify-Remembered_example :
    has 16448 (rem_boxroot_modify runtime 16448 1002 two_slots).remembered ≡ true
unfolding rem_boxroot_modify is_young_block
rem_boxroot_modify-Remembered_example =
    rem_boxroot_modify-Remembered runtime 16448 1002 two_slots nothing_young 16448 refl

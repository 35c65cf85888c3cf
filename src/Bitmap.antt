-- ===== src/Bitmap.antt =====
-- boxroot/bitmap_boxroot.c: chunks of 64 roots with a word whose bits tell the free ones, in a
-- ring of young and one of old chunks. The mutex is held in each operation that needs it.
pub mod Scan
use ocaml_boxroot.Prelude.{
  ℕ, zero, suc, ◌+◌, ◌-◌, ◌*◌, ◌/◌, ◌%◌, ◌^◌, Bool, true, false, not, ◌&&◌, ◌||◌, List, [], ◌∷◌,
  Option, none, some, upd, ◌==◌, if◌then◌else◌, ◌>>=◌,
}
use ocaml_boxroot.Words.{Runtime, is_young_block}
use ocaml_boxroot.Ring.{Links, ring_link, ring_push_back, ring_pop}

-- CHUNK_SIZE, CHUNK_ALIGNMENT, BITMAP_EMPTY.
abbrev pub chunk_size : ℕ
chunk_size = 64

abbrev pub chunk_alignment : ℕ
chunk_alignment = chunk_size * 8

abbrev pub bitmap_empty : ℕ
bitmap_empty = 2 ^ 64 - 1

-- `rings`, `setup` and the chunks: `prev` and `next`, the slots by address, `is_young` and `free`.
-- `memory` are the answers that `posix_memalign` will give, 0 for an error, and an error behind the
-- last; `freed` are the chunks given back, the latest first.
pub record Chunks : Type 0 where
  pub young : ℕ
  pub old : ℕ
  pub links : Links
  pub slots : ℕ → ℕ
  pub is_young : ℕ → Bool
  pub free : ℕ → ℕ
  pub memory : List ℕ
  pub freed : List ℕ
  pub setup : Bool

-- `chunk_index`: the slot's address.
abbrev pub chunk_index : ℕ → ℕ → ℕ
chunk_index chunk index = chunk + 8 * index

-- `chunk_of_root`.
abbrev pub chunk_of_root : ℕ → ℕ
chunk_of_root root = root / chunk_alignment * chunk_alignment

-- Whether the bit `i` of a word is set.
abbrev pub bit : ℕ → ℕ → Bool
bit w i = w / 2 ^ i % 2 == 1

-- `count_trailing_zeros`, from the bit `i` on, for a word that is not 0.
unfoldable pub count_trailing_zeros : ℕ → ℕ → ℕ → ℕ
count_trailing_zeros zero w i = i
count_trailing_zeros (suc n) w i =
    let rest = count_trailing_zeros n w (suc i) in if bit w i then i else rest

-- `atomic_xor` with one bit: the new word.
unfoldable pub xor_bit : ℕ → ℕ → ℕ
xor_bit w i = if bit w i then w - 2 ^ i else w + 2 ^ i

-- `chunk_is_full`.
abbrev pub chunk_is_full : ℕ → Chunks → Bool
chunk_is_full chunk s = s.free chunk == 0

-- `ring_push_front`.
unfoldable pub ring_push_front : ℕ → ℕ → Links → ℕ × Links
ring_push_front source target l = let (_, l') = ring_push_back source target l in (source, l')

-- `ring_remove_chunk`.
unfoldable pub ring_remove_chunk : ℕ → Chunks → Chunks
ring_remove_chunk chunk s =
    let (prev, rest, l) = ring_pop chunk s.links in
    record s {
      links = l;
      old = if s.old == prev then rest else s.old;
      young = if s.young == prev then rest else s.young;
    }

-- The loop of `create_chunk` that writes 0 to the slots from `i` on.
unfoldable pub clear_slots : ℕ → ℕ → ℕ → (ℕ → ℕ) → ℕ → ℕ
clear_slots zero chunk i slots = slots
clear_slots (suc n) chunk i slots = clear_slots n chunk (suc i) (upd slots (chunk_index chunk i) 0)

-- `create_chunk`: 0 is NULL.
unfoldable pub create_chunk : Chunks → ℕ × Chunks
create_chunk s = elim s.memory [
  | [] ↦ (0, s)
  | new ∷ more ↦ if new == 0 then (0, record s { memory = more }) else (
    new,
    record s {
      memory = more;
      links = ring_link new new s.links;
      slots = clear_slots chunk_size new 0 s.slots;
      free = upd s.free new bitmap_empty;
      is_young = upd s.is_young new false;
    },
  )
]

-- `delete_chunk`.
unfoldable pub delete_chunk : ℕ → Chunks → Chunks
delete_chunk chunk s = record s { freed = chunk ∷ s.freed }

-- `*target`, and a write to it.
abbrev pub ring_head : Bool → Chunks → ℕ
ring_head true s = s.young
ring_head false s = s.old

abbrev pub set_head : Bool → ℕ → Links → Chunks → Chunks
set_head true p l s = record s { young = p; links = l }
set_head false p l s = record s { old = p; links = l }

-- `get_available_chunk`. It writes through the new chunk without a test for NULL: then there is no
-- state behind.
unfoldable pub get_available_chunk : Bool → Chunks → Option (ℕ × Chunks)
get_available_chunk young s =
    if not (ring_head young s == 0) && not (chunk_is_full (ring_head young s) s)
    then some (ring_head young s, s)
    else let (new, s1) =
        if young && not (s.old == 0) && not (chunk_is_full s.old s)
        then (let (chunk, rest, l) = ring_pop s.old s.links in
            (chunk, record s { old = rest; links = l }))
        else create_chunk s in
      if new == 0
      then none
      else let (head, l) = ring_push_front new (ring_head young s1) s1.links in
        some (new, set_head young head l (record s1 { is_young = upd s1.is_young new young }))

-- `reclassify_chunk`.
unfoldable pub reclassify_chunk : ℕ → Chunks → Chunks
reclassify_chunk chunk s =
    let young = s.is_young chunk in
    let s1 = ring_remove_chunk chunk s in
    if s.free chunk == bitmap_empty
    then delete_chunk chunk s1
    else if s.free chunk == 0
    then (let (head, l) = ring_push_back chunk (ring_head young s1) s1.links in
        set_head young head l s1)
    else let (head, l) = ring_push_front chunk (ring_head young s1) s1.links in
      set_head young head l s1

-- `alloc_from_chunk`: the root.
unfoldable pub alloc_from_chunk : ℕ → ℕ → Chunks → ℕ × Chunks
alloc_from_chunk chunk init s =
    let index = count_trailing_zeros chunk_size (s.free chunk) 0 in
    let slot = chunk_index chunk index in
    let left = xor_bit (s.free chunk) index in
    let s1 = record s { slots = upd s.slots slot init; free = upd s.free chunk left } in
    (slot, if left == 0 then reclassify_chunk chunk s1 else s1)

-- `remove_from_chunk`: whether the chunk is a candidate for reclassifying.
unfoldable pub remove_from_chunk : ℕ → ℕ → Chunks → Bool × Chunks
remove_from_chunk slot chunk s =
    let index = (slot - chunk) / 8 in
    let old = s.free chunk in
    let new = xor_bit old index in
    ((old == 0) || (new == bitmap_empty), record s { free = upd s.free chunk new })

-- `bitmap_boxroot_create`, with ENABLE_BOXROOT_GENERATIONAL true.
unfoldable pub bitmap_boxroot_create : ℕ → Chunks → Option (ℕ × Chunks)
bitmap_boxroot_create init s = do
  (chunk, s1) ← get_available_chunk true s
  some (alloc_from_chunk chunk init s1)

-- `bitmap_boxroot_delete`.
unfoldable pub bitmap_boxroot_delete : ℕ → Chunks → Chunks
bitmap_boxroot_delete root s =
    let chunk = chunk_of_root root in
    let (maybe_reclassify, s1) = remove_from_chunk root chunk s in
    if maybe_reclassify && not (chunk == s1.young) && not (chunk == s1.old)
    then reclassify_chunk chunk s1
    else s1

-- `bitmap_boxroot_modify`, with the new root.
unfoldable pub bitmap_boxroot_modify : Runtime → ℕ → ℕ → Chunks → Option (ℕ × Chunks)
bitmap_boxroot_modify r root new_value s =
    if not (is_young_block r new_value) || is_young_block r (s.slots root)
    then some (root, record s { slots = upd s.slots root new_value })
    else bitmap_boxroot_create new_value (bitmap_boxroot_delete root s)

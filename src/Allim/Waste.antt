-- ===== src/Allim/Waste.antt =====
-- src/allim/lib/allib.c: wasting and freeing memory, descriptors and disk. The chunks of memory
-- form a circular doubly linked list from its head on; here they are a list in that order, by
-- their sizes, so the chunk that is linked last, which is freed first, stands last.
-- Sizes are exact integers: the theorems bound the sums that the source forms in 64 bits.
use natc.Base.{
  ℕ, zero, suc, ◌+◌, ◌*◌, ◌/◌, ◌&&◌, ltb, if◌then◌else◌, List, [], ◌∷◌, ◌++◌, Option, none, some,
  length,
}
use natc.Base.Int.{ℤ, pos, ◌+ℤ◌, ◌-ℤ◌, ltb_ℤ, gap}
use natc.Allim.State.{Rc, success, enomem, enospc, failure}

-- ALLIM_CHUNKSIZE, and sizeof(allimWasteChunk): two pointers.
abbrev pub chunk_size : ℕ
chunk_size = 1024 * 1024

abbrev pub header_size : ℕ
header_size = 16

abbrev pub chunk : ℤ
chunk = pos 1048576

-- What `acpMemAlloc` answers at each attempt.
abbrev pub Allocations : Type 0
Allocations = ℕ → Rc

-- The loop of `allimWasteMemory`: attempt `n`, size to ask for, chunks, bytes counted. `none` is
-- the end of the fuel.
unfoldable pub waste_loop : Allocations → ℕ → ℕ → ℕ → List ℕ → ℤ → ℤ → Option (List ℕ × ℤ)
waste_loop alloc zero n size chunks current dest = none
waste_loop alloc (suc fuel) n size chunks current dest =
    let halved = waste_loop alloc fuel (n + 1) (size / 2) chunks current dest in
    let longer = waste_loop alloc fuel (n + 1) size (chunks ++ size ∷ []) (current +ℤ chunk) dest in
    let more : Option (List ℕ × ℤ) = elim (alloc n) [
      | enomem ↦ halved
      | success ↦ longer
      | enospc ↦ some (chunks, current)
      | failure e ↦ some (chunks, current)
    ] in
    if ltb_ℤ current dest && ltb header_size size then more else some (chunks, current)

-- `allimWasteMemory`, with fuel for every round that it can make.
unfoldable pub waste_memory : Allocations → List ℕ → ℤ → ℤ → Option (List ℕ × ℤ)
unfolding waste_loop
waste_memory alloc chunks current dest =
    waste_loop alloc (gap dest current + chunk_size + 1) 0 chunk_size chunks current dest

-- The list without its last entry, as unlinking the chunk before the head leaves it.
unfoldable pub unlink_last : List ℕ → List ℕ
unlink_last [] = []
unlink_last (c ∷ []) = []
unlink_last (c ∷ d ∷ cs) = c ∷ unlink_last (d ∷ cs)

-- How freeing ends: with the chunks and bytes left, or by following the null head.
pub data Freed : Type 0 where
  freed : List ℕ → ℤ → Freed
  null_deref : Freed

-- The loop of `allimFreeMemory`: each round reads the head's predecessor, so without a head it
-- faults. The fuel is the number of chunks: each round frees one.
unfoldable pub free_loop : ℕ → List ℕ → ℤ → ℤ → Freed
unfolding unlink_last
free_loop zero chunks current dest = if ltb_ℤ dest current then null_deref else freed chunks current
free_loop (suc fuel) chunks current dest =
    let rest = free_loop fuel (unlink_last chunks) (current -ℤ chunk) dest in
    if ltb_ℤ dest current then rest else freed chunks current

-- `allimFreeMemory`.
unfoldable pub free_memory : List ℕ → ℤ → ℤ → Freed
unfolding free_loop
free_memory [] current dest = freed [] (pos 0)
free_memory (c ∷ cs) current dest = free_loop (length (c ∷ cs)) (c ∷ cs) current dest

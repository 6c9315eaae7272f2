-- ===== src/Allim/MemoryFaults.antt =====
-- src/allim/lib/allib.c: where the account of `allimMemory` and the chunks that it has part.
use natc.Base.{ℕ, zero, suc, ◌<◌, ◌≡◌, refl, ap, true, arith, List, [], ◌∷◌, length, lt→ltb}
use natc.Base.Int.{ℤ, negsuc, pos_part, neg_part, ◌-ℤ◌, ltb_ℤ, -ℤ_parts}
use natc.Allim.State.{World}
use natc.Allim.Waste.{chunk, Allocations, unlink_last, null_deref, free_loop, free_memory}
use natc.Allim.Wasting.{IsCounted, length-unlink_last}
use natc.Allim.Limits.{memory_body, fault}

-- With a negative target and at least one chunk, freeing runs out of chunks and goes on: it follows
-- the null head.
free_loop-null :
    (fuel : ℕ) (chunks : List ℕ) (current dest : ℤ)
    → fuel ≡ length chunks
    → IsCounted chunks current
    → 0 < neg_part dest
    → pos_part dest ≡ 0
    → free_loop fuel chunks current dest ≡ null_deref
unfolding free_loop
free_loop-null zero chunks current dest few counted negative none_pos =
    let goes : ltb_ℤ dest current ≡ true = lt→ltb _ _ (omega arith) in rw goes
free_loop-null (suc fuel) [] current dest few counted negative none_pos = absurd (omega arith)
free_loop-null (suc fuel) (c ∷ cs) current dest few counted negative none_pos =
    let goes : ltb_ℤ dest current ≡ true = lt→ltb _ _ (omega arith) in
    rw goes (
      free_loop-null fuel (unlink_last (c ∷ cs)) (current -ℤ chunk) dest
        (omega (arith, length-unlink_last c cs))
        (omega (arith, length-unlink_last c cs, -ℤ_parts current chunk)) negative none_pos)

free_memory-null :
    (chunks : List ℕ) (current dest : ℤ)
    → 0 < length chunks
    → IsCounted chunks current
    → 0 < neg_part dest
    → pos_part dest ≡ 0
    → free_memory chunks current dest ≡ null_deref
unfolding free_memory
free_memory-null [] current dest some_chunk counted negative none_pos = absurd (omega arith)
free_memory-null (c ∷ cs) current dest some_chunk counted negative none_pos =
    free_loop-null (suc (length cs)) (c ∷ cs) current dest refl counted negative none_pos

-- With a negative target, `allimMemory` reads through the null head as soon as there is a chunk and
-- the bytes counted are one chunk size for each chunk.
pub memory_body-negative :
    (alloc : Allocations) (w : World) (n : ℕ)
    → 0 < length w.chunks
    → IsCounted w.chunks w.point.memory
    → w.point.dest_memory ≡ negsuc n
    → (memory_body alloc w).out ≡ fault
unfolding memory_body
memory_body-negative alloc w n some_chunk counted target =
    let below_zero = ap neg_part target in
    let no_pos = ap pos_part target in
    let goes : ltb_ℤ w.point.dest_memory w.point.memory ≡ true = lt→ltb _ _ (omega arith) in
    let null =
      free_memory-null w.chunks w.point.memory w.point.dest_memory some_chunk counted (omega arith)
        no_pos in
    ground (arith, null, goes)

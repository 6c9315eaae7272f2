-- ===== src/Allim/Memory.antt =====
-- src/allim/lib/allib.c: `allimMemory` and its account of the wasted memory.
use natc.Base.{
  ℕ, zero, suc, ◌+◌, ◌<◌, ◌≡◌, refl, sym, ◌∙◌, inl, inr, true, false, arith, List, [], ◌∷◌, ◌++◌,
  Option, some, length, length-append, Bool-cases, ltb→lt,
}
use mathlib.Core.Bool.{false≢true}
use natc.Base.Int.{ℤ, pos_part, neg_part, ◌≤ℤ◌, ltb_ℤ, gap}
use natc.Allim.State.{success, World}
use natc.Allim.Shared.{Reply}
use natc.Allim.Logging.{write_if}
use natc.Allim.Waste.{chunk_size, Allocations, waste_memory, freed, free_memory}
use natc.Allim.Wasting.{
  Wasted, waste_loop-Wasted, waste_loop-reaches, IsCounted, Ends, free_loop-Ends,
}
use natc.Allim.Limits.{memory_body, wasted, Ended, ended}

waste_memory-Wasted :
    (alloc : Allocations) (chunks : List ℕ) (current dest : ℤ)
    → Wasted chunk_size chunks current dest (waste_memory alloc chunks current dest)
unfolding waste_memory
waste_memory-Wasted alloc chunks current dest =
    waste_loop-Wasted alloc (gap dest current + chunk_size + 1) 0 chunk_size chunks current dest
      (omega arith)

free_memory-Ends :
    (chunks : List ℕ) (current dest : ℤ)
    → IsCounted chunks current
    → neg_part dest ≡ 0
    → ltb_ℤ dest current ≡ true
    → Ends current dest (free_memory chunks current dest)
unfolding free_memory
free_memory-Ends [] current dest counted nonneg above = absurd (omega (arith, ltb→lt _ _ above))
free_memory-Ends (c ∷ cs) current dest counted nonneg above =
    free_loop-Ends (suc (length cs)) (c ∷ cs) current dest refl counted nonneg

-- How the work of `allimMemory` ends, for a target `dest`: it returns, the account of the chunks is
-- right again; freeing ends at the target or less than one chunk below it; wasting loses nothing,
-- ends less than one chunk above the target, and reaches it where no allocation is refused.
pub record MemoryDone (alloc : Allocations) (w : World) (r : Reply Ended) : Type 0 where
  pub returns : r.out ≡ ended
  pub counted : IsCounted r.world.chunks r.world.point.memory
  pub frees :
      ltb_ℤ w.point.dest_memory w.point.memory ≡ true
      → (r.world.point.memory ≤ℤ w.point.dest_memory)
        × (pos_part w.point.dest_memory < pos_part r.world.point.memory + chunk_size)
  pub wastes :
      ltb_ℤ w.point.memory w.point.dest_memory ≡ true
      → (w.point.memory ≤ℤ r.world.point.memory)
        × (pos_part r.world.point.memory + neg_part w.point.dest_memory
            < pos_part w.point.dest_memory + neg_part r.world.point.memory + chunk_size)
  pub reaches :
      ltb_ℤ w.point.memory w.point.dest_memory ≡ true
      → ((n : ℕ) → alloc n ≡ success)
      → w.point.dest_memory ≤ℤ r.world.point.memory

module _ (alloc : Allocations) (w : World) where
  open w use {point as p, chunks}

  -- The three ways through the work.
  memory_body-wastes :
      {chunks' : List ℕ} {after : ℤ}
      → ltb_ℤ p.memory p.dest_memory ≡ true
      → waste_memory alloc chunks p.memory p.dest_memory ≡ some (chunks', after)
      → memory_body alloc w ≡ wasted chunks' after w
  unfolding memory_body
  memory_body-wastes below e = ground arith

  memory_body-frees :
      {left : List ℕ} {after : ℤ}
      → ltb_ℤ p.dest_memory p.memory ≡ true
      → free_memory chunks p.memory p.dest_memory ≡ freed left after
      → memory_body alloc w ≡ wasted left after w
  unfolding memory_body
  memory_body-frees above e = ground arith

  memory_body-rests :
      ltb_ℤ p.memory p.dest_memory ≡ false
      → ltb_ℤ p.dest_memory p.memory ≡ false
      → (memory_body alloc w).out ≡ ended × ((memory_body alloc w).world ≡ w)
  unfolding memory_body
  memory_body-rests le ge = (ground arith, ground arith)

  wasted-out : (chunks' : List ℕ) (after : ℤ) → (wasted chunks' after w).out ≡ ended
  unfolding wasted
  wasted-out chunks' after = refl

  wasted-chunks : (chunks' : List ℕ) (after : ℤ) → (wasted chunks' after w).world.chunks ≡ chunks'
  unfolding wasted write_if
  wasted-chunks chunks' after = ground arith

  wasted-memory :
      (chunks' : List ℕ) (after : ℤ) → (wasted chunks' after w).world.point.memory ≡ after
  unfolding wasted write_if
  wasted-memory chunks' after = ground arith

  within :
      ltb_ℤ p.memory p.dest_memory ≡ true
      → {r : Option (List ℕ × ℤ)} (k : Wasted chunk_size chunks p.memory p.dest_memory r) → (n : ℕ)
      → length k.new ≡ n
      → pos_part k.after + neg_part p.dest_memory
        < pos_part p.dest_memory + neg_part k.after + chunk_size
  within below k zero e = omega (arith, k.counted, ltb→lt _ _ below)
  within below k (suc n) e = k.bounded (omega arith)

  waste_memory-reaches :
      {chunks' : List ℕ} {after : ℤ}
      → ((n : ℕ) → alloc n ≡ success)
      → waste_memory alloc chunks p.memory p.dest_memory ≡ some (chunks', after)
      → p.dest_memory ≤ℤ after
  unfolding waste_memory
  waste_memory-reaches plenty e =
      waste_loop-reaches alloc (gap p.dest_memory p.memory + chunk_size + 1) 0 chunk_size chunks
        p.memory p.dest_memory plenty (omega arith) e

  wasting-MemoryDone :
      IsCounted chunks p.memory
      → ltb_ℤ p.memory p.dest_memory ≡ true
      → MemoryDone alloc w (memory_body alloc w)
  wasting-MemoryDone counted below =
      let k = waste_memory-Wasted alloc chunks p.memory p.dest_memory in
      let all = chunks ++ k.new in
      rw (memory_body-wastes below k.result) (record {
        returns = wasted-out all k.after;
        counted =
            rw (wasted-chunks all k.after, wasted-memory all k.after)
              (omega (arith, k.counted, length-append chunks k.new));
        frees = λ above. absurd (omega (arith, ltb→lt _ _ above, ltb→lt _ _ below));
        wastes = λ _.
            rw (wasted-memory all k.after)
              (omega (arith, k.counted), within below k (length k.new) refl);
        reaches = λ _ plenty. rw (wasted-memory all k.after) (waste_memory-reaches plenty k.result);
      })

  freeing-MemoryDone :
      IsCounted chunks p.memory
      → neg_part p.dest_memory ≡ 0
      → ltb_ℤ p.dest_memory p.memory ≡ true
      → MemoryDone alloc w (memory_body alloc w)
  freeing-MemoryDone counted nonneg above =
      let k = free_memory-Ends chunks p.memory p.dest_memory counted nonneg above in
      rw (memory_body-frees above k.result) (record {
        returns = wasted-out k.left k.after;
        counted = rw (wasted-chunks k.left k.after, wasted-memory k.left k.after) k.counted;
        frees =
            λ _. rw (wasted-memory k.left k.after) (k.reached (omega (arith, ltb→lt _ _ above)));
        wastes = λ below. absurd (omega (arith, ltb→lt _ _ above, ltb→lt _ _ below));
        reaches = λ below _. absurd (omega (arith, ltb→lt _ _ above, ltb→lt _ _ below));
      })

  -- `allimMemory` keeps the account of the wasted memory: where the bytes counted are one chunk size
  -- for each chunk and the target is not negative, its work returns, without a fault and within the
  -- fuel, and the account is right again. If it frees, it ends at the target or less than one chunk
  -- below it. If it wastes, it loses nothing, ends less than one chunk above the target, and reaches
  -- the target if no allocation is refused.
  pub memory_body-MemoryDone :
      IsCounted w.chunks w.point.memory
      → neg_part w.point.dest_memory ≡ 0
      → MemoryDone alloc w (memory_body alloc w)
  memory_body-MemoryDone counted nonneg =
      elim (Bool-cases (ltb_ℤ w.point.memory w.point.dest_memory)) [
        | inl below ↦ wasting-MemoryDone counted below
        | inr le ↦ elim (Bool-cases (ltb_ℤ w.point.dest_memory w.point.memory)) [
          | inl above ↦ freeing-MemoryDone counted nonneg above
          | inr ge ↦
              let rest = memory_body-rests le ge in
              record {
                returns = rest.0;
                counted = rw rest.1 counted;
                frees = λ above. cc;
                wastes = λ below. cc;
                reaches = λ below _. absurd (false≢true (sym le ∙ below));
              }
        ]
      ]

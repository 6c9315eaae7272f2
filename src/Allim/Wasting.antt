-- ===== src/Allim/Wasting.antt =====
-- src/allim/lib/allib.c: the loops of `allimWasteMemory` and `allimFreeMemory` end, and what they
-- leave; `allimMemory` keeps its account of the chunks.
use natc.Base.{
  ℕ, zero, suc, ◌+◌, ◌*◌, ◌/◌, ◌≤◌, ◌<◌, ◌≡◌, refl, ap, ◌∙◌, inl, inr, true, false, ◌&&◌, ltb,
  arith, List, [], ◌∷◌, ◌++◌, Option, some, length, Bool-cases, append_assoc, append-nil, All,
  ltb→lt, lt→ltb,
}
use natc.Base.Int.{ℤ, pos_part, neg_part, ◌+ℤ◌, ◌-ℤ◌, ◌≤ℤ◌, ltb_ℤ, gap, +ℤ_parts, -ℤ_parts}
use natc.Allim.State.{success, enomem, enospc, failure}
use natc.Allim.Waste.{
  chunk_size, header_size, chunk, Allocations, waste_loop, unlink_last, Freed, freed, free_loop,
}

-- How wasting ends: with some chunks added behind the old ones, each within the sizes asked for, the
-- count raised by the full chunk size for each, and the target passed by less than one chunk size.
pub record Wasted (size : ℕ) (chunks : List ℕ) (current dest : ℤ) (r : Option (List ℕ × ℤ))
    : Type 0 where
  pub new : List ℕ
  pub after : ℤ
  pub result : r ≡ some (chunks ++ new, after)
  pub counted :
      pos_part after + neg_part current
      ≡ pos_part current + neg_part after + chunk_size * length new
  pub bounded :
      0 < length new → pos_part after + neg_part dest < pos_part dest + neg_part after + chunk_size
  pub sizes : All (λ s. s ≤ size) new

module _ (chunks : List ℕ) (current dest : ℤ) where
  Wasted-stop : (size : ℕ) → Wasted size chunks current dest (some (chunks, current))
  Wasted-stop size = record {
    new = [];
    after = current;
    result = rw (append-nil chunks);
    counted = omega arith;
    bounded = λ h. absurd (omega arith);
    sizes = tt;
  }

  All-weaken : (m n : ℕ) (xs : List ℕ) → m ≤ n → All (λ s. s ≤ m) xs → All (λ s. s ≤ n) xs
  All-weaken m n [] h a = tt
  All-weaken m n (x ∷ xs) h a = (omega arith, All-weaken m n xs h a.1)

  Wasted-halve :
      (size : ℕ) (r : Option (List ℕ × ℤ))
      → Wasted (size / 2) chunks current dest r
      → Wasted size chunks current dest r
  Wasted-halve size r k = record {
    new = k.new;
    after = k.after;
    result = k.result;
    counted = k.counted;
    bounded = k.bounded;
    sizes = All-weaken (size / 2) size k.new (omega arith) k.sizes;
  }

  Wasted-grow :
      (size : ℕ) (r : Option (List ℕ × ℤ))
      → ltb_ℤ current dest ≡ true
      → Wasted size (chunks ++ size ∷ []) (current +ℤ chunk) dest r
      → Wasted size chunks current dest r
  Wasted-grow size r below k = record {
    new = size ∷ k.new;
    after = k.after;
    result =
        k.result ∙ ap (λ (l : List ℕ). some (l, k.after)) (append_assoc chunks (size ∷ []) k.new);
    counted = omega (arith, k.counted, +ℤ_parts current chunk);
    bounded = λ h. last (length k.new) refl;
    sizes = (omega arith, k.sizes);
  }
    where
      last :
          (n : ℕ)
          → length k.new ≡ n
          → pos_part k.after + neg_part dest < pos_part dest + neg_part k.after + chunk_size
      last zero e = omega (arith, k.counted, +ℤ_parts current chunk, ltb→lt _ _ below)
      last (suc n) e = k.bounded (omega arith)

pub waste_loop-Wasted :
    (alloc : Allocations) (fuel n size : ℕ) (chunks : List ℕ) (current dest : ℤ)
    → gap dest current + size < fuel
    → Wasted size chunks current dest (waste_loop alloc fuel n size chunks current dest)
unfolding waste_loop
waste_loop-Wasted alloc zero n size chunks current dest enough = absurd (omega arith)
waste_loop-Wasted alloc (suc fuel) n size chunks current dest enough =
    elim (Bool-cases (ltb_ℤ current dest && ltb header_size size)) [
      | inr ends ↦ rw ends (Wasted-stop chunks current dest size)
      | inl goes ↦
          let below : ltb_ℤ current dest ≡ true = ground arith in
          let wide : header_size < size = ground arith in
          let halved =
            waste_loop-Wasted alloc fuel (n + 1) (size / 2) chunks current dest (omega arith) in
          let longer =
            waste_loop-Wasted alloc fuel (n + 1) size (chunks ++ size ∷ []) (current +ℤ chunk) dest
              (omega (arith, +ℤ_parts current chunk, ltb→lt _ _ below)) in
          rw goes
            (elim (alloc n)
              as (λ a. Wasted size chunks current dest (elim a [
                | enomem ↦ waste_loop alloc fuel (n + 1) (size / 2) chunks current dest
                | success ↦
                    waste_loop alloc fuel (n + 1) size (chunks ++ size ∷ []) (current +ℤ chunk) dest
                | enospc ↦ some (chunks, current)
                | failure e ↦ some (chunks, current)
              ])) [
                | enomem ↦ Wasted-halve chunks current dest size _ halved
                | success ↦ Wasted-grow chunks current dest size _ below longer
                | enospc ↦ Wasted-stop chunks current dest size
                | failure e ↦ Wasted-stop chunks current dest size
              ])
    ]

-- As long as memory is to be had, wasting reaches the target.
pub waste_loop-reaches :
    (alloc : Allocations) (fuel n size : ℕ) (chunks : List ℕ) (current dest : ℤ) {chunks' : List ℕ}
    {after : ℤ}
    → ((k : ℕ) → alloc k ≡ success)
    → header_size < size
    → waste_loop alloc fuel n size chunks current dest ≡ some (chunks', after)
    → dest ≤ℤ after
unfolding waste_loop
waste_loop-reaches alloc zero n size chunks current dest all wide e = cc
waste_loop-reaches alloc (suc fuel) n size chunks current dest all wide e =
    elim (Bool-cases (ltb_ℤ current dest)) [
      | inl below ↦
          waste_loop-reaches alloc fuel (n + 1) size (chunks ++ size ∷ []) (current +ℤ chunk) dest
            all wide
            (let goes : (ltb_ℤ current dest && ltb header_size size) ≡ true =
                rw below (lt→ltb _ _ wide) in
              rw (goes, all n) at e)
      | inr there ↦
          (let goes : (ltb_ℤ current dest && ltb header_size size) ≡ false = rw there refl in
            let stopped = rw goes at e in ground arith)
    ]

-- The account of the chunks: the bytes counted are a full chunk size for each of them.
abbrev pub IsCounted : List ℕ → ℤ → Type 0
IsCounted chunks current = pos_part current ≡ neg_part current + chunk_size * length chunks

pub length-unlink_last : (c : ℕ) (cs : List ℕ) → length (unlink_last (c ∷ cs)) ≡ length cs
unfolding unlink_last
length-unlink_last c [] = refl
length-unlink_last c (d ∷ cs) = ap suc (length-unlink_last d cs)

-- How freeing ends: with a correct account again, and at the
-- target or less than one chunk below it, if it was not further below at the start.
pub record Ends (current dest : ℤ) (r : Freed) : Type 0 where
  pub left : List ℕ
  pub after : ℤ
  pub result : r ≡ freed left after
  pub counted : IsCounted left after
  pub reached :
      pos_part dest + neg_part current < pos_part current + neg_part dest + chunk_size
      → (after ≤ℤ dest) × (pos_part dest < pos_part after + chunk_size)

pub free_loop-Ends :
    (fuel : ℕ) (chunks : List ℕ) (current dest : ℤ)
    → fuel ≡ length chunks
    → IsCounted chunks current
    → neg_part dest ≡ 0
    → Ends current dest (free_loop fuel chunks current dest)
unfolding free_loop
free_loop-Ends zero chunks current dest few counted nonneg =
    let ends : ltb_ℤ dest current ≡ false = ground arith in
    rw ends (record {
      left = chunks;
      after = current;
      result = refl;
      counted = counted;
      reached = λ h. (omega arith, omega arith);
    })
free_loop-Ends (suc fuel) [] current dest few counted nonneg = absurd (omega arith)
free_loop-Ends (suc fuel) (c ∷ cs) current dest few counted nonneg =
    elim (Bool-cases (ltb_ℤ dest current)) [
      | inr ends ↦
          let at : current ≤ℤ dest = ground arith in
          rw ends (record {
            left = c ∷ cs;
            after = current;
            result = refl;
            counted = counted;
            reached = λ h. (omega arith, omega arith);
          })
      | inl goes ↦
          let above = ltb→lt _ _ goes in
          let k =
            free_loop-Ends fuel (unlink_last (c ∷ cs)) (current -ℤ chunk) dest
              (omega (arith, length-unlink_last c cs))
              (omega (arith, length-unlink_last c cs, -ℤ_parts current chunk)) nonneg in
          rw goes (record {
            left = k.left;
            after = k.after;
            result = k.result;
            counted = k.counted;
            reached = λ h. k.reached (omega (arith, -ℤ_parts current chunk));
          })
    ]

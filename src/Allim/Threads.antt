-- ===== src/Allim/Threads.antt =====
-- src/allim/lib/allib.c: what `allimPointPass` and `allimPointDone` do to the table of threads.
use natc.Base.{
  ℕ, suc, ◌≤◌, ◌<◌, ◌≡◌, refl, sym, ◌∙◌, ◌≢◌, ◌⊎◌, inl, inr, false, ◌==◌, if◌then◌else◌, arith,
  update, dec_lt, Bytes,
}
use natc.Allim.State.{max_threads, Acp, World, passing}
use natc.Allim.Logging.{write_if, is_logging}
use natc.Allim.Points.{find_slot, pass_point, pass_at, count_down, done_point}
use natc.Allim.Slots.{IsPacked, Finds, find_slot-Finds, find_slot-own, find_slot-first}

count_down-thread_ids :
    (i : ℕ) (w : World) → (count_down i w).world.point.thread_ids ≡ w.point.thread_ids
unfolding count_down
count_down-thread_ids i w = ground arith

pass_at-thread_ids :
    (acp : Acp) (i : ℕ) (file id : Bytes) (w : World)
    → (pass_at acp i file id w).world.point.thread_ids ≡ w.point.thread_ids
unfolding pass_at
pass_at-thread_ids acp i file id w = ground (arith, count_down-thread_ids i w)

-- The table that a pass leaves.
abbrev pub passed : ℕ → (ℕ → ℕ) → ℕ → ℕ
passed self ids =
    let i = find_slot self ids max_threads 0 in if max_threads == i then ids else update ids i self

pub pass_point-thread_ids :
    (acp : Acp) (self : ℕ) (file id : Bytes) (w : World)
    → (pass_point acp self file id w).world.point.thread_ids ≡ passed self w.point.thread_ids
unfolding pass_point
pass_point-thread_ids acp self file id w =
    let p = w.point in
    let told = write_if (is_logging p.log p.log_pass) (passing file id) w in
    let i = find_slot self p.thread_ids max_threads 0 in
    ground (
      arith,
      pass_at-thread_ids acp i file id (record told {
        point = record (told.point) { thread_ids = update told.point.thread_ids i self };
      }),
    )

-- A thread finds its slot again after a pass.
pub find_slot-passed :
    (self : ℕ) (ids : ℕ → ℕ) (i : ℕ)
    → find_slot self ids max_threads 0 ≡ i
    → i < max_threads
    → find_slot self (passed self ids) max_threads 0 ≡ i
find_slot-passed self ids i at room =
    find_slot-first self (passed self ids) i room (inl (ground arith)) (λ j h. (
      λ e. absurd (apart j h (finds.before j (omega arith) (omega arith)) e),
      λ e. absurd (used j h (finds.before j (omega arith) (omega arith)) e),
    ))
  where
    finds : Finds self ids max_threads 0 (find_slot self ids max_threads 0)
    finds = find_slot-Finds self ids max_threads 0

    apart : (j : ℕ) → j < i → (ids j ≢ self) × (ids j ≢ 0) → passed self ids j ≡ self → ⊥
    apart j h n e = ground (arith, n.0)

    used : (j : ℕ) → j < i → (ids j ≢ self) × (ids j ≢ 0) → passed self ids j ≡ 0 → ⊥
    used j h n e = ground (arith, n.1)

-- How a pass changes a packed table: not at all, or by the thread's number in the next slot.
pub data Passed (n self : ℕ) (ids : ℕ → ℕ) (after : ℕ → ℕ) : Type 0 where
  kept : ((j : ℕ) → after j ≡ ids j) → Passed n self ids after
  entered :
      n < max_threads
      → ((j : ℕ) → j < n → ids j ≢ self)
      → ((j : ℕ) → after j ≡ update ids n self j)
      → Passed n self ids after

module _ (n self : ℕ) (ids : ℕ → ℕ) (packed : IsPacked n ids) (room : n ≤ max_threads) where
  slot : ℕ
  slot = find_slot self ids max_threads 0

  slot-Finds : Finds self ids max_threads 0 slot
  unfolding slot
  slot-Finds = find_slot-Finds self ids max_threads 0

  slot-own : slot < n → ids slot ≡ self
  slot-own lt = either (slot-Finds.fits (omega arith))
    where
      either : (ids slot ≡ self) ⊎ (ids slot ≡ 0) → ids slot ≡ self
      either (inl e) = e
      either (inr e) = absurd (packed.used slot lt e)

  slot-le : n < max_threads → slot ≤ n
  slot-le lt = elim (dec_lt n slot) [
    | yes above ↦
        absurd ((slot-Finds.before n (omega arith) above).1 (packed.free n (omega arith) lt))
    | no other ↦ omega arith
  ]

  passed_cases : Passed n self ids (passed self ids)
  unfolding slot
  passed_cases = elim (dec_lt slot n) [
    | yes old ↦ kept (λ j. ground (arith, slot-own old))
    | no new ↦ elim (dec_lt n max_threads) [
      | yes lt ↦
          entered lt (λ j h. (slot-Finds.before j (omega arith) (omega arith)).0)
            (λ j. ground (arith, slot-le lt))
      | no full ↦ kept (λ j. ground (arith, slot-Finds.upto))
    ]
  ]

IsPacked-ext :
    (n : ℕ) (ids after : ℕ → ℕ) → ((j : ℕ) → after j ≡ ids j) → IsPacked n ids → IsPacked n after
IsPacked-ext n ids after same p = record {
  used = λ j h e. p.used j h (sym (same j) ∙ e);
  free = λ j h k. same j ∙ p.free j h k;
  distinct = λ i j h k e. p.distinct i j h k (sym (same i) ∙ e ∙ same j);
}

IsPacked-enter :
    (n self : ℕ) (ids : ℕ → ℕ)
    → self ≢ 0
    → ((j : ℕ) → j < n → ids j ≢ self)
    → IsPacked n ids
    → IsPacked (suc n) (update ids n self)
IsPacked-enter n self ids ne new p = record {
  used = λ j h e. absurd (used_self j h e);
  free = λ j h k. ground (arith, p.free j);
  distinct = λ i j h k e. ground (arith, p.distinct i j, new i, new j);
}
  where
    used_self : (j : ℕ) → j < suc n → update ids n self j ≡ 0 → ⊥
    used_self j h e = ground (arith, p.used j)

-- Passing a limit point keeps the table of threads packed: afterwards the first `m` slots are used,
-- by different threads, the others are free, and every slot that was used holds the same thread.
-- It holds for a thread number other than 0 and a packed table of at most 256 threads.
pub pass_point-IsPacked :
    (acp : Acp) (self : ℕ) (file id : Bytes) (w : World) (n : ℕ)
    → self ≢ 0
    → n ≤ max_threads
    → IsPacked n w.point.thread_ids
    → (m : ℕ) × (m ≤ max_threads)
      × IsPacked m (pass_point acp self file id w).world.point.thread_ids
      × ((j : ℕ)
          → j < n
          → (pass_point acp self file id w).world.point.thread_ids j ≡ w.point.thread_ids j)
pass_point-IsPacked acp self file id w n ne room packed =
    rw (pass_point-thread_ids acp self file id w)
      (by_case (passed_cases n self w.point.thread_ids packed room))
  where
    ids : ℕ → ℕ
    ids = w.point.thread_ids

    by_case :
        {after : ℕ → ℕ}
        → Passed n self ids after
        → (m : ℕ) × (m ≤ max_threads) × IsPacked m after × ((j : ℕ) → j < n → after j ≡ ids j)
    by_case {after} (kept same) = (n, room, IsPacked-ext n ids after same packed, λ j h. same j)
    by_case {after} (entered lt new same) = (
      suc n,
      lt,
      IsPacked-ext (suc n) _ after same (IsPacked-enter n self ids ne new packed),
      λ j h. ground (arith, same j),
    )

-- A thread in the slot `i` frees it when it is done.
pub done_point-thread_ids :
    (w : World) (n i : ℕ)
    → n ≤ max_threads
    → IsPacked n w.point.thread_ids
    → i < n
    → (done_point (w.point.thread_ids i) w).world.point.thread_ids ≡ update w.point.thread_ids i 0
unfolding done_point
done_point-thread_ids w n i room packed lt =
    let busy : (max_threads == i) ≡ false = ground arith in
    rw (find_slot-own packed room i lt refl, busy)

-- So the next pass of a thread behind it finds the free slot first.
find_slot-freed :
    (n i j : ℕ) (ids : ℕ → ℕ)
    → n ≤ max_threads
    → IsPacked n ids
    → i < j
    → j < n
    → find_slot (ids j) (update ids i 0) max_threads 0 ≡ i
find_slot-freed n i j ids room packed lt lt' =
    find_slot-first (ids j) (update ids i 0) i (omega arith) (inr (ground arith))
      (λ k h. (λ e. apart k h e, λ e. absurd (used k h e)))
  where
    apart : (k : ℕ) → k < i → update ids i 0 k ≡ ids j → ⊥
    apart k h e = ground (arith, packed.distinct k j)

    used : (k : ℕ) → k < i → update ids i 0 k ≡ 0 → ⊥
    used k h e = ground (arith, packed.used k)

-- A thread that is done frees its slot, and the next pass of a thread whose slot lies behind it takes
-- the freed slot beside its own: one thread then stands in two slots, with two hit counts.
pub done_point-moves :
    (acp : Acp) (file id : Bytes) (w : World) (n i j : ℕ)
    → n ≤ max_threads
    → IsPacked n w.point.thread_ids
    → i < j
    → j < n
    → let ids = w.point.thread_ids in
      let after = pass_point acp (ids j) file id (done_point (ids i) w).world in
      (after.world.point.thread_ids i ≡ ids j) × (after.world.point.thread_ids j ≡ ids j)
done_point-moves acp file id w n i j room packed lt lt' =
    let ids = w.point.thread_ids in
    rw
      (
        pass_point-thread_ids acp (ids j) file id (done_point (ids i) w).world,
        done_point-thread_ids w n i room packed (omega arith),
        find_slot-freed n i j ids room packed lt lt',
      )
      (ground arith, ground arith)

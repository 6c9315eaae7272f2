-- ===== src/Allim/Countdown.antt =====
-- src/allim/lib/allib.c: how often a limit point must be passed before `allimPointPass` reports it.
use natc.Base.{
  ℕ, zero, suc, ◌^◌, ◌<◌, ◌≡◌, refl, ap, ◌∙◌, ◌≢◌, true, false, ◌==◌, if◌then◌else◌, arith, List,
  [], ◌∷◌, ◌++◌, Bytes, update, replicate, ap₂,
}
use natc.Allim.State.{success, max_threads, max_length, every, Acp, World, passing}
use natc.Allim.Shared.{Reply}
use natc.Allim.Logging.{write_if, is_logging}
use natc.Allim.Points.{Hit, miss, dec32, find_slot, count_down, pass_at, pass_point, base_name}
use natc.Allim.Threads.{pass_point-thread_ids, find_slot-passed}

-- The thread stands in the slot `i`, and the point that it passes is the one that is set, by file
-- and identifier, neither of which is the wildcard.
pub record IsArmed (acp : Acp) (self : ℕ) (file id : Bytes) (i : ℕ) (w : World) : Type 0 where
  pub slot : find_slot self w.point.thread_ids max_threads 0 ≡ i
  pub room : i < max_threads
  pub file_set : (0 == acp.c_str_cmp w.point.file every acp.path_max) ≡ false
  pub file_same : (0 == acp.c_str_cmp w.point.file (base_name file) acp.path_max) ≡ true
  pub id_set : (0 == acp.c_str_cmp w.point.id every max_length) ≡ false
  pub id_same : (0 == acp.c_str_cmp w.point.id id max_length) ≡ true

-- What a counted pass does: one less on the thread's own count, a hit and a fresh count at zero.
pub record Counts (i : ℕ) (w : World) (r : Reply Hit) : Type 0 where
  pub succeeds : r.result ≡ success
  pub out : r.out ≡ (if 0 == dec32 (w.point.hit_counts i) then (w.point.err_no, true) else miss)
  pub own :
      r.world.point.hit_counts i
      ≡ (if 0 == dec32 (w.point.hit_counts i) then w.point.count else dec32 (w.point.hit_counts i))
  pub others : (j : ℕ) → j ≢ i → r.world.point.hit_counts j ≡ w.point.hit_counts j
  pub file : r.world.point.file ≡ w.point.file
  pub id : r.world.point.id ≡ w.point.id
  pub err_no : r.world.point.err_no ≡ w.point.err_no
  pub count : r.world.point.count ≡ w.point.count

count_down-Counts : (i : ℕ) (w : World) → Counts i w (count_down i w)
unfolding count_down
count_down-Counts i w = record {
  succeeds = ground arith;
  out = ground arith;
  own = ground arith;
  others = λ j ne. ground arith;
  file = ground arith;
  id = ground arith;
  err_no = ground arith;
  count = ground arith;
}

-- The counts are those of any world with the same point, thread numbers apart.
Counts-ext :
    (i : ℕ) (v w : World) (r : Reply Hit)
    → v.point.hit_counts ≡ w.point.hit_counts
    → v.point.file ≡ w.point.file
    → v.point.id ≡ w.point.id
    → v.point.err_no ≡ w.point.err_no
    → v.point.count ≡ w.point.count
    → Counts i v r
    → Counts i w r
Counts-ext i v w r hits f d e n k = record {
  succeeds = k.succeeds;
  out = rw (← hits, ← e) k.out;
  own = rw (← hits, ← n) k.own;
  others = λ j ne. rw (← hits) (k.others j ne);
  file = k.file ∙ f;
  id = k.id ∙ d;
  err_no = k.err_no ∙ e;
  count = k.count ∙ n;
}

module _ (acp : Acp) (self : ℕ) (file id : Bytes) where
  told : World → World
  told w = write_if (is_logging w.point.log w.point.log_pass) (passing file id) w

  told-point : (w : World) → (told w).point ≡ w.point
  unfolding told write_if
  told-point w = ground arith

  seated : ℕ → World → World
  unfolding told
  seated i w = record (told w) {
    point = record ((told w).point) { thread_ids = update (told w).point.thread_ids i self };
  }

  -- A pass of an armed thread is the count on its slot.
  pass_point-armed :
      (i : ℕ) (w : World)
      → IsArmed acp self file id i w
      → pass_point acp self file id w ≡ count_down i (seated i w)
  unfolding pass_point pass_at seated
  pass_point-armed i w a =
      let there : (max_threads == i) ≡ false = let lt = a.room in ground arith in
      rw (a.slot, there) (ground (arith, a.file_set, a.file_same, a.id_set, a.id_same))

  pass_point-Counts :
      (i : ℕ) (w : World)
      → IsArmed acp self file id i w
      → Counts i w (pass_point acp self file id w)
  unfolding seated
  pass_point-Counts i w a =
      let same_point = told-point w in
      rw (pass_point-armed i w a) (
        Counts-ext i (seated i w) w (count_down i (seated i w)) (ap (λ p. p.hit_counts) same_point)
          (ap (λ p. p.file) same_point) (ap (λ p. p.id) same_point) (ap (λ p. p.err_no) same_point)
          (ap (λ p. p.count) same_point) (count_down-Counts i (seated i w)))

  -- The thread stays armed.
  pass_point-IsArmed :
      (i : ℕ) (w : World)
      → IsArmed acp self file id i w
      → IsArmed acp self file id i (pass_point acp self file id w).world
  pass_point-IsArmed i w a =
      let k = pass_point-Counts i w a in
      record {
        slot =
            rw (pass_point-thread_ids acp self file id w)
              (find_slot-passed self w.point.thread_ids i a.slot a.room);
        room = a.room;
        file_set = rw k.file a.file_set;
        file_same = rw k.file a.file_same;
        id_set = rw k.id a.id_set;
        id_same = rw k.id a.id_same;
      }

  -- What `n` passes in a row report, in order, and the world after them.
  pub pass_times : ℕ → World → List Hit × World
  pass_times zero w = ([], w)
  pass_times (suc n) w =
      let r = pass_point acp self file id w in
      let (hits, w') = pass_times n r.world in (r.out ∷ hits, w')

  -- While its slot counts `m + 1` (below 2 ^ 32), an armed thread passes `m` times with no hit. The
  -- pass after that hits with the errno that is set, and the slot counts from the set count again;
  -- the thread is still armed, so the next hit follows after as many passes as the count.
  pub pass_times-countdown :
      (i m : ℕ) (w : World)
      → IsArmed acp self file id i w
      → w.point.hit_counts i ≡ suc m
      → suc m < 2 ^ 32
      → let (hits, w') = pass_times (suc m) w in
        (hits ≡ replicate m miss ++ (w.point.err_no, true) ∷ [])
        × (w'.point.hit_counts i ≡ w.point.count)
        × IsArmed acp self file id i w'
  unfolding pass_times
  pass_times-countdown i zero w a h small =
      let k = pass_point-Counts i w a in
      let ends : (0 == dec32 (w.point.hit_counts i)) ≡ true = rw h (refl) in
      (
        ap (λ o. o ∷ []) (k.out ∙ ap (λ b. if b then (w.point.err_no, true) else miss) ends),
        k.own ∙ ap (λ b. if b then w.point.count else dec32 (w.point.hit_counts i)) ends,
        pass_point-IsArmed i w a,
      )
  pass_times-countdown i (suc m) w a h small =
      let k = pass_point-Counts i w a in
      let goes : (0 == dec32 (w.point.hit_counts i)) ≡ false = rw h (ground arith) in
      let left = k.own ∙ ap (λ b. if b then w.point.count else dec32 (w.point.hit_counts i)) goes in
      let later =
        pass_times-countdown i m (pass_point acp self file id w).world (pass_point-IsArmed i w a)
          (left ∙ rw h (omega arith)) (omega arith) in
      (
        ap₂ ◌∷◌ (k.out ∙ ap (λ b. if b then (w.point.err_no, true) else miss) goes)
            (later.0 ∙ ap (λ (e : ℕ). replicate m miss ++ (e, true) ∷ []) k.err_no),
        later.1 ∙ k.count,
        later.2,
      )

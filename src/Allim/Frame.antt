-- ===== src/Allim/Frame.antt =====
-- src/allim/lib/allib.c: every operation that returns gives back the lock of the shared memory and
-- detaches it.
use natc.Base.{
  ℕ, ◌≡◌, Bool, true, false, arith, Bytes, update, refl, List, Option, some, none, subst, if-both,
  elim-Option,
}
use natc.Base.Int.{ℤ, ltb_ℤ}
use natc.Allim.State.{Rc, Event, passing, success, World, Answers, Acp, write, max_threads}
use natc.Allim.Shared.{Reply, locked_call, get_shared_memory, release_shared_memory, set_lock}
use natc.Allim.Logging.{
  Switches, enable_logging, set_logging, get_logging, write_if, is_logging, enable_body, set_body,
  get_body,
}
use natc.Allim.Points.{
  point_set, point_get, point_clear, point_pass, point_done, count_down, pass_at, pass_point,
  find_slot, clear_point, done_point, set_point, get_point,
}
use natc.Allim.Limits.{
  set_memory_waste, get_memory_waste, memory, set_disk_waste, get_disk_waste, set_desc_waste,
  get_desc_waste, memory_body, wasted, Run, returned, faulted, Ended, ended,
}
use natc.Allim.Limits.{no_fuel, run_of, fault, out_of_fuel, reply, ne_ℤ}
use natc.Allim.Limits
use natc.Allim.Waste
use natc.Allim.Waste.{Allocations, free_memory, Freed, freed, null_deref}
use natc.Allim.Sockets.{Openings, desc_body, desc}

-- What the work of an operation leaves alone.
pub record Keeps (w v : World) : Type 0 where
  pub lock : v.point.lock ≡ w.point.lock
  pub attached : v.attached ≡ w.attached

-- After a call: the lock is free, and the shared memory is attached as often as before.
pub record IsReleased (w v : World) : Type 0 where
  pub unlocked : v.point.lock ≡ false
  pub balanced : v.attached ≡ w.attached

module _ {A : Type 0} (c : Answers) (before : A) (body : World → Reply A) (w : World) where
  locked_call-IsReleased :
      ((v : World) → Keeps v (body v).world)
      → w.point.lock ≡ false
      → c.shm_detach ≡ success
      → IsReleased w (locked_call c before body w).2
  unfolding locked_call get_shared_memory release_shared_memory write
  locked_call-IsReleased keeps free det =
      ground (arith, keeps (set_lock true (get_shared_memory c w).1))

-- The operations under the lock, as requests; what the platform answers to the allocations and openings
-- of a request is a part of it.
pub data Request : Type 0 where
  set : Bytes → Bytes → ℕ → ℕ → Request
  get clear done : Request
  pass : Bytes → Bytes → Request
  enable : ℕ → Request
  switch : Switches → Request
  switches : Request
  set_memory set_desc : ℤ → Request
  set_disk : Bytes → ℤ → Request
  get_memory get_disk get_desc : Request
  waste_memory : Allocations → Request
  open_descs : Openings → Request

-- The world after a call that returns; a fault ends the process inside the call.
abbrev pub after_run : Run → Option World
after_run (returned rc w) = some w
after_run faulted = none
after_run no_fuel = none

-- The world after a request.
unfoldable pub step : Acp → Answers → Request → World → Option World
step acp c (set file id count err_no) w = some (point_set acp c file id count err_no w).2
step acp c get w = some (point_get acp c w).2
step acp c clear w = some (point_clear c w).2
step acp c done w = some (point_done c w).2
step acp c (pass file id) w = some (point_pass acp c file id w).2
step acp c (enable n) w = some (enable_logging c n w).2
step acp c (switch s) w = some (set_logging c s w).2
step acp c switches w = some (get_logging c w).2
step acp c (set_memory dest) w = some (set_memory_waste c dest w).2
step acp c (set_desc dest) w = some (set_desc_waste c dest w).2
step acp c (set_disk path dest) w = some (set_disk_waste acp c path dest w).2
step acp c get_memory w = some (get_memory_waste c w).2
step acp c get_disk w = some (get_disk_waste acp c w).2
step acp c get_desc w = some (get_desc_waste c w).2
step acp c (waste_memory alloc) w = after_run (memory alloc c w)
step acp c (open_descs opens) w = after_run (desc opens c w)

write_if-Keeps : (b : Bool) (e : Event) (w : World) → Keeps w (write_if b e w)
unfolding write_if
write_if-Keeps b e w = ground arith

count_down-Keeps : (i : ℕ) (w : World) → Keeps w (count_down i w).world
unfolding count_down
count_down-Keeps i w = ground arith

pass_at-Keeps :
    (acp : Acp) (i : ℕ) (file id : Bytes) (w : World) → Keeps w (pass_at acp i file id w).world
unfolding pass_at
pass_at-Keeps acp i file id w = ground (arith, count_down-Keeps i w)

pass_point-Keeps :
    (acp : Acp) (self : ℕ) (file id : Bytes) (w : World)
    → Keeps w (pass_point acp self file id w).world
unfolding pass_point
pass_point-Keeps acp self file id w =
    let p = w.point in
    let told = write_if (is_logging p.log p.log_pass) (passing file id) w in
    let i = find_slot self p.thread_ids max_threads 0 in
    ground (
      arith,
      pass_at-Keeps acp i file id (record told {
        point = record (told.point) { thread_ids = update told.point.thread_ids i self };
      }),
    )

wasted-Keeps : (chunks : List ℕ) (dest : ℤ) (w : World) → Keeps w (wasted chunks dest w).world
unfolding wasted write_if
wasted-Keeps chunks dest w = ground arith

Keeps-refl : (w : World) → Keeps w w
Keeps-refl w = record { lock = refl; attached = refl }

memory_body-Keeps : (alloc : Allocations) (w : World) → Keeps w (memory_body alloc w).world
unfolding memory_body
memory_body-Keeps alloc w =
    let dest = w.point.dest_memory in
    let current = w.point.memory in
    let P = λ (r : Reply Ended). Keeps w r.world in
    if-both P (ne_ℤ dest current) _ _
      (λ _.
        if-both P (ltb_ℤ current dest) _ _
          (λ _.
            elim-Option P (Waste.waste_memory alloc w.chunks current dest) _ _ (λ _. Keeps-refl w)
              (λ r _. wasted-Keeps r.0 r.1 w))
          (λ _. by_freed (free_memory w.chunks current dest)))
      (λ _. Keeps-refl w)
  where
    by_freed :
        (r : Freed)
        → Keeps w
            (elim r as (λ _. Reply Ended) [
              | null_deref ↦ reply fault w
              | freed chunks after ↦ wasted chunks after w
            ]).world
    by_freed null_deref = Keeps-refl w
    by_freed (freed chunks after) = wasted-Keeps chunks after w

told-Keeps :
    (b : Bool) (e : Event) (socks : ℕ) (desc : ℤ) (w : World)
    → let told = write_if b e (record w { socks = socks }) in
      Keeps w (record told { point = record (told.point) { desc = desc } })
unfolding write_if
told-Keeps b e socks desc w = ground arith

desc_body-Keeps : (opens : Openings) (w : World) → Keeps w (desc_body opens w).world
unfolding desc_body
desc_body-Keeps opens w =
    if-both (λ (r : Reply Ended). Keeps w r.world) (ne_ℤ w.point.dest_desc w.point.desc) _ _
      (λ _. told-Keeps _ _ _ _ w) (λ _. Keeps-refl w)

run-IsReleased :
    (w v : World) (r : Rc × Ended × World)
    → after_run (run_of r) ≡ some v
    → IsReleased w r.2
    → IsReleased w v
run-IsReleased w v (rc, ended, w') e h = let same : w' ≡ v = cc in subst (IsReleased w) same h
run-IsReleased w v (rc, fault, w') e h = cc
run-IsReleased w v (rc, out_of_fuel, w') e h = cc

some-IsReleased : (w v w' : World) → some w' ≡ some v → IsReleased w w' → IsReleased w v
some-IsReleased w v w' e h = let same : w' ≡ v = cc in subst (IsReleased w) same h

-- Each of the operations that take the lock, on each of its branches on which it returns, gives the lock
-- back and detaches the shared memory as often as it attached it, provided that the lock was free before
-- and that detaching succeeds.
pub step-IsReleased :
    (acp : Acp) (c : Answers) (r : Request) (w v : World)
    → w.point.lock ≡ false
    → c.shm_detach ≡ success
    → step acp c r w ≡ some v
    → IsReleased w v
unfolding step point_set set_point point_get get_point point_clear clear_point point_done done_point
    point_pass enable_logging enable_body set_logging set_body get_logging get_body set_memory_waste
    Limits.set_memory get_memory_waste set_disk_waste Limits.set_disk get_disk_waste set_desc_waste
    Limits.set_desc get_desc_waste write_if memory desc
step-IsReleased acp c (pass file id) w v free det e =
    some-IsReleased w v _ e
      (locked_call-IsReleased c _ _ w (pass_point-Keeps acp c.self file id) free det)
step-IsReleased acp c (waste_memory alloc) w v free det e =
    run-IsReleased w v _ e (locked_call-IsReleased c _ _ w (memory_body-Keeps alloc) free det)
step-IsReleased acp c (open_descs opens) w v free det e =
    run-IsReleased w v _ e (locked_call-IsReleased c _ _ w (desc_body-Keeps opens) free det)
step-IsReleased acp c _ w v free det e =
    some-IsReleased w v _ e (locked_call-IsReleased c _ _ w (λ u. ground arith) free det)

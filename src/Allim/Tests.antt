-- ===== src/Allim/Tests.antt =====
-- Concrete runs of the limit-point library, and the theorems at inputs that meet their hypotheses.
use natc.Base.{
  ℕ, zero, suc, ◌-◌, ◌*◌, ◌≤◌, ◌<◌, ◌≡◌, refl, true, if◌then◌else◌, arith, [], ◌∷◌, ◌++◌, some,
  Bytes, codes, same, length, take, take_all, replicate, update,
}
use natc.Base.Int.{pos, negsuc}
use natc.Allim.State.{success, Acp, AcpLaws, Answers, World, Point, init, max_threads}
use natc.Allim.Shared.{get_shared_memory, release_shared_memory, locked_call}
use natc.Allim.Frame.{IsReleased, pass, step, step-IsReleased}
use natc.Allim.Points.{
  point_pass, find_slot, base_name, point_set, set_point, point_get, get_point, pass_point,
  done_point, miss,
}
use natc.Allim.Slots.{IsPacked}
use natc.Allim.Threads.{pass_point-IsPacked, done_point-moves}
use natc.Allim.Countdown.{IsArmed, pass_times, pass_times-countdown}
use natc.Allim.Setting.{point_get-point_set}
use natc.Allim.Waste.{chunk_size}
use natc.Allim.Limits.{memory_body, fault}
use natc.Allim.Memory.{MemoryDone, memory_body-MemoryDone}
use natc.Allim.MemoryFaults.{memory_body-negative}
use natc.Allim.Sockets.{desc_body}
use natc.Allim.Descriptors.{DescDone, desc_body-DescDone, desc_body-overrun}

-- String functions that do what acp documents.
abbrev plain : Acp
plain = record {
  path_max = 1024;
  c_str_cpy = λ n s. take (n - 1) s;
  c_str_cmp = λ s t n. if same (take n s) (take n t) then 0 else 1;
  c_str_len = λ s n. length (take n s);
}

len_pos-plain : (s : Bytes) (n : ℕ) → 0 < n → 0 < length s → 0 < plain.c_str_len s n
len_pos-plain [] n h h' = absurd (omega arith)
len_pos-plain (c ∷ s) zero h h' = absurd (omega arith)
len_pos-plain (c ∷ s) (suc n) h h' = omega arith

plain-AcpLaws : AcpLaws plain
plain-AcpLaws = record {
  cpy_fits = λ n s lt. take_all (n - 1) s (omega arith);
  len_pos = len_pos-plain;
}

-- Every call of the platform succeeds; the thread has the number `self`.
abbrev calm : ℕ → Answers
calm self = record {
  env_get = success;
  shm_log_open = success;
  shm_log_read = success;
  to_int32 = success;
  shm_key = 77;
  shm_attach = success;
  shm_detach = success;
  self = self;
}

abbrev world : Point → World
world p = record {
  point = p;
  key = 0;
  attached = 0;
  open_files = 0;
  chunks = [];
  socks = 0;
  trace = [];
}

abbrev fresh : World
fresh = world init

abbrev file : Bytes
file = codes "src/sm/smx.cpp"

-- A point that is set to hit at every third pass with errno 28, passed by the thread 7 in slot 0.
abbrev armed : World
armed = record fresh {
  point = record init {
    file = codes "smx.cpp";
    id = codes "alloc";
    err_no = 28;
    count = 3;
    hit_counts = λ i. 3;
    thread_ids = update (λ i. 0) 0 7;
  };
}

base_name_run : base_name file ≡ codes "smx.cpp"
unfolding base_name
base_name_run = refl

armed-IsArmed : IsArmed plain 7 file (codes "alloc") 0 armed
unfolding find_slot base_name init
armed-IsArmed = record {
  slot = refl;
  room = omega arith;
  file_set = refl;
  file_same = refl;
  id_set = refl;
  id_same = refl;
}

pass_times-countdown_example :
    let (hits, w') = pass_times plain 7 file (codes "alloc") 3 armed in
    (hits ≡ replicate 2 miss ++ (28, true) ∷ [])
    × (w'.point.hit_counts 0 ≡ 3)
    × IsArmed plain 7 file (codes "alloc") 0 w'
unfolding init
pass_times-countdown_example =
    pass_times-countdown plain 7 file (codes "alloc") 0 2 armed armed-IsArmed refl (omega arith)

step-IsReleased_example : IsReleased armed (point_pass plain (calm 7) file (codes "alloc") armed).2
unfolding init step
step-IsReleased_example =
    step-IsReleased plain (calm 7) (pass file (codes "alloc")) armed _ refl refl refl

-- Two threads, 7 and 8, in the first two slots.
abbrev pair_of : ℕ → ℕ
pair_of = update (update (λ i. 0) 0 7) 1 8

pair_of-IsPacked : IsPacked 2 pair_of
pair_of-IsPacked = record {
  used = λ j h e. absurd (used j h e);
  free = λ j h k. ground arith;
  distinct = λ i j h k e. ground arith;
}
  where
    used : (j : ℕ) → j < 2 → pair_of j ≡ 0 → ⊥
    used j h e = ground arith

abbrev two : World
two = record fresh { point = record init { thread_ids = pair_of } }

pass_point-IsPacked_example :
    let after = (pass_point plain 9 file (codes "alloc") two).world.point.thread_ids in
    (m : ℕ) × (m ≤ max_threads) × IsPacked m after × ((j : ℕ) → j < 2 → after j ≡ pair_of j)
pass_point-IsPacked_example =
    pass_point-IsPacked plain 9 file (codes "alloc") two 2 (λ e. omega arith) (omega arith)
      pair_of-IsPacked

done_point-moves_example :
    let after = pass_point plain 8 file (codes "alloc") (done_point 7 two).world in
    (after.world.point.thread_ids 0 ≡ 8) × (after.world.point.thread_ids 1 ≡ 8)
done_point-moves_example =
    done_point-moves plain file (codes "alloc") two 2 0 1 (omega arith) pair_of-IsPacked
      (omega arith) (omega arith)

point_set_run : (point_set plain (calm 7) file (codes "alloc") 3 28 fresh).0 ≡ success
unfolding point_set set_point locked_call get_shared_memory release_shared_memory init
point_set_run = refl

-- Another process, which has attached the shared memory and opened a file for itself.
abbrev elsewhere : World
elsewhere = record fresh {
  point = (point_set plain (calm 7) file (codes "alloc") 3 28 fresh).2.point;
  key = 5;
  open_files = 1;
}

point_get_run : (point_get plain (calm 8) elsewhere).0 ≡ success
unfolding point_set set_point point_get get_point locked_call get_shared_memory
    release_shared_memory init
point_get_run = refl

point_get-point_set_example :
    let w' = (point_set plain (calm 7) file (codes "alloc") 3 28 fresh).2 in
    ((point_get plain (calm 8) elsewhere).1 ≡ some (file, codes "alloc", 3, 28))
    × ((i : ℕ) → i < max_threads → w'.point.hit_counts i ≡ 3)
point_get-point_set_example =
    point_get-point_set plain plain-AcpLaws file (codes "alloc") 3 28 (calm 7) (calm 8) fresh
      elsewhere (omega arith) (omega arith) (omega arith) (omega arith) point_set_run refl
      point_get_run

-- Three chunks are wasted and one of them is to stay.
abbrev loaded : World
loaded = record fresh {
  point = record init { memory = pos (3 * chunk_size); dest_memory = pos (1024 * 1024) };
  chunks = chunk_size ∷ chunk_size ∷ chunk_size ∷ [];
}

memory_body-MemoryDone_example :
    MemoryDone (λ n. success) loaded (memory_body (λ n. success) loaded)
memory_body-MemoryDone_example = memory_body-MemoryDone (λ n. success) loaded refl refl

abbrev negative : World
negative = record loaded { point = record (loaded.point) { dest_memory = negsuc 0 } }

memory_body-negative_example : (memory_body (λ n. success) negative).out ≡ fault
memory_body-negative_example =
    memory_body-negative (λ n. success) negative 0 (omega arith) refl refl

-- Three sockets are open and five are wanted.
abbrev three : World
three = record fresh { point = record init { desc = pos 3; dest_desc = pos 5 }; socks = 3 }

desc_body-DescDone_example : DescDone (λ n. success) three (desc_body (λ n. success) three)
desc_body-DescDone_example =
    desc_body-DescDone (λ n. success) three refl (omega arith) (omega arith) (omega arith)

abbrev crowded : World
crowded = record fresh { point = record init { desc = pos 3; dest_desc = pos 65537 }; socks = 3 }

desc_body-overrun_example : (desc_body (λ n. success) crowded).out ≡ fault
desc_body-overrun_example =
    desc_body-overrun (λ n. success) crowded (omega arith) (omega arith) refl (λ k. refl)

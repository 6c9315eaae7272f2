-- ===== src/Allim/Points.antt =====
-- src/allim/lib/allib.c: the limit point itself, `allimPointSet`, `allimPointGet`,
-- `allimPointClear`, `allimPointPass` and `allimPointDone`.
use natc.Base.{
  ℕ, zero, suc, ◌+◌, ◌-◌, ◌%◌, ◌^◌, Bool, true, false, ◌||◌, ltb, ◌==◌, update, if◌then◌else◌, [],
  ◌∷◌, Option, none, some, Bytes, length,
}
use natc.Allim.State.{
  Rc, success, enospc, max_length, max_threads, every, setting, clearing, passing, limit_hit,
  activating, callstack, World, Answers, Acp, write,
}
use natc.Allim.Shared.{Reply, locked_call}
use natc.Allim.Logging.{is_logging, write_if}

-- `acpAtomicDec32`: the new value, as a bit pattern.
abbrev pub dec32 : ℕ → ℕ
dec32 n = (n + 2 ^ 32 - 1) % 2 ^ 32

-- What stands behind the first slash, if there is one: `strstr(aFile, "/") + 1`.
unfoldable pub after_slash : Bytes → Option Bytes
after_slash [] = none
after_slash (c ∷ cs) = if c == b'/' then some cs else after_slash cs

-- `while (NULL != (sNext = strstr(aFile, "/"))) aFile = sNext + 1;`, the branch of the platforms
-- other than Windows. The fuel is the length, which each round makes smaller.
unfoldable pub base_name_loop : ℕ → Bytes → Bytes
unfolding after_slash
base_name_loop zero s = s
base_name_loop (suc fuel) s = elim (after_slash s) [
  | none ↦ s
  | some rest ↦ base_name_loop fuel rest
]

unfoldable pub base_name : Bytes → Bytes
unfolding base_name_loop
base_name s = base_name_loop (length s) s

-- The first slot from `i` on that holds the thread's number or is free; after `k` slots that do
-- neither, the slot behind them.
unfoldable pub find_slot : ℕ → (ℕ → ℕ) → ℕ → ℕ → ℕ
find_slot self ids zero i = i
find_slot self ids (suc k) i =
    let rest = find_slot self ids k (i + 1) in if self == ids i || 0 == ids i then i else rest

-- The two outputs of `allimPointPass`.
abbrev pub Hit : Type 0
Hit = ℕ × Bool

abbrev pub miss : Hit
miss = (0, false)

abbrev pub reply {ℓ} : {A : Type ℓ} → Rc → A → World → Reply A
reply rc a w = record { result = rc; out = a; world = w }

module _ (acp : Acp) where
  open acp use {path_max, c_str_cpy, c_str_cmp, c_str_len}

  unfoldable pub set_point : Bytes → Bytes → ℕ → ℕ → World → Reply (Unit {0})
  unfolding write_if
  set_point file id count err_no w =
      let p = w.point in
      let p' = record p {
        file = if ltb 0 (c_str_len file path_max) then c_str_cpy path_max file else p.file;
        id = if ltb 0 (c_str_len id max_length) then c_str_cpy max_length id else p.id;
        count = count;
        err_no = err_no;
        hit_counts = λ i. if ltb i max_threads then count else p.hit_counts i;
      } in
      reply success tt (
        write_if (is_logging p.log p.log_set) (setting file id count err_no)
          (record w { point = p' }))

  unfoldable pub point_set : Answers → Bytes → Bytes → ℕ → ℕ → World → Rc × Unit {0} × World
  point_set c file id count err_no = locked_call c tt (set_point file id count err_no)

  -- File, identifier, count and errno.
  unfoldable pub get_point : World → Reply (Option (Bytes × Bytes × ℕ × ℕ))
  get_point w =
      let p = w.point in
      reply success (some (c_str_cpy path_max p.file, c_str_cpy max_length p.id, p.count, p.err_no))
        w

  unfoldable pub point_get : Answers → World → Rc × Option (Bytes × Bytes × ℕ × ℕ) × World
  point_get c = locked_call c none get_point

unfoldable pub clear_point : World → Reply (Unit {0})
unfolding write_if
clear_point w =
    let p = record (w.point) { file = []; id = []; count = 0; err_no = 0 } in
    reply success tt
      (write_if (is_logging w.point.log w.point.log_set) clearing (record w { point = p }))

unfoldable pub point_clear : Answers → World → Rc × Unit {0} × World
point_clear c = locked_call c tt clear_point

-- `allimLogCallstack`, as far as the log shows it: only under its own switch.
unfoldable pub log_callstack : World → World
unfolding write
log_callstack w = if w.point.log_stack == 0 then w else write callstack w

-- The branch of a matching file and identifier: count down, and at zero hit and start again.
unfoldable pub count_down : ℕ → World → Reply Hit
unfolding write_if log_callstack
count_down i w =
    let p = w.point in
    let hits = dec32 (p.hit_counts i) in
    let w' = record w { point = record p { hit_counts = update p.hit_counts i hits } } in
    let w'' = write_if (is_logging p.log p.log_hit) (limit_hit p.file p.id hits) w' in
    if 0 == hits
    then (let told =
          if is_logging p.log p.log_limit
          then log_callstack (write_if true (activating p.err_no) w'')
          else w'' in
        reply success (p.err_no, true)
          (record told {
            point = record (told.point) { hit_counts = update told.point.hit_counts i p.count };
          }))
    else reply success miss w''

module _ (acp : Acp) where
  open acp use {path_max, c_str_cmp}

  -- Behind the search of the slot `i`: does the point that is passed match the one that is set?
  unfoldable pub pass_at : ℕ → Bytes → Bytes → World → Reply Hit
  pass_at i file id w =
      let p = w.point in
      let everywhere = reply success (p.err_no, true) w in
      if 0 == c_str_cmp p.file every path_max
      then everywhere
      else if 0 == c_str_cmp p.file (base_name file) path_max
      then (if 0 == c_str_cmp p.id every max_length
          then everywhere
          else if 0 == c_str_cmp p.id id max_length
          then count_down i w
          else reply success miss w)
      else reply success miss w

  unfoldable pub pass_point : ℕ → Bytes → Bytes → World → Reply Hit
  unfolding write_if
  pass_point self file id w =
      let p = w.point in
      let told = write_if (is_logging p.log p.log_pass) (passing file id) w in
      let i = find_slot self p.thread_ids max_threads 0 in
      if max_threads == i
      then reply enospc miss told
      else pass_at i file id (record told {
        point = record (told.point) { thread_ids = update told.point.thread_ids i self };
      })

  unfoldable pub point_pass : Answers → Bytes → Bytes → World → Rc × Hit × World
  point_pass c file id = locked_call c miss (pass_point c.self file id)

unfoldable pub done_point : ℕ → World → Reply (Unit {0})
done_point self w =
    let p = w.point in
    let i = find_slot self p.thread_ids max_threads 0 in
    if max_threads == i
    then reply enospc tt w
    else reply success tt (record w { point = record p { thread_ids = update p.thread_ids i 0 } })

unfoldable pub point_done : Answers → World → Rc × Unit {0} × World
point_done c = locked_call c tt (done_point c.self)

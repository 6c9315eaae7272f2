-- ===== src/Allim/Shared.antt =====
-- src/allim/lib/allib.c: `allimGetSharedMemory`, `allimReleaseSharedMemory`, `allimIsProceeding`,
-- and the frame that the other operations share: attach, lock, work, unlock, detach.
use natc.Base.{◌+◌, ◌-◌, Bool, true, false, not, ◌==◌, if◌then◌else◌}
use natc.Allim.State.{
  Rc, success, is_success, cannot_open, cannot_read, cannot_convert, cannot_attach, not_running,
  World, Answers, write,
}

-- A call's result code and the world it leaves.
abbrev pub Outcome : Type 0
Outcome = Rc × World

abbrev pub is_failure : Rc → Bool
is_failure rc = not (is_success rc)

-- The first half of `allimGetSharedMemory`: without a key, read it from the key file. The file
-- stays open where reading or converting fails.
unfoldable pub read_key : Answers → World → Outcome
unfolding write
read_key c w =
    let opened = record w { open_files = w.open_files + 1 } in
    if is_failure c.env_get
    then (c.env_get, w)
    else if is_failure c.shm_log_open
    then (c.shm_log_open, write (cannot_open c.shm_log_open) w)
    else if is_failure c.shm_log_read
    then (c.shm_log_read, write (cannot_read c.shm_log_read) opened)
    else if is_failure c.to_int32
    then (c.to_int32, write cannot_convert opened)
    else (success, record w { key = c.shm_key })

attach : Answers → World → Outcome
unfolding write
attach c w =
    if is_success c.shm_attach
    then (success, record w { attached = w.attached + 1 })
    else (c.shm_attach, write (cannot_attach w.key c.shm_attach) w)

-- `allimGetSharedMemory`.
unfoldable pub get_shared_memory : Answers → World → Outcome
unfolding read_key attach
get_shared_memory c w =
    if w.key == 0
    then (let (rc, w') = read_key c w in if is_success rc then attach c w' else (rc, w'))
    else attach c w

-- `allimReleaseSharedMemory`.
unfoldable pub release_shared_memory : Answers → World → Outcome
release_shared_memory c w =
    if is_success c.shm_detach
    then (success, record w { attached = w.attached - 1 })
    else (c.shm_detach, w)

-- `allimIsProceeding`.
unfoldable pub is_proceeding : Answers → World → Bool × World
unfolding get_shared_memory release_shared_memory write
is_proceeding c w =
    let (rc, w') = get_shared_memory c w in
    if is_success rc then (true, (release_shared_memory c w').1) else (false, write not_running w')

-- What the work of a call gives: a code (`success`, or an error raised under the lock), the
-- outputs, and the world.
pub record Reply {ℓ} (A : Type ℓ) : Type ℓ where
  pub result : Rc
  pub out : A
  pub world : World

abbrev pub set_lock : Bool → World → World
set_lock b w = record w { point = record (w.point) { lock = b } }

-- The frame of the operations on the shared memory: attach it, take `mLock`, work, give the lock
-- back, detach. An error of the work is the result; the detach is tried all the same.
unfoldable pub locked_call {ℓ} :
    {A : Type ℓ} → Answers → A → (World → Reply A) → World → Rc × A × World
locked_call c before body w =
    let (rc, w') = get_shared_memory c w in
    let r = body (set_lock true w') in
    let (rc', w'') = release_shared_memory c (set_lock false r.world) in
    if is_failure rc
    then (rc, before, w')
    else if is_failure r.result
    then (r.result, r.out, w'')
    else (rc', r.out, w'')

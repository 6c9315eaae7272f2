-- ===== src/Allim/State.antt =====
-- src/allim/include/allimPoint.h: the record in shared memory, and what the library asks of the
-- platform layer acp, which is not part of the repository.
use natc.Base.{ℕ, ◌<◌, ◌≡◌, Bool, true, false, List, [], ◌∷◌, Bytes, length, codes}
use natc.Base.Int.{ℤ, pos}

-- `acp_rc_t`. The codes that the library tells apart, and the others by number.
pub data Rc : Type 0 where
  success enomem enospc : Rc
  failure : ℕ → Rc

abbrev pub is_success : Rc → Bool
is_success success = true
is_success enomem = false
is_success enospc = false
is_success (failure n) = false

-- ALLIM_LIMITPOINT_MAX_LENGTH and ALLIM_LIMITPOINT_MAX_THREADS.
abbrev pub max_length : ℕ
max_length = 64

abbrev pub max_threads : ℕ
max_threads = 256

-- ALLIM_LIMITPOINT_EVERY.
abbrev pub every : Bytes
every = codes "EVERYWHERE"

-- What was written to the log: one constructor for each message of the library.
pub data Event : Type 0 where
  cannot_open cannot_read : Rc → Event
  cannot_convert not_running : Event
  cannot_attach : ℕ → Rc → Event
  setting : Bytes → Bytes → ℕ → ℕ → Event
  clearing : Event
  passing : Bytes → Bytes → Event
  limit_hit : Bytes → Bytes → ℕ → Event
  activating : ℕ → Event
  callstack : Event
  logging_enabled logging_disabled : Event
  logging_as : ℕ → ℕ → ℕ → ℕ → ℕ → ℕ → Event
  memory_shall memory_been disk_shall desc_shall desc_been : ℤ → Event

-- `allimPoint`. A 32-bit number is kept as its bit pattern; the two tables are read by index.
pub record Point : Type 0 where
  pub file : Bytes
  pub id : Bytes
  pub err_no : ℕ
  pub count : ℕ
  pub hit_counts : ℕ → ℕ
  pub memory : ℤ
  pub disk : ℤ
  pub desc : ℤ
  pub dest_memory : ℤ
  pub dest_path : Bytes
  pub dest_disk : ℤ
  pub dest_desc : ℤ
  pub log : ℕ
  pub log_pass : ℕ
  pub log_hit : ℕ
  pub log_limit : ℕ
  pub log_stack : ℕ
  pub log_set : ℕ
  pub log_real : ℕ
  pub lock : Bool
  pub thread_ids : ℕ → ℕ

-- The shared memory and what one process keeps beside it: `gKey`, how often it has the shared
-- memory attached, how many files it has open, the sizes of the memory chunks that it wastes (the
-- latest last), how many sockets it wastes, and what it wrote to the log (the latest first).
pub record World : Type 0 where
  pub point : Point
  pub key : ℕ
  pub attached : ℕ
  pub open_files : ℕ
  pub chunks : List ℕ
  pub socks : ℕ
  pub trace : List Event

-- What the platform layer answers while one call runs: the environment, the key file, the two
-- calls on the shared memory, and the thread's own number.
pub record Answers : Type 0 where
  pub env_get : Rc
  pub shm_log_open : Rc
  pub shm_log_read : Rc
  pub to_int32 : Rc
  pub shm_key : ℕ
  pub shm_attach : Rc
  pub shm_detach : Rc
  pub self : ℕ

-- The string functions of acp: `acpCStrCpy` (what the target holds afterwards), `acpCStrCmp`,
-- `acpCStrLen`, and ACP_PATH_MAX_LENGTH.
pub record Acp : Type 0 where
  pub path_max : ℕ
  pub c_str_cpy : ℕ → Bytes → Bytes
  pub c_str_cmp : Bytes → Bytes → ℕ → ℕ
  pub c_str_len : Bytes → ℕ → ℕ

-- Their documented behaviour, as far as the theorems need it.
pub record AcpLaws (acp : Acp) : Type 0 where
  pub cpy_fits : (n : ℕ) (s : Bytes) → length s < n → acp.c_str_cpy n s ≡ s
  pub len_pos : (s : Bytes) (n : ℕ) → 0 < n → 0 < length s → 0 < acp.c_str_len s n

-- `allimLogWrite` as the callers see it, who ignore its result: one more event.
unfoldable pub write : Event → World → World
write e w = record w { trace = e ∷ w.trace }

-- `allimCreate` clears the shared memory and sets the switches of the log.
unfoldable pub init : Point
init = record {
  file = [];
  id = [];
  err_no = 0;
  count = 0;
  hit_counts = λ i. 0;
  memory = pos 0;
  disk = pos 0;
  desc = pos 0;
  dest_memory = pos 0;
  dest_path = [];
  dest_disk = pos 0;
  dest_desc = pos 0;
  log = 1;
  log_pass = 0;
  log_hit = 1;
  log_limit = 1;
  log_stack = 1;
  log_set = 1;
  log_real = 1;
  lock = false;
  thread_ids = λ i. 0;
}

-- ===== src/Allim/Logging.antt =====
-- src/allim/lib/allib.c: the switches of the log, `allimEnableLogging`, `allimSetLogging` and
-- `allimGetLogging`, and the test that stands before every optional message.
use natc.Base.{ℕ, Bool, ◌&&◌, not, ◌==◌, if◌then◌else◌, Option, none, some}
use natc.Allim.State.{
  Rc, success, Event, logging_enabled, logging_disabled, logging_as, World, Answers, write,
}
use natc.Allim.Shared.{Reply, locked_call}

-- `(0 != sPoint->mLog) && (0 != sPoint->mLogXxx)`.
abbrev pub is_logging : ℕ → ℕ → Bool
is_logging log kind = not (log == 0) && not (kind == 0)

-- The message, if its switch and the main switch are on.
unfoldable pub write_if : Bool → Event → World → World
unfolding write
write_if b e w = if b then write e w else w

-- `allimEnableLogging`: the message is written in either case.
unfoldable pub enable_body : ℕ → World → Reply (Unit {0})
unfolding write
enable_body log w =
    let w' = record w { point = record (w.point) { log = log } } in
    record {
      result = success;
      out = tt;
      world = if not (log == 0) then write logging_enabled w' else write logging_disabled w';
    }

unfoldable pub enable_logging : Answers → ℕ → World → Rc × Unit {0} × World
enable_logging c log = locked_call c tt (enable_body log)

-- The six switches that `allimSetLogging` sets and the seven that `allimGetLogging` reads.
pub record Switches : Type 0 where
  pub pass : ℕ
  pub hit : ℕ
  pub limit : ℕ
  pub stack : ℕ
  pub set : ℕ
  pub real : ℕ

unfoldable pub set_body : Switches → World → Reply (Unit {0})
unfolding write_if
set_body s w =
    let p = record (w.point) {
      log_pass = s.pass;
      log_hit = s.hit;
      log_limit = s.limit;
      log_stack = s.stack;
      log_set = s.set;
      log_real = s.real;
    } in
    let message = logging_as s.pass s.hit s.limit s.stack s.set s.real in
    record {
      result = success;
      out = tt;
      world = write_if (not (w.point.log == 0)) message (record w { point = p });
    }

unfoldable pub set_logging : Answers → Switches → World → Rc × Unit {0} × World
set_logging c s = locked_call c tt (set_body s)

unfoldable pub get_body : World → Reply (Option (ℕ × Switches))
get_body w = record { result = success; out = some (p.log, switches); world = w }
  where
    open w use {point as p}

    switches : Switches
    switches = record {
      pass = p.log_pass;
      hit = p.log_hit;
      limit = p.log_limit;
      stack = p.log_stack;
      set = p.log_set;
      real = p.log_real;
    }

-- `none`: the outputs are untouched, as the shared memory could not be attached.
unfoldable pub get_logging : Answers → World → Rc × Option (ℕ × Switches) × World
get_logging c = locked_call c none get_body

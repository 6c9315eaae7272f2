-- ===== src/Allim/Limits.antt =====
-- src/allim/lib/allib.c: the real limits, `allimSetMemoryWaste` to `allimDesc`.
use natc.Base.{ℕ, Bool, ◌||◌, if◌then◌else◌, List, Option, none, some, Bytes}
use natc.Base.Int.{ℤ, ltb_ℤ}
use natc.Allim.State.{
  Rc, success, Event, memory_shall, memory_been, disk_shall, desc_shall, World, Answers, Acp,
}
use natc.Allim.Shared.{Reply, locked_call}
use natc.Allim.Logging.{is_logging, write_if}
use natc.Allim.Waste.{Allocations, waste_memory, free_memory, freed, null_deref}

abbrev pub reply {ℓ} : {A : Type ℓ} → A → World → Reply A
reply a w = record { result = success; out = a; world = w }

abbrev real_log : Event → World → World
real_log e w = write_if (is_logging w.point.log w.point.log_real) e w

-- `a != b`.
abbrev pub ne_ℤ : ℤ → ℤ → Bool
ne_ℤ a b = ltb_ℤ a b || ltb_ℤ b a

-- `allimSetMemoryWaste`.
unfoldable pub set_memory : ℤ → World → Reply (Unit {0})
unfolding write_if
set_memory dest w =
    reply tt
      (real_log (memory_shall dest) (record w { point = record (w.point) { dest_memory = dest } }))

unfoldable pub set_memory_waste : Answers → ℤ → World → Rc × Unit {0} × World
set_memory_waste c dest = locked_call c tt (set_memory dest)

-- `allimGetMemoryWaste`: what is asked for and what is wasted.
unfoldable pub get_memory_waste : Answers → World → Rc × Option (ℤ × ℤ) × World
get_memory_waste c = locked_call c none (λ w. reply (some (w.point.dest_memory, w.point.memory)) w)

-- How the work of `allimMemory` and of `allimDesc` ends: it returns, it reads through a null
-- pointer or beyond an array, or the model's fuel is used up.
pub data Ended : Type 0 where
  ended fault out_of_fuel : Ended

-- A call of one of the two as its caller sees it: a fault ends the process inside the call.
pub data Run : Type 0 where
  returned : Rc → World → Run
  faulted : Run
  no_fuel : Run

abbrev pub run_of : Rc × Ended × World → Run
run_of (rc, ended, w) = returned rc w
run_of (rc, fault, w) = faulted
run_of (rc, out_of_fuel, w) = no_fuel

unfoldable pub wasted : List ℕ → ℤ → World → Reply Ended
unfolding write_if
wasted chunks dest w = reply ended (
    real_log (memory_been dest) (record w {
      point = record (w.point) { memory = dest; dest_memory = dest };
      chunks = chunks;
    }))

-- The work of `allimMemory` under the lock.
unfoldable pub memory_body : Allocations → World → Reply Ended
unfolding wasted
memory_body alloc w =
    let dest = w.point.dest_memory in
    let current = w.point.memory in
    let wasting : Reply Ended = elim (waste_memory alloc w.chunks current dest) [
      | none ↦ reply out_of_fuel w
      | some (chunks, after) ↦ wasted chunks after w
    ] in
    let freeing : Reply Ended = elim (free_memory w.chunks current dest) [
      | null_deref ↦ reply fault w
      | freed chunks after ↦ wasted chunks after w
    ] in
    if ne_ℤ dest current then if ltb_ℤ current dest then wasting else freeing else reply ended w

-- `allimMemory`.
unfoldable pub memory : Allocations → Answers → World → Run
memory alloc c w = run_of (locked_call c ended (memory_body alloc) w)

-- `allimSetDiskWaste`.
unfoldable pub set_disk : Acp → Bytes → ℤ → World → Reply (Unit {0})
unfolding write_if
set_disk acp path dest w = reply tt (
    real_log (disk_shall dest) (record w {
      point = record (w.point) {
        dest_disk = dest;
        disk = dest;
        dest_path = acp.c_str_cpy acp.path_max path;
      };
    }))

unfoldable pub set_disk_waste : Acp → Answers → Bytes → ℤ → World → Rc × Unit {0} × World
set_disk_waste acp c path dest = locked_call c tt (set_disk acp path dest)

-- `allimGetDiskWaste`: the path, what is asked for and what is wasted.
unfoldable pub get_disk_waste : Acp → Answers → World → Rc × Option (Bytes × ℤ × ℤ) × World
get_disk_waste acp c = locked_call c none (λ w.
    let p = w.point in reply (some (acp.c_str_cpy acp.path_max p.dest_path, p.dest_disk, p.disk)) w)

-- `allimDisk`, whose body is commented out.
unfoldable pub disk : World → Rc × World
disk w = (success, w)

-- `allimSetDescWaste`.
unfoldable pub set_desc : ℤ → World → Reply (Unit {0})
unfolding write_if
set_desc dest w =
    reply tt
      (real_log (desc_shall dest) (record w { point = record (w.point) { dest_desc = dest } }))

unfoldable pub set_desc_waste : Answers → ℤ → World → Rc × Unit {0} × World
set_desc_waste c dest = locked_call c tt (set_desc dest)

-- `allimGetDescWaste`.
unfoldable pub get_desc_waste : Answers → World → Rc × Option (ℤ × ℤ) × World
get_desc_waste c = locked_call c none (λ w. reply (some (w.point.dest_desc, w.point.desc)) w)

-- ===== src/Allim/Sockets.antt =====
-- src/allim/lib/allib.c: `allimDesc`, which opens or closes sockets until the wanted number is
-- wasted. It keeps them in an array of ALLIM_DESCMAX entries and does not test the index.
use natc.Base.{ℕ, zero, suc, ◌+◌, ◌-◌, Bool, ◌&&◌, not, if◌then◌else◌}
use natc.Base.Int.{ℤ, pos, ◌+ℤ◌, ◌-ℤ◌, ltb_ℤ, gap}
use natc.Allim.State.{Rc, success, is_success, desc_been, World, Answers}
use natc.Allim.Shared.{Reply, locked_call}
use natc.Allim.Logging.{is_logging, write_if}
use natc.Allim.Limits.{Ended, ended, fault, out_of_fuel, ne_ℤ, Run, run_of}

-- ALLIM_DESCMAX.
abbrev pub desc_max : ℤ
desc_max = pos 65536

-- What `acpSockOpen` answers at each attempt.
abbrev pub Openings : Type 0
Openings = ℕ → Rc

-- How a loop ends, the sockets open in the process, and the number counted.
pub record Count : Type 0 where
  pub how : Ended
  pub socks : ℕ
  pub current : ℤ

abbrev pub in_array : ℤ → Bool
in_array i = not (ltb_ℤ i (pos 0)) && ltb_ℤ i desc_max

-- `while(sDest > sCurrent)`, attempt `n`. An entry outside the array is a fault.
unfoldable pub open_loop : Openings → ℕ → ℕ → ℕ → ℤ → ℤ → Count
open_loop opens zero n socks current dest = record {
  how = out_of_fuel;
  socks = socks;
  current = current;
}
open_loop opens (suc fuel) n socks current dest =
    let rest = open_loop opens fuel (n + 1) (socks + 1) (current +ℤ pos 1) dest in
    if ltb_ℤ current dest
    then (if in_array current
        then if is_success (opens n)
          then rest
          else record { how = ended; socks = socks; current = current }
        else record { how = fault; socks = socks; current = current })
    else record { how = ended; socks = socks; current = current }

-- `while(sDest < sCurrent)`.
unfoldable pub close_loop : ℕ → ℕ → ℤ → ℤ → Count
close_loop zero socks current dest = record { how = out_of_fuel; socks = socks; current = current }
close_loop (suc fuel) socks current dest =
    let rest = close_loop fuel (socks - 1) (current -ℤ pos 1) dest in
    if ltb_ℤ dest current
    then (if in_array (current -ℤ pos 1)
        then rest
        else record { how = fault; socks = socks; current = current })
    else record { how = ended; socks = socks; current = current }

-- The work of `allimDesc` under the lock, with fuel for every round of its loop.
unfoldable pub desc_body : Openings → World → Reply Ended
unfolding write_if
desc_body opens w =
    let p = w.point in
    let r =
      if ltb_ℤ p.desc p.dest_desc
      then open_loop opens (gap p.dest_desc p.desc + 1) 0 w.socks p.desc p.dest_desc
      else close_loop (gap p.desc p.dest_desc + 1) w.socks p.desc p.dest_desc in
    let w' =
      write_if (is_logging p.log p.log_real) (desc_been r.current) (record w { socks = r.socks }) in
    if ne_ℤ p.dest_desc p.desc
    then record {
      result = success;
      out = r.how;
      world = record w' { point = record (w'.point) { desc = r.current } };
    }
    else record { result = success; out = ended; world = w }

-- `allimDesc`.
unfoldable pub desc : Openings → Answers → World → Run
desc opens c w = run_of (locked_call c ended (desc_body opens) w)

-- ===== src/Agent/RecoveryTests.antt =====
-- Concrete lists of recovery points.
use natc.Base.{
  ◌++◌, ℕ, ◌≡◌, refl, true, false, List, [], ◌∷◌, Option, some, Bytes, codes, arith, ◌>>=◌,
}
use natc.Agent.Maps.{Map, find}
use natc.Agent.RecoveryFile.{
  RecPoint, ScanBuffers, load_points, fgets_lines, load_point_lines, scan_point, add_point,
  get_last_line,
}
use natc.Agent.RecoveryLines.{entries_text}
use natc.Agent.RecoveryScanning.{Entry}
use natc.Agent.RecoveryLoading.{first_entry, load_points-entries}

abbrev an_entry : Bytes → ℕ → Bytes → Entry
an_entry file number id = record { file = file; number = number; id = id }

-- The id of the first entry is given again.
abbrev three_entries : List Entry
three_entries =
    an_entry (codes "smx.cpp") 120 (codes "P1")
    ∷ an_entry (codes "rpc.cpp") 7 (codes "P2")
    ∷ an_entry (codes "qcm.cpp") 33 (codes "P1")
    ∷ []

abbrev left_over : ScanBuffers
left_over = record { file_name = codes "?"; line = 0; point_id = codes "?" }

load_points-entries_example :
    (m : Map RecPoint) × ((load_points (λ w. w) (some (entries_text three_entries)) left_over []
        ≡ some (m, true))
      × ((id : Bytes) → find id m ≡ first_entry id three_entries))
load_points-entries_example =
    load_points-entries (λ w. w) three_entries left_over (λ w h. refl)
      (
        record {
          file_word = record {
            no_zero = (
              omega arith,
              (
                omega arith,
                (omega arith, (omega arith, (omega arith, (omega arith, (omega arith, tt))))),
              ),
            );
            solid = (refl, (refl, (refl, (refl, (refl, (refl, (refl, tt)))))));
            some_byte = refl;
            short = omega arith;
          };
          id_word = record {
            solid = (refl, (refl, tt));
            no_zero = (omega arith, (omega arith, tt));
            some_byte = refl;
            short = omega arith;
          };
          in_int = omega arith;
          fits_line = omega arith;
        },
        (
          record {
            file_word = record {
              no_zero = (
                omega arith,
                (
                  omega arith,
                  (omega arith, (omega arith, (omega arith, (omega arith, (omega arith, tt))))),
                ),
              );
              solid = (refl, (refl, (refl, (refl, (refl, (refl, (refl, tt)))))));
              some_byte = refl;
              short = omega arith;
            };
            id_word = record {
              solid = (refl, (refl, tt));
              no_zero = (omega arith, (omega arith, tt));
              some_byte = refl;
              short = omega arith;
            };
            in_int = omega arith;
            fits_line = omega arith;
          },
          (
            record {
              file_word = record {
                no_zero = (
                  omega arith,
                  (
                    omega arith,
                    (omega arith, (omega arith, (omega arith, (omega arith, (omega arith, tt))))),
                  ),
                );
                solid = (refl, (refl, (refl, (refl, (refl, (refl, (refl, tt)))))));
                some_byte = refl;
                short = omega arith;
              };
              id_word = record {
                solid = (refl, (refl, tt));
                no_zero = (omega arith, (omega arith, tt));
                some_byte = refl;
                short = omega arith;
              };
              in_int = omega arith;
              fits_line = omega arith;
            },
            tt,
          ),
        ),
      )

abbrev found : Bytes → Bytes → Option (Bytes × ℕ)
found id bytes = load_points (λ w. w) (some bytes) left_over [] >>= λ r.
    find id r.0 >>= λ p. some (p.filename, p.line_number)

-- A first line without an id is stored under what the buffer held.
id_left_over : found (codes "?") (codes "smx.cpp 120") ≡ some (codes "smx.cpp", 120)
unfolding load_points fgets_lines load_point_lines scan_point add_point
id_left_over = refl

-- A later one has the id of the line before, and is dropped.
id_of_line_before :
    found (codes "P1") (codes "smx.cpp 120 P1" ++ (10 ∷ codes "rpc.cpp 7"))
    ≡ some (codes "smx.cpp", 120)
unfolding load_points fgets_lines load_point_lines scan_point add_point
id_of_line_before = refl

-- A log that is empty gives the last line of the call before.
old_line :
    get_last_line (some []) (record { last_line = codes "started"; locked = false })
    ≡ (some (codes "started"), record { last_line = codes "started"; locked = false })
unfolding get_last_line fgets_lines
old_line = refl

-- ===== src/Loader/WholeTests.antt =====
-- A concrete data file that is printed and loaded.
use natc.Base.{
  ℕ, ◌≡◌, refl, true, false, List, [], ◌∷◌, Option, none, some, Bytes, codes, arith, map, ◌++◌,
  ◌>>=◌,
}
use natc.Base.Int.{pos}
use natc.Loader.Source.{get_char, read_char}
use natc.Loader.Token.{
  teof, DataFile, get_token, scan, read_token, one_char, advance, last_hit, enclose,
}
use natc.Loader.Unread.{is_solid-HasNoReturn}
use natc.Loader.Split.{IsPlain}
use natc.Loader.Record.{
  Column, varchar, integer, Table, print_one_record, read_one_record, read_attrs, check_end,
  set_attr,
}
use natc.Loader.Reading.{plain_flags}
use natc.Loader.RoundTrip.{AreFields}
use natc.Loader.Batches.{
  Options, Database, done, LoadState, load_all, load_count, load_rows, load_round, end_round,
  execute_round, after_execution, commit_round, finish_load,
}
use natc.Loader.Whole.{print_records, Cells, read_rows, load_data_file}
use natc.Loader.WholeRead.{cells_of, IsRecord, load_data_file-print_records}

abbrev line_end : Bytes
line_end = 10 ∷ []

abbrev record_of : Bytes → Bytes → List Column
record_of id name =
    record { type = integer; value = id } ∷ record { type = varchar; value = name } ∷ []

abbrev three_records : List (List Column)
three_records =
    record_of (codes "1") (codes "ab")
    ∷ record_of (codes "2") []
    ∷ record_of (codes "3") (codes "c")
    ∷ []

abbrev file_of : Bytes → DataFile
file_of bytes = record {
  source = record { buffer = []; pos = 0; rest = bytes };
  field_term = codes ",";
  row_term = line_end;
  enclosing = [];
  ft_len = 1;
  rt_len = 1;
  en_len = 0;
  set_enclosing = false;
  set_next_token = false;
  next_token = teof;
  token_value = [];
}

abbrev three_lines : DataFile
three_lines = file_of (codes "1,ab" ++ (10 ∷ codes "2," ++ (10 ∷ codes "3,c" ++ line_end)))

three_lines-IsPlain : IsPlain three_lines
three_lines-IsPlain = record {
  valid = omega arith;
  ft_counted = refl;
  rt_counted = refl;
  ft_pos = omega arith;
  rt_pos = omega arith;
  ft_ascii = (omega arith, tt);
  rt_ascii = (omega arith, tt);
  no_enclosing = refl;
}

-- What the rows of the array held before.
abbrev used_rows : ℕ → Table
used_rows k = record {
  is_timestamp = false ∷ false ∷ [];
  is_wide = λ _. false;
  cells = λ _. none;
  read_count = k;
}

abbrev obliging : Database
obliging = record { execute = λ _. done; commit = λ _. true }

abbrev by_two : Options
by_two = record { array_count = 2; first_row = none; last_row = none; commit_unit = 1 }

abbrev a_record :
    (id name : Bytes)
    → AreFields (codes ",") line_end (record_of id name)
    → IsRecord three_lines 2 (record_of id name)
a_record id name h = record { fields = h; counted = refl }

load_data_file-print_records_example :
    (s : LoadState Cells) × ((load_data_file 4 plain_flags used_rows three_lines by_two obliging
        ≡ some s)
      × ((s.sent ≡ map (λ cols. some (cells_of cols)) three_records) × (load_count s ≡ pos 3)))
unfolding print_one_record
load_data_file-print_records_example =
    load_data_file-print_records three_lines three_lines 2 used_rows three_records by_two obliging
      three_lines-IsPlain (refl, (refl, three_lines-IsPlain)) refl refl
      (is_solid-HasNoReturn (print_records false three_lines three_records) refl)
      (
        a_record (codes "1") (codes "ab") (
          record { clear = refl; short = omega arith; narrow = omega arith; kind = refl },
          record { clear = refl; short = omega arith; narrow = omega arith; kind = (refl, refl) },
        ),
        (
          a_record (codes "2") [] (
            record { clear = refl; short = omega arith; narrow = omega arith; kind = refl },
            record { clear = refl; short = omega arith; narrow = omega arith; kind = (refl, refl) },
          ),
          (
            a_record (codes "3") (codes "c") (
              record { clear = refl; short = omega arith; narrow = omega arith; kind = refl },
              record {
                clear = refl;
                short = omega arith;
                narrow = omega arith;
                kind = (refl, refl);
              },
            ),
            tt,
          ),
        ),
      )
      (omega arith) (λ _. refl) (record { executes = λ _. refl; commits = λ _. refl }) refl refl
      (omega arith)

-- A record that ends too early is an error; the ones around it are loaded.
abbrev short_line : DataFile
short_line = file_of (codes "1,ab" ++ (10 ∷ codes "2" ++ (10 ∷ codes "3,c" ++ line_end)))

abbrev loaded : Option (LoadState Cells) → Option (List (Option Cells))
loaded o = o >>= λ s. some s.sent

short_line_left_out :
    loaded (load_data_file 5 plain_flags used_rows short_line by_two obliging)
    ≡ some (
        some (cells_of (record_of (codes "1") (codes "ab")))
        ∷ some (cells_of (record_of (codes "3") (codes "c")))
        ∷ [])
unfolding load_data_file load_all load_rows load_round end_round execute_round after_execution
    commit_round finish_load read_rows read_one_record read_attrs check_end set_attr get_token
    read_token scan one_char advance last_hit enclose read_char get_char
short_line_left_out = refl

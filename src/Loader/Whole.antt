-- ===== src/Loader/Whole.antt =====
-- src/ploader/src/iloDownLoad.cpp and src/ploader/src/iloLoad.cpp: a whole data file is printed, and read and
-- loaded.
use natc.Base.{ℕ, zero, suc, Bool, List, [], ◌∷◌, ◌++◌, Option, none, some, Bytes, ◌>>=◌}
use natc.Loader.Token.{DataFile}
use natc.Loader.Record.{
  Column, print_one_record, Cell, Table, attr_count, Flags, error, success, end_of_file,
  read_one_record,
}
use natc.Loader.Batches.{Options, Database, ReadRow, row, bad, LoadState, load_all}

-- The records that are fetched, printed one behind the other.
abbrev pub print_records : Bool → DataFile → List (List Column) → Bytes
print_records informix f [] = []
print_records informix f (cols ∷ records) =
    print_one_record informix f cols ++ print_records informix f records

-- The attributes of a record that was read: `n` of them from the one at `i` on.
abbrev pub cells_from : (ℕ → Option Cell) → ℕ → ℕ → List (Option Cell)
cells_from cells i zero = []
cells_from cells i (suc n) = cells i ∷ cells_from cells (suc i) n

abbrev pub Cells : Type 0
Cells = List (Option Cell)

-- What the calls of `ReadOneRecord` read up to the end of the file, where the call at `ix` finds the row
-- `rows ix` of the array. The fuel is the number of calls.
unfoldable pub read_rows : ℕ → Flags → (ℕ → Table) → ℕ → DataFile → Option (List (ReadRow Cells))
read_rows zero flags rows ix f = none
read_rows (suc fuel) flags rows ix f = do
  (reply, (t, f')) ← read_one_record flags f (rows ix)
  elim reply [
    | end_of_file ↦ some []
    | error ↦ do reads ← read_rows fuel flags rows (suc ix) f'; some (bad ∷ reads)
    | success ↦ do
      reads ← read_rows fuel flags rows (suc ix) f'
      some (row (cells_from t.cells 0 (attr_count t)) ∷ reads)
  ]

-- The loop of `LoadwithPrepare` over the records of the file.
unfoldable pub load_data_file :
    ℕ → Flags → (ℕ → Table) → DataFile → Options → Database → Option (LoadState Cells)
load_data_file fuel flags rows f o db = do
  reads ← read_rows fuel flags rows 1 f
  some (load_all o db reads)

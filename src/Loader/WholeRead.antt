-- ===== src/Loader/WholeRead.antt =====
-- src/ploader/src/iloDownLoad.cpp and src/ploader/src/iloLoad.cpp: the records of a printed file are read and
-- loaded.
use natc.Base.{
  length-map, ℕ, suc, ◌+◌, ◌<◌, ◌≡◌, refl, ap, sym, ◌∙◌, subst, false, List, [], ◌∷◌, ◌++◌, Option,
  none, some, Bytes, length, arith, get_elem?, map, All, ◌>>=◌, lt→ltb,
}
use natc.Base.Int.{pos}
use natc.Loader.Unread.{unread, dos, HasNoReturn, dos-same}
use natc.Loader.Token.{Token, DataFile}
use natc.Loader.Split.{text_left, IsPlain, pending, Keeps}
use natc.Loader.Splitting.{PieceOf, get_token-Piece}
use natc.Loader.Record.{
  Column, column_text, print_one_record, Cell, Table, attr_count, set_read_count, end_of_file,
  with_token, read_attrs, read_one_record,
}
use natc.Loader.Storing.{len_of}
use natc.Loader.Reading.{plain_flags, pass_none, with_token_lem}
use natc.Loader.RoundTrip.{AreFields, Read, text_left-Read}
use natc.Loader.Batches.{Options, Database, ReadRow, row, LoadState, load_all, load_count}
use natc.Loader.Batch.{good_rows, IsObliging}
use natc.Loader.Batching.{load_all-sent}
use natc.Loader.Whole.{print_records, cells_from, Cells, read_rows, load_data_file}

-- What an attribute holds when a value was read, and what a row of the array holds for a record.
abbrev pub cell_of : Bytes → Cell
cell_of v = record { value = v; len = len_of v }

abbrev pub cells_of : List Column → Cells
cells_of cols = map (λ c. some (cell_of (column_text c))) cols

abbrev read_back : List Column → ReadRow Cells
read_back cols = row (cells_of cols)

cells_from-cells_of :
    (cols : List Column) (cells : ℕ → Option Cell) (i : ℕ)
    → ((k : ℕ) (v : Bytes)
        → get_elem? (map column_text cols) k ≡ some v
        → cells (i + k) ≡ some (cell_of v))
    → cells_from cells i (length (map column_text cols)) ≡ cells_of cols
cells_from-cells_of [] cells i h = refl
cells_from-cells_of (c ∷ cols) cells i h =
    let here : i + 0 ≡ i = omega arith in
    let first = ap cells (sym here) ∙ h 0 (column_text c) refl in
    let next : (k : ℕ) → suc i + k ≡ i + suc k = λ k. omega arith in
    ap (λ x. x ∷ cells_from cells (suc i) (length (map column_text cols))) first
    ∙ ap (λ (xs : Cells). some (cell_of (column_text c)) ∷ xs)
        (cells_from-cells_of cols cells (suc i) (λ k v e. ap cells (next k) ∙ h (suc k) v e))

-- At the end of the file.
read_one_record-end :
    (f : DataFile) (tab : Table)
    → IsPlain f
    → pending f ≡ none
    → text_left f ≡ []
    → 0 < attr_count tab
    → (g : DataFile) × (read_one_record plain_flags f tab
        ≡ some (end_of_file, (set_read_count 0 tab, g)))
unfolding read_one_record read_attrs
read_one_record-end f tab p none_left e l =
    let (r, (got, piece)) = get_token-Piece f p none_left in
    let ((tok, _), _) = subst (λ text. PieceOf f text r) e piece in
    let next = λ (token : Token) (g : DataFile).
      read_attrs (suc (attr_count tab)) plain_flags 0 token g tab in
    let first_round = λ (i : ℕ).
      with_token f (λ token g. read_attrs (suc (attr_count tab)) plain_flags i token g tab) in
    (
      r.1,
      ap first_round (pass_none tab 0 0)
          ∙ with_token_lem f next r.0 r.1 got
          ∙ ap (λ token. next token r.1) tok
          ∙ rw (lt→ltb _ _ l) refl,
    )

-- One call, where it succeeds.
abbrev with_read : Option (List (ReadRow Cells)) → Cells → Option (List (ReadRow Cells))
with_read rest cells = rest >>= λ reads. some (row cells ∷ reads)

read_rows-step :
    (fuel : ℕ) (rows : ℕ → Table) (ix : ℕ) (f : DataFile) (cols : List Column) (after : Bytes)
    (w : DataFile)
    → (r : Read w (map column_text cols) after (read_one_record plain_flags f (rows ix)))
    → read_rows (suc fuel) plain_flags rows ix f
      ≡ with_read (read_rows fuel plain_flags rows (suc ix) r.file) (cells_of cols)
unfolding read_rows
read_rows-step fuel rows ix f cols after w r =
    let rest = read_rows fuel plain_flags rows (suc ix) r.file in
    let held : (k : ℕ) (v : Bytes)
        → get_elem? (map column_text cols) k ≡ some v
        → r.table.cells (0 + k) ≡ some (cell_of v) =
      λ k v e. let place : 0 + k ≡ k = omega arith in ap r.table.cells place ∙ r.values k v e in
    rw r.answered (
      ap (λ n. with_read rest (cells_from r.table.cells 0 n)) r.width
      ∙ ap (with_read rest) (cells_from-cells_of cols r.table.cells 0 held))

read_rows-end :
    (fuel : ℕ) (rows : ℕ → Table) (ix : ℕ) (f : DataFile)
    → IsPlain f
    → pending f ≡ none
    → text_left f ≡ []
    → 0 < attr_count (rows ix)
    → read_rows (suc fuel) plain_flags rows ix f ≡ some []
unfolding read_rows
read_rows-end fuel rows ix f p none_left e l =
    let (g, ends) = read_one_record-end f (rows ix) p none_left e l in rw ends refl

-- A record of the table: no terminator ends inside a field, and there is a column for each attribute.
pub record IsRecord (w : DataFile) (n : ℕ) (cols : List Column) : Type 0 where
  pub fields : AreFields w.field_term w.row_term cols
  pub counted : n ≡ length cols

read_one_record-Read :
    (w f : DataFile) (n : ℕ) (tab : Table) (cols : List Column) (after : Bytes)
    → IsPlain w
    → Keeps w f
    → pending f ≡ none
    → text_left f ≡ print_one_record false w cols ++ after
    → IsRecord w n cols
    → 0 < n
    → attr_count tab ≡ n
    → Read w (map column_text cols) after (read_one_record plain_flags f tab)
read_one_record-Read w f n tab [] after p k none_left e h l count =
    absurd (omega (arith, l, h.counted))
read_one_record-Read w f n tab (c ∷ cols) after p k none_left e h l count =
    text_left-Read w f tab c cols after p k none_left e h.fields (count ∙ h.counted)

pub read_rows-print_records :
    (w f : DataFile) (n : ℕ) (rows : ℕ → Table) (ix : ℕ) (records : List (List Column))
    → IsPlain w
    → Keeps w f
    → pending f ≡ none
    → text_left f ≡ print_records false w records
    → All (IsRecord w n) records
    → 0 < n
    → ((k : ℕ) → attr_count (rows k) ≡ n)
    → read_rows (suc (length records)) plain_flags rows ix f ≡ some (map read_back records)
read_rows-print_records w f n rows ix [] p k none_left e h l count =
    read_rows-end 0 rows ix f ((k.1).1) none_left e (omega (arith, l, count ix))
read_rows-print_records w f n rows ix (cols ∷ records) p k none_left e h l count =
    let r =
      read_one_record-Read w f n (rows ix) cols (print_records false w records) p k none_left e h.0
        l (count ix) in
    read_rows-step (suc (length records)) rows ix f cols (print_records false w records) w r
    ∙ ap (λ rest. with_read rest (cells_of cols))
        (read_rows-print_records w r.file n rows (suc ix) records p r.keeps r.none_left r.behind h.1
          l count)

good_rows-read_back :
    (ix : ℕ) (records : List (List Column))
    → good_rows none ix (map read_back records) ≡ map (λ cols. some (cells_of cols)) records
good_rows-read_back ix [] = refl
good_rows-read_back ix (cols ∷ records) =
    ap (λ (xs : List (Option Cells)). some (cells_of cols) ∷ xs)
      (good_rows-read_back (suc ix) records)

-- A file that holds what a writer with the same terminators has printed, record by record, of ASCII
-- terminators, without an enclosing string and without a carriage return; no terminator ends inside a
-- field, each field is shorter than 32768 bytes, and each record has a column, at least one, for each
-- attribute of the table, whatever the rows of the array held. The
-- database does what it is asked, and no first and no last record is given. Then the loop ends at the end
-- of the file, whatever the size of the array and the commit unit are; the records are given to the
-- database once each and in their order, each attribute with its column's value, and the count that is
-- printed is the number of the records.
pub load_data_file-print_records :
    (w f : DataFile) (n : ℕ) (rows : ℕ → Table) (records : List (List Column)) (o : Options)
    (db : Database)
    → IsPlain w
    → Keeps w f
    → pending f ≡ none
    → unread f.source ≡ print_records false w records
    → HasNoReturn (print_records false w records)
    → All (IsRecord w n) records
    → 0 < n
    → ((k : ℕ) → attr_count (rows k) ≡ n)
    → IsObliging db
    → o.first_row ≡ none
    → o.last_row ≡ none
    → 0 < o.array_count
    → (s : LoadState Cells) × ((load_data_file (suc (length records)) plain_flags rows f o db
          ≡ some s)
        × ((s.sent ≡ map (λ cols. some (cells_of cols)) records)
            × (load_count s ≡ pos (length records))))
unfolding load_data_file
load_data_file-print_records w f n rows records o db p k none_left e solid h l count obliging
      no_first no_last some_room =
    let reads = map read_back records in
    let read =
      read_rows-print_records w f n rows 1 records p k none_left (ap dos e ∙ dos-same _ solid) h l
        count in
    let (sent, counted) = load_all-sent o db reads obliging no_last some_room in
    let good = ap (λ first. good_rows first 1 reads) no_first ∙ good_rows-read_back 1 records in
    (
      load_all o db reads,
      (
        ap (λ (r : Option (List (ReadRow Cells))). r >>= λ reads. some (load_all o db reads)) read,
        (
          sent ∙ good,
          counted
              ∙ ap (λ (xs : List (Option Cells)). pos (length xs)) good
              ∙ ap pos (length-map (λ cols. some (cells_of cols)) records),
        ),
      ),
    )

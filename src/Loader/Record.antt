-- ===== src/Loader/Record.antt =====
-- src/ploader/src/iloDataFile.cpp and src/ploader/include/iloTableInfo.h: a record is printed
-- (`PrintOneRecord`) and read (`ReadOneRecord`) field by field.
use natc.Base.{
  ℕ, zero, suc, ◌+◌, ◌*◌, Bool, true, false, not, ◌==◌, ◌&&◌, if◌then◌else◌, ltb, List, [], ◌∷◌,
  ◌++◌, Option, none, some, Bytes, codes, length, get_elem?, update,
}
use natc.Loader.Token.{Token, teof, tfield_term, trow_term, tvalue, DataFile, get_token}

-- The column types that `PrintOneRecord` names, and any other.
pub data ColumnType : Type 0 where
  integer smallint bigint nibble bytes char varchar numeric decimal double float real : ColumnType
  isp_date sql_date binary unnamed : ColumnType

-- A column of the result, its value as a zero-terminated string.
pub record Column : Type 0 where
  pub type : ColumnType
  pub value : Bytes

abbrev pub column_text : Column → Bytes
column_text c = elim c.type [ unnamed ↦ codes "unknown type" | _ ↦ c.value ]

abbrev pub enclosing_text : DataFile → Bytes
enclosing_text f = if f.set_enclosing then f.enclosing else []

-- Behind a column; the flag `informix` is `gProgOption.mInformix`.
abbrev pub column_end : Bool → DataFile → List Column → Bytes
column_end informix f [] = (if informix then f.field_term else []) ++ f.row_term
column_end informix f (c ∷ cols) = f.field_term

-- `PrintOneRecord`: what is written to the file.
unfoldable pub print_one_record : Bool → DataFile → List Column → Bytes
print_one_record informix f [] = []
print_one_record informix f (c ∷ cols) =
    enclosing_text f
    ++ (column_text c
        ++ (enclosing_text f ++ (column_end informix f cols ++ print_one_record informix f cols)))

-- An attribute's length: `SQL_NTS` or `SQL_NULL_DATA`.
pub data Len : Type 0 where
  nts null_data : Len

pub record Cell : Type 0 where
  pub value : Bytes
  pub len : Len

-- A table's description with the row that is read: which attributes are timestamps, which are NIBBLE,
-- BYTES, TIMESTAMP or BLOB, the values and
-- lengths of the row, and its read count.
pub record Table : Type 0 where
  pub is_timestamp : List Bool
  pub is_wide : ℕ → Bool
  pub cells : ℕ → Option Cell
  pub read_count : ℕ

abbrev pub attr_count : Table → ℕ
attr_count t = length t.is_timestamp

-- MAX_VARCHAR_SIZE: the size of `C_Col`; that of `B_Val` is twice as much and one more.
abbrev pub column_size : ℕ
column_size = 32768

-- Does the text, with the zero behind it, fit into the attribute's column?
abbrev pub fits_column : Table → ℕ → Bytes → Bool
fits_column t i value =
    ltb (length value) (if t.is_wide i then column_size * 2 + 1 else column_size)

-- `SetAttrValue` and `SetAttrLen` of one attribute.
unfoldable pub set_attr : ℕ → Bytes → Len → Table → Table
set_attr i value len t =
    if ltb i (attr_count t)
    then record t { cells = update t.cells i (some (record { value = value; len = len })) }
    else t

abbrev pub set_read_count : ℕ → Table → Table
set_read_count n t = record t { read_count = n }

-- The global flags `gAddFlag` and `gProgOption.mInformix`.
pub record Flags : Type 0 where
  pub add : Bool
  pub informix : Bool

abbrev pub is_stamp : Table → ℕ → Bool
is_stamp t i = elim (get_elem? t.is_timestamp i) [ none ↦ false | some b ↦ b ]

-- An attribute is passed over where the one at `k` is a timestamp.
abbrev pub pass_stamp : Flags → Table → ℕ → ℕ → ℕ
pass_stamp flags t k i =
    if ltb (suc i) (attr_count t) && (is_stamp t k && flags.add) then suc i else i

-- 0, 1 and 2.
pub data ReadResult : Type 0 where
  error success end_of_file : ReadResult

abbrev pub Answer : Type 0
Answer = Option (ReadResult × (Table × DataFile))

-- `eToken = GetToken()`, and what follows.
abbrev pub with_token : DataFile → (Token → DataFile → Answer) → Answer
with_token f next = elim (get_token f) [ none ↦ none | some (token, f') ↦ next token f' ]

abbrev pub is_eof : Token → Bool
is_eof t = elim t [ teof ↦ true | _ ↦ false ]

abbrev pub is_field : Token → Bool
is_field t = elim t [ tfield_term ↦ true | _ ↦ false ]

abbrev pub is_row : Token → Bool
is_row t = elim t [ trow_term ↦ true | _ ↦ false ]

-- Leave with the read count of the attribute at `i`.
abbrev pub leave : ReadResult → ℕ → Table → DataFile → Answer
leave reply i t f = some (reply, (set_read_count i t, f))

-- To the next attribute: `round` is the loop from there.
abbrev pub advance_attr :
    Flags → (ℕ → Token → DataFile → Table → Answer) → ℕ → Token → DataFile → Table → Answer
advance_attr flags round i token f t =
    if ltb (suc i) (attr_count t)
    then with_token f (λ token' f'. round (suc (pass_stamp flags t i i)) token' f' t)
    else round (suc i) token f t

-- The tests behind a stored attribute, on the token that ends it.
unfoldable pub check_end :
    Flags → (ℕ → Token → DataFile → Table → Answer) → ℕ → Token → DataFile → Table → Answer
check_end flags round i token f t =
    let is_last = suc i == attr_count t in
    if is_last && is_eof token
    then leave success i t f
    else if flags.informix && (is_last && is_field token)
    then with_token f (λ token' f'.
      if is_eof token'
      then leave success i t f'
      else if not (is_row token')
      then leave error i t f'
      else advance_attr flags round i token' f' t)
    else if is_last && not (is_row token)
    then leave error i t f
    else if not is_last && not (is_field token)
    then leave error i t f
    else advance_attr flags round i token f t

-- The loop over the attributes, with fuel for the rounds; `none` stands also for a value that runs over
-- the end of its column.
unfoldable pub read_attrs : ℕ → Flags → ℕ → Token → DataFile → Table → Answer
read_attrs zero flags i token f t = none
read_attrs (suc fuel) flags i token f t =
    let round = read_attrs fuel flags in
    let null = check_end flags round i token f (set_attr i [] null_data t) in
    if ltb i (attr_count t)
    then elim token [
      | teof ↦ leave end_of_file i t f
      | tvalue ↦
          let t' = set_attr i f.token_value nts t in
          let stored =
            with_token f
              (λ token' f'. check_end flags round (pass_stamp flags t (suc i) i) token' f' t') in
          if fits_column t i f.token_value then stored else none
      | trow_term ↦ null
      | tfield_term ↦ null
    ]
    else leave success i t f

-- `ReadOneRecord`.
unfoldable pub read_one_record : Flags → DataFile → Table → Answer
read_one_record flags f t =
    with_token f
      (λ token f'. read_attrs (suc (attr_count t)) flags (pass_stamp flags t 0 0) token f' t)

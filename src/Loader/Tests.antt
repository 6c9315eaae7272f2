-- ===== src/Loader/Tests.antt =====
-- Concrete data files, and the theorems at inputs that meet their hypotheses.
use natc.Base.{
  ◌≡◌, refl, true, false, List, [], ◌∷◌, ◌++◌, Option, none, some, Bytes, codes, length, arith,
}
use natc.Loader.Source.{get_char}
use natc.Loader.Unread.{HasNoReturn, is_solid-HasNoReturn, unread, Reads, get_char-Reads}
use natc.Loader.Token.{
  Token, teof, DataFile, new_data_file, open_file, set_terminator, set_enclosing_with, get_token,
  scan, read_token, one_char, advance, last_hit, enclose,
}
use natc.Loader.Source.{read_char}
use natc.Loader.Split.{IsPlain, text_left}
use natc.Loader.Splitting.{PieceOf, get_token-Piece}
use natc.Loader.Bounds.{Returns, get_token-Returns}
use natc.Loader.Quotes.{IsQuoted}
use natc.Loader.Enclosed.{Value, get_token-Value}
use natc.Loader.Trim.{rtrim, trim_from}
use natc.Loader.Record.{
  Column, varchar, integer, Table, Flags, print_one_record, read_one_record, read_attrs, check_end,
  set_attr, fits_column, error, success, ReadResult, Cell, nts,
}
use natc.Loader.Reading.{plain_flags}
use natc.Loader.RoundTrip.{AreFields, Read, read_one_record-print_one_record}

-- An open file, its terminators and its bytes.
abbrev opened : Bytes → Bytes → Bytes → DataFile
opened ft rt bytes = record {
  source = record { buffer = []; pos = 0; rest = bytes };
  field_term = ft;
  row_term = rt;
  enclosing = [];
  ft_len = length ft;
  rt_len = length rt;
  en_len = 0;
  set_enclosing = false;
  set_next_token = false;
  next_token = teof;
  token_value = [];
}

abbrev bars : Bytes
bars = codes "|+|"

abbrev line_end : Bytes
line_end = 10 ∷ []

-- A beginning of the terminator before the terminator itself.
abbrev two_fields : DataFile
two_fields = opened bars line_end (codes "a|+|+|b")

two_fields-IsPlain : IsPlain two_fields
two_fields-IsPlain = record {
  valid = omega arith;
  ft_counted = refl;
  rt_counted = refl;
  ft_pos = omega arith;
  rt_pos = omega arith;
  ft_ascii = (omega arith, (omega arith, (omega arith, tt)));
  rt_ascii = (omega arith, tt);
  no_enclosing = refl;
}

get_char-Reads_example : Reads (unread two_fields.source) (get_char two_fields.source)
get_char-Reads_example = get_char-Reads two_fields.source (omega arith)

get_token-Piece_example :
    (r : Token × DataFile) × ((get_token two_fields ≡ some r)
      × PieceOf two_fields (text_left two_fields) r)
get_token-Piece_example = get_token-Piece two_fields two_fields-IsPlain refl

get_token-Returns_example : Returns (get_token two_fields)
get_token-Returns_example = get_token-Returns two_fields (omega arith) (omega arith) refl

-- The file after `OpenFile`, `SetTerminator` and `SetEnclosing` is the one above.
opened_as_said :
    (open_file
      (some (codes "x"))
      (set_terminator bars line_end (set_enclosing_with false [] new_data_file))).0
    ≡ opened bars line_end (codes "x")
unfolding open_file set_terminator set_enclosing_with
opened_as_said = refl

-- A value with the field's terminator in it, between quotes.
abbrev quoted_file : DataFile
quoted_file = record (opened (codes "^") line_end (codes "\"a^b\"^")) {
  enclosing = b'"' ∷ [];
  en_len = 1;
  set_enclosing = true;
}

quoted_file-IsQuoted : IsQuoted b'"' quoted_file
quoted_file-IsQuoted = record {
  valid = omega arith;
  set = refl;
  byte = refl;
  counted = refl;
  ascii = omega arith;
  ft_pos = omega arith;
  rt_pos = omega arith;
  ft_other = refl;
  rt_other = refl;
}

get_token-Value_example : Value (codes "a^b") (codes "^") (get_token quoted_file)
get_token-Value_example =
    get_token-Value b'"' quoted_file (codes "a^b") (codes "^") quoted_file-IsQuoted refl refl
      (omega arith, (omega arith, (omega arith, tt))) (refl, (refl, (refl, tt))) (omega arith) refl

-- With an enclosing string of two bytes an empty value does not end: what stands behind it is taken for
-- its text.
abbrev twice_quoted : DataFile
twice_quoted = record (opened (codes "^") line_end (codes "<><>^x<>")) {
  enclosing = codes "<>";
  en_len = 2;
  set_enclosing = true;
}

abbrev value_of : Option (Token × DataFile) → Bytes
value_of none = []
value_of (some (token, f)) = f.token_value

two_quotes : value_of (get_token twice_quoted) ≡ codes "^x"
unfolding get_token read_token scan one_char advance last_hit enclose read_char get_char
two_quotes = refl

-- Blanks at the end stay.
blanks_stay : rtrim (codes "ab  ") ≡ codes "ab  "
unfolding rtrim trim_from
blanks_stay = refl

abbrev columns : List Column
columns =
    record { type = integer; value = codes "17" }
    ∷ record { type = varchar; value = [] }
    ∷ record { type = varchar; value = codes "a|b" }
    ∷ []

abbrev table : Table
table = record {
  is_timestamp = false ∷ false ∷ false ∷ [];
  is_wide = λ _. false;
  cells = λ _. none;
  read_count = 0;
}

abbrev printed : DataFile
printed = opened bars line_end (codes "17|+||+|a|b" ++ (10 ∷ codes "18"))

printed-IsPlain : IsPlain printed
printed-IsPlain = record {
  valid = omega arith;
  ft_counted = refl;
  rt_counted = refl;
  ft_pos = omega arith;
  rt_pos = omega arith;
  ft_ascii = (omega arith, (omega arith, (omega arith, tt)));
  rt_ascii = (omega arith, tt);
  no_enclosing = refl;
}

columns-AreFields : AreFields bars line_end columns
columns-AreFields = (
  record { clear = refl; short = omega arith; narrow = omega arith; kind = refl },
  (
    record { clear = refl; short = omega arith; narrow = omega arith; kind = refl },
    record { clear = refl; short = omega arith; narrow = omega arith; kind = (refl, refl) },
  ),
)

printed-HasNoReturn : HasNoReturn (print_one_record false printed columns)
unfolding print_one_record
printed-HasNoReturn = is_solid-HasNoReturn (print_one_record false printed columns) refl

read_one_record-print_one_record_example :
    Read printed
      (codes "17" ∷ [] ∷ codes "a|b" ∷ [])
      (codes "18")
      (read_one_record plain_flags printed table)
unfolding print_one_record
read_one_record-print_one_record_example =
    read_one_record-print_one_record printed printed table
      (record { type = integer; value = codes "17" })
      (record { type = varchar; value = [] } ∷ record { type = varchar; value = codes "a|b" } ∷ [])
      (codes "18") printed-IsPlain (refl, (refl, printed-IsPlain)) refl refl printed-HasNoReturn
      columns-AreFields refl

-- A null value in front of a timestamp that is to be added: the timestamp is not passed over, and the
-- next value is stored in it.
abbrev stamped : Table
stamped = record {
  is_timestamp = false ∷ true ∷ false ∷ [];
  is_wide = λ _. false;
  cells = λ _. none;
  read_count = 0;
}

abbrev adding : Flags
adding = record { add = true; informix = false }

abbrev reply_of : Bytes → Option (ReadResult × Option Cell)
reply_of bytes = elim (read_one_record adding (opened (codes "^") line_end bytes) stamped) [
  | none ↦ none
  | some (reply, (t, f)) ↦ some (reply, t.cells 1)
]

stamp_is_passed : reply_of (codes "1^5" ++ line_end) ≡ some (success, none)
unfolding read_one_record read_attrs check_end set_attr get_token read_token scan one_char advance
    last_hit enclose read_char get_char
stamp_is_passed = refl

stamp_is_filled :
    reply_of (codes "^5" ++ line_end) ≡ some (error, some (record { value = codes "5"; len = nts }))
unfolding read_one_record read_attrs check_end set_attr get_token read_token scan one_char advance
    last_hit enclose read_char get_char
stamp_is_filled = refl

-- A carriage return in front of the line feed is dropped, so that a terminator that has one is never found.
abbrev with_returns : Bytes
with_returns = codes "5" ++ (13 ∷ line_end)

returns_are_dropped :
    value_of (get_token (opened (codes "^") (13 ∷ line_end) with_returns)) ≡ codes "5" ++ line_end
unfolding get_token read_token scan one_char advance last_hit enclose read_char get_char
returns_are_dropped = refl

-- A value of 32768 bytes runs over the end of its column; one byte less fits.
column_end_lem : (v : Bytes) → length v ≡ 32768 → fits_column table 0 v ≡ false
column_end_lem v l = ground arith

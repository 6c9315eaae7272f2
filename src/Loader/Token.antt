-- ===== src/Loader/Token.antt =====
-- src/ploader/src/iloDataFile.cpp: the tokenizer of a data file, `iloDataFile::GetToken`.
use natc.Base.{
  ℕ, zero, suc, ◌+◌, ◌-◌, Bool, true, false, not, ◌==◌, ◌&&◌, if◌then◌else◌, ltb, leb, [], ◌∷◌,
  ◌++◌, Option, none, some, Bytes, length, get_elem?, take, drop, same,
}
use natc.Loader.Source.{Source, read_char}

pub data Token : Type 0 where
  teof tfield_term trow_term tvalue : Token

-- The lengths `m_nFTLen`, `m_nRTLen` and `m_nEnLen` are taken when the file is opened. `next_token` is
-- the static variable of `GetToken`.
pub record DataFile : Type 0 where
  pub source : Source
  pub field_term : Bytes
  pub row_term : Bytes
  pub enclosing : Bytes
  pub ft_len : ℕ
  pub rt_len : ℕ
  pub en_len : ℕ
  pub set_enclosing : Bool
  pub set_next_token : Bool
  pub next_token : Token
  pub token_value : Bytes

-- `iloDataFile()`.
abbrev pub new_data_file : DataFile
new_data_file = record {
  source = record { buffer = []; pos = 0; rest = [] };
  field_term = b'^' ∷ [];
  row_term = 10 ∷ [];
  enclosing = [];
  ft_len = 0;
  rt_len = 0;
  en_len = 0;
  set_enclosing = false;
  set_next_token = false;
  next_token = teof;
  token_value = [];
}

-- `OpenFile`; `none` stands for a file that cannot be opened.
unfoldable pub open_file : Option Bytes → DataFile → DataFile × Bool
open_file none f = (f, false)
open_file (some bytes) f = (
  record f {
    source = record { buffer = []; pos = 0; rest = bytes };
    set_next_token = false;
    ft_len = length f.field_term;
    rt_len = length f.row_term;
    en_len = length f.enclosing;
  },
  true,
)

unfoldable pub set_terminator : Bytes → Bytes → DataFile → DataFile
set_terminator field row f = record f { field_term = field; row_term = row }

unfoldable pub set_enclosing_with : Bool → Bytes → DataFile → DataFile
set_enclosing_with set enclosing f =
    if set
    then record f { set_enclosing = set; enclosing = enclosing }
    else record f { set_enclosing = set }

-- `MAX_TOKEN_VALUE_LEN`.
abbrev pub max_token : ℕ
max_token = 65536

-- The byte at an index of a zero-terminated string.
abbrev pub char_at : Bytes → ℕ → ℕ
char_at s i = elim (get_elem? s i) [ none ↦ 0 | some c ↦ c ]

-- A byte that was read is not negative, and one of a string is a signed character: from 128 on the two
-- are never equal.
abbrev pub equals_char : ℕ → ℕ → Bool
equals_char c d = c == d && ltb d 128

-- `strncmp(m_TokenValue + vix - j, term, j) == 0`.
abbrev pub ends_with_first : Bytes → Bytes → ℕ → Bool
ends_with_first token term j = same (drop (length token - j) token) (take j term)

-- The loop over `j` from 1 to `n`: the last hit stays.
unfoldable pub last_hit : Bytes → Bytes → ℕ → ℕ
last_hit token term zero = 0
last_hit token term (suc n) =
    let before = last_hit token term n in
    if ends_with_first token term (suc n) then suc n else before

-- How much of a terminator the token ends with, after the byte `c`.
unfoldable pub advance : Bytes → ℕ → Bool → Bytes → ℕ → ℕ → ℕ
unfolding last_hit
advance term len inside token c ix =
    if not inside && equals_char c (char_at term ix)
    then suc ix
    else if ltb 0 ix
    then last_hit token term (if ltb len (length token) then len else length token)
    else ix

-- The local variables: the bytes below `vix`, `ixFT`, `ixRT`, `ixEn`, `enFlag == 0`, and
-- `encloseLoopCnt`. Where no enclosing is set `ixEn` is -1 in the source and has no further use.
pub record TokenScan : Type 0 where
  pub token : Bytes
  pub ft : ℕ
  pub rt : ℕ
  pub en : ℕ
  pub inside : Bool
  pub loops : ℕ

-- A round of the loop goes on, leaves the loop with a value and perhaps the token behind it, returns a
-- terminator, or meets the bound.
pub data Round : Type 0 where
  more : TokenScan → Round
  value : Bytes → Option Token → Round
  terminator : Token → Round
  overflow : Bytes → Round

-- A terminator of `len` bytes ends the token.
abbrev pub at_term : Token → ℕ → Bytes → Round
at_term t len token =
    if length token == len then terminator t else value (take (length token - len) token) (some t)

abbrev pub advance_enclosing : DataFile → ℕ → ℕ → ℕ
advance_enclosing f c en =
    if equals_char c (char_at f.enclosing en)
    then suc en
    else if ltb 0 en
    then (if equals_char c (char_at f.enclosing 0) then 1 else 0)
    else en

-- The enclosing string: the first one is dropped, the next one ends the value.
unfoldable pub enclose : DataFile → ℕ → TokenScan → Round
enclose f c s =
    let en = advance_enclosing f c s.en in
    if en == f.en_len
    then (if length s.token == f.en_len
        then (if s.loops == f.en_len
            then value [] none
            else more
                (record { token = []; ft = 0; rt = 0; en = 0; inside = true; loops = suc s.loops }))
        else value (take (length s.token - f.en_len) s.token) none)
    else more (record s { en = en; inside = true })

-- One byte.
unfoldable pub one_char : DataFile → ℕ → TokenScan → Round
unfolding advance enclose
one_char f c s =
    let token = s.token ++ c ∷ [] in
    let ft = advance f.field_term f.ft_len s.inside token c s.ft in
    let rt = advance f.row_term f.rt_len s.inside token c s.rt in
    let s' = record s { token = token; ft = ft; rt = rt } in
    if leb max_token (length token)
    then overflow token
    else if ft == f.ft_len
    then at_term tfield_term f.ft_len token
    else if rt == f.rt_len
    then at_term trow_term f.rt_len token
    else if f.set_enclosing && (ft == 0 && rt == 0)
    then enclose f c s'
    else more s'

-- What is kept of the token behind a value.
abbrev pub pend : Option Token → DataFile → DataFile
pend none f = f
pend (some t) f = record f { set_next_token = true; next_token = t }

-- The loop, on the byte read; `none` is the end of the fuel, which bounds the rounds.
unfoldable pub scan : ℕ → DataFile → Option ℕ → TokenScan → Option (Token × DataFile)
unfolding one_char
scan zero f ch s = none
scan (suc fuel) f none s = some (tvalue, record (pend (some teof) f) { token_value = s.token })
scan (suc fuel) f (some c) s =
    let (next, source) = read_char f.source in
    elim (one_char f c s) [
      | more s' ↦ scan fuel (record f { source = source }) next s'
      | value token t ↦ some (tvalue, record (pend t f) { token_value = token })
      | terminator t ↦ some (t, f)
      | overflow token ↦ some (teof, record f { token_value = token })
    ]

abbrev pub first_scan : TokenScan
first_scan = record { token = []; ft = 0; rt = 0; en = 0; inside = false; loops = 0 }

-- The bytes to come bound the rounds.
abbrev pub enough : Source → ℕ
enough s = suc (suc (length s.buffer + length s.rest))

-- `GetToken`, once no token is pending.
unfoldable pub read_token : DataFile → Option (Token × DataFile)
unfolding scan
read_token f =
    let (ch, source) = read_char f.source in
    let f' = record f { source = source } in
    elim ch [ none ↦ some (teof, f') | some c ↦ scan (enough source) f' (some c) first_scan ]

-- `GetToken`.
unfoldable pub get_token : DataFile → Option (Token × DataFile)
unfolding read_token
get_token f =
    if f.set_next_token
    then some (f.next_token, record f { set_next_token = false })
    else read_token f

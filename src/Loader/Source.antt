-- ===== src/Loader/Source.antt =====
-- src/ploader/include/iloDataFile.h and src/ploader/src/iloDataFile.cpp: how the bytes of a data file
-- are read.
use natc.Base.{
  ℕ, suc, Bool, false, ◌==◌, if◌then◌else◌, [], ◌∷◌, Option, none, some, Bytes, length, get_elem?,
  take, drop,
}

-- `m_ReadBuf` up to `m_nReadSize`, `m_nCurReadPos`, and what `fread` has not given yet.
pub record Source : Type 0 where
  pub buffer : Bytes
  pub pos : ℕ
  pub rest : Bytes

-- `MAX_TOKENBUFFER_LEN`.
abbrev pub read_len : ℕ
read_len = 8192

-- `GetChar` when the buffer is used up: `fread` gives the bytes `b`.
abbrev pub refill : Bytes → Bytes → Option ℕ × Source
refill [] rest = (none, record { buffer = []; pos = 0; rest = rest })
refill (c ∷ b) rest = (some c, record { buffer = c ∷ b; pos = 1; rest = rest })

-- `GetChar`; `none` stands for EOF.
unfoldable pub get_char : Source → Option ℕ × Source
get_char s =
    if s.pos == length s.buffer
    then refill (take read_len s.rest) (drop read_len s.rest)
    else (get_elem? s.buffer s.pos, record s { pos = suc s.pos })

abbrev pub is_return : Option ℕ → Bool
is_return none = false
is_return (some c) = c == 13

-- How the tokenizer reads: a carriage return is left out, the byte behind it is not looked at.
unfoldable pub read_char : Source → Option ℕ × Source
unfolding get_char
read_char s = let (c, s') = get_char s in if is_return c then get_char s' else (c, s')

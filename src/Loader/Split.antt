-- ===== src/Loader/Split.antt =====
-- src/ploader/src/iloDataFile.cpp: what `GetToken` does without an enclosing string, described without
-- its counters: the text up to the first place where a terminator ends.
use natc.Base.{
  ◌-◌, ◌<◌, ◌≡◌, Bool, false, if◌then◌else◌, leb, [], ◌∷◌, ◌++◌, Option, none, some, Bytes, length,
  take,
}
use natc.Loader.Source.{Source}
use natc.Loader.Unread.{unread, IsSource, dos}
use natc.Loader.Token.{Token, teof, tfield_term, trow_term, tvalue, DataFile, max_token, TokenScan}
use natc.Loader.Ends.{IsAscii}
use natc.Loader.Overlap.{Longest, ends}

-- A terminator ends the token and leaves the text behind it, or the text ends, or the token is too long.
pub data Piece : Type 0 where
  ended : Token → Bytes → Bytes → Piece
  whole : Bytes → Piece
  too_long : Bytes → Bytes → Piece

-- The token without the terminator at its end.
abbrev pub without : Bytes → Bytes → Bytes
without term token = take (length token - length term) token

unfoldable pub split_text : Bytes → Bytes → Bytes → Bytes → Piece
split_text ft rt token [] = whole token
split_text ft rt token (c ∷ text) =
    let longer = token ++ c ∷ [] in
    let rest = split_text ft rt longer text in
    if leb max_token (length longer)
    then too_long longer text
    else if ends longer ft
    then ended tfield_term (without ft longer) text
    else if ends longer rt
    then ended trow_term (without rt longer) text
    else rest

-- What is still to be tokenized.
abbrev pub text_left : DataFile → Bytes
text_left f = dos (unread f.source)

-- An open file without an enclosing string.
pub record IsPlain (f : DataFile) : Type 0 where
  pub valid : IsSource f.source
  pub ft_counted : f.ft_len ≡ length f.field_term
  pub rt_counted : f.rt_len ≡ length f.row_term
  pub ft_pos : 0 < length f.field_term
  pub rt_pos : 0 < length f.row_term
  pub ft_ascii : IsAscii f.field_term
  pub rt_ascii : IsAscii f.row_term
  pub no_enclosing : f.set_enclosing ≡ false

-- The token that is pending, if there is one.
abbrev pub pending : DataFile → Option Token
pending f = if f.set_next_token then some f.next_token else none

-- What a call returns and leaves, for a piece of the text. An empty piece is its terminator; another one
-- is a value, and its terminator the next token.
abbrev pub Gives : Piece → Token × DataFile → Type 0
Gives (ended t [] text) (token, f) = (token ≡ t) × ((pending f ≡ none) × (text_left f ≡ text))
Gives (ended t (c ∷ v) text) (token, f) =
    (token ≡ tvalue) × ((f.token_value ≡ c ∷ v) × ((pending f ≡ some t) × (text_left f ≡ text)))
Gives (whole v) (token, f) =
    (token ≡ tvalue) × ((f.token_value ≡ v) × ((pending f ≡ some teof) × (text_left f ≡ [])))
Gives (too_long v text) (token, f) =
    (token ≡ teof) × ((f.token_value ≡ v) × ((pending f ≡ none) × (text_left f ≡ text)))

-- The same terminators, and plain still.
abbrev pub Keeps : DataFile → DataFile → Type 0
Keeps f g = (g.field_term ≡ f.field_term) × ((g.row_term ≡ f.row_term) × IsPlain g)

abbrev pub Outcome : DataFile → Piece → Token × DataFile → Type 0
Outcome f p r = Gives p r × Keeps f r.1

-- The file behind another source.
pub IsPlain-source :
    (f : DataFile) (s : Source) → IsPlain f → IsSource s → IsPlain (record f { source = s })
IsPlain-source f s h v = record {
  valid = v;
  ft_counted = h.ft_counted;
  rt_counted = h.rt_counted;
  ft_pos = h.ft_pos;
  rt_pos = h.rt_pos;
  ft_ascii = h.ft_ascii;
  rt_ascii = h.rt_ascii;
  no_enclosing = h.no_enclosing;
}

pub IsPlain-value : (f : DataFile) (v : Bytes) → IsPlain f → IsPlain (record f { token_value = v })
IsPlain-value f v h = record {
  valid = h.valid;
  ft_counted = h.ft_counted;
  rt_counted = h.rt_counted;
  ft_pos = h.ft_pos;
  rt_pos = h.rt_pos;
  ft_ascii = h.ft_ascii;
  rt_ascii = h.rt_ascii;
  no_enclosing = h.no_enclosing;
}

pub IsPlain-next :
    (f : DataFile) (set : Bool) (t : Token)
    → IsPlain f
    → IsPlain (record f { set_next_token = set; next_token = t })
IsPlain-next f set t h = record {
  valid = h.valid;
  ft_counted = h.ft_counted;
  rt_counted = h.rt_counted;
  ft_pos = h.ft_pos;
  rt_pos = h.rt_pos;
  ft_ascii = h.ft_ascii;
  rt_ascii = h.rt_ascii;
  no_enclosing = h.no_enclosing;
}

-- The counts between two bytes.
pub record IsCounted (f : DataFile) (s : TokenScan) : Type 0 where
  pub ft_longest : Longest s.token f.field_term s.ft
  pub rt_longest : Longest s.token f.row_term s.rt
  pub ft_below : s.ft < length f.field_term
  pub rt_below : s.rt < length f.row_term
  pub outside : s.inside ≡ false

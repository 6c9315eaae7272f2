-- ===== src/Loader/Enclosed.antt =====
-- src/ploader/src/iloDataFile.cpp: a value between two enclosing bytes.
use natc.Base.{
  ℕ, zero, suc, ◌+◌, ◌<◌, ◌≡◌, ◌≢◌, ap, sym, ◌∙◌, false, [], ◌∷◌, ◌++◌, Option, none, some, Bytes,
  length, arith, if◌then◌else◌, length-append, append_assoc, append-nil, All, ◌==◌,
}
use natc.Loader.Source.{Source, read_char}
use natc.Loader.Unread.{
  unread, dos, HasNoReturn, dos-append, IsSource, head?, tail, read_char-ReadsText,
}
use natc.Loader.Token.{
  Token, teof, tvalue, DataFile, max_token, TokenScan, more, value, one_char, scan, first_scan,
  enough, read_token, get_token,
}
use natc.Loader.Split.{text_left, pending}
use natc.Loader.Enough.{text-lt-enough}
use natc.Loader.Quotes.{IsQuoted, inside_quotes, opens, stays, closes}
use natc.Loader.Rounds.{after_round}

-- What is read: the bytes between the enclosing ones, and the text behind them is left.
pub record Value (v text : Bytes) (o : Option (Token × DataFile)) : Type 0 where
  pub file : DataFile
  pub returned : o ≡ some (tvalue, file)
  pub value_read : file.token_value ≡ v
  pub none_left : pending file ≡ none
  pub rest : text_left file ≡ text

IsQuoted-source :
    (q : ℕ) (f : DataFile) (s : Source)
    → IsQuoted q f
    → IsSource s
    → IsQuoted q (record f { source = s })
IsQuoted-source q f s h v = record {
  valid = v;
  set = h.set;
  byte = h.byte;
  counted = h.counted;
  ascii = h.ascii;
  ft_pos = h.ft_pos;
  rt_pos = h.rt_pos;
  ft_other = h.ft_other;
  rt_other = h.rt_other;
}

-- A round that goes on.
scan-more :
    (fuel : ℕ) (f : DataFile) (c : ℕ) (s s' : TokenScan) (text : Bytes)
    → IsSource f.source
    → text_left f ≡ text
    → one_char f c s ≡ more s'
    → scan (suc fuel) f (some c) s
      ≡ scan fuel (record f { source = (read_char f.source).1 }) (head? text) s'
unfolding scan
scan-more fuel f c s s' text v e r =
    let read = read_char-ReadsText f.source v in
    ap (after_round fuel f) r
    ∙ ap (λ ch. scan fuel (record f { source = (read_char f.source).1 }) ch s')
        (read.first ∙ ap head? e)

scan-value :
    (fuel : ℕ) (f : DataFile) (c : ℕ) (s : TokenScan) (v : Bytes)
    → one_char f c s ≡ value v none
    → scan (suc fuel) f (some c) s ≡ some (tvalue, record f { token_value = v })
unfolding scan
scan-value fuel f c s v r = ap (after_round fuel f) r

-- From inside the enclosing bytes.
scan-inside :
    (q fuel : ℕ) (f : DataFile) (token v text : Bytes)
    → IsQuoted q f
    → pending f ≡ none
    → All (λ c. c ≢ q) v
    → length (token ++ v) + 1 < max_token
    → length v < fuel
    → text_left f ≡ tail (v ++ q ∷ text)
    → Value (token ++ v) text (scan fuel f (head? (v ++ q ∷ text)) (inside_quotes token))
scan-inside q zero f token v text h p a l k e = absurd (omega (arith, k))
scan-inside q (suc fuel) f token [] text h p a l k e =
    let round =
      closes q f token h (omega (arith, l, length-append token [], length-append token (q ∷ []))) in
    record {
      file = record f { token_value = token };
      returned = scan-value fuel f q (inside_quotes token) token round;
      value_read = sym (append-nil token);
      none_left = p;
      rest = e;
    }
scan-inside q (suc fuel) f token (c ∷ v) text h p a l k e =
    let read = read_char-ReadsText f.source h.valid in
    let f' = record f { source = (read_char f.source).1 } in
    let assoc = append_assoc token (c ∷ []) v in
    let short : length (token ++ c ∷ []) < max_token =
      omega (arith, l, length-append token (c ∷ v), length-append token (c ∷ [])) in
    let round = stays q f c token h a.0 short in
    let ih =
      scan-inside q fuel f' (token ++ c ∷ []) v text
        (IsQuoted-source q f (read_char f.source).1 h read.valid) p a.1
        (omega (arith, l, ap length assoc)) (omega (arith, k)) (read.others ∙ ap tail e) in
    record {
      file = ih.file;
      returned =
          scan-more fuel f c (inside_quotes token) _ (v ++ q ∷ text) h.valid e round ∙ ih.returned;
      value_read = ih.value_read ∙ assoc;
      none_left = ih.none_left;
      rest = ih.rest;
    }

-- The call starts with the first byte of the text.
get_token-first :
    (f : DataFile) (c : ℕ) (text : Bytes)
    → IsSource f.source
    → pending f ≡ none
    → text_left f ≡ c ∷ text
    → get_token f
      ≡ scan
          (enough (read_char f.source).1)
          (record f { source = (read_char f.source).1 })
          (some c)
          first_scan
unfolding get_token read_token
get_token-first f c text v p e =
    let read = read_char-ReadsText f.source v in
    let unset : f.set_next_token ≡ false = ground arith in
    let f' = record f { source = (read_char f.source).1 } in
    let first_round = λ (ch : Option ℕ). elim ch as (λ _. Option (Token × DataFile)) [
      | none ↦ some (teof, f')
      | some c ↦ scan (enough f'.source) f' (some c) first_scan
    ] in
    ap (λ b. if b then some (f.next_token, record f { set_next_token = false }) else read_token f)
      unset
    ∙ ap first_round (read.first ∙ ap head? e)

-- For the text that is left, from which the carriage returns have been dropped.
text_left-Value :
    (q : ℕ) (f : DataFile) (v text : Bytes)
    → IsQuoted q f
    → pending f ≡ none
    → All (λ c. c ≢ q) v
    → length v + 1 < max_token
    → text_left f ≡ q ∷ (v ++ q ∷ text)
    → Value v text (get_token f)
text_left-Value q f v text h p a l e =
    let read = read_char-ReadsText f.source h.valid in
    let source = (read_char f.source).1 in
    let f' = record f { source = source } in
    let h' = IsQuoted-source q f source h read.valid in
    let left = read.others ∙ ap tail e in
    let enough_left = text-lt-enough source in
    let count = length-append v (q ∷ text) in
    let read' = read_char-ReadsText source read.valid in
    let f2 = record f { source = (read_char source).1 } in
    let r =
      scan-inside q (suc (length source.buffer + length source.rest)) f2 [] v text
        (IsQuoted-source q f' (read_char source).1 h' read'.valid) p a l
        (omega (arith, enough_left, ap length left, count)) (read'.others ∙ ap tail left) in
    record {
      file = r.file;
      returned =
          get_token-first f q (v ++ q ∷ text) h.valid p e
          ∙ scan-more _ f' q first_scan (inside_quotes []) (v ++ q ∷ text) read.valid left
              (opens q f' h')
          ∙ r.returned;
      value_read = r.value_read;
      none_left = r.none_left;
      rest = r.rest;
    }

-- An open file with an enclosing byte that begins no terminator and is no carriage return, no token
-- pending. The bytes to come begin with a value between two such bytes that holds no carriage return,
-- which the reader drops in front of another byte, and no enclosing byte, and fits into the buffer. The
-- value is returned as it stands, with the terminators that occur in it; what stands behind the second
-- enclosing byte is left for the next call.
pub get_token-Value :
    (q : ℕ) (f : DataFile) (v text : Bytes)
    → IsQuoted q f
    → (q == 13) ≡ false
    → pending f ≡ none
    → All (λ c. c ≢ q) v
    → HasNoReturn v
    → length v + 1 < max_token
    → unread f.source ≡ q ∷ (v ++ q ∷ text)
    → Value v (dos text) (get_token f)
get_token-Value q f v text h other p a solid l e =
    let text_same =
      ap dos e
      ∙ dos-append (q ∷ v) (q ∷ text) (other, solid)
      ∙ ap (λ (s : Bytes). q ∷ (v ++ s)) (dos-append (q ∷ []) text (other, tt)) in
    text_left-Value q f v (dos text) h p a l text_same

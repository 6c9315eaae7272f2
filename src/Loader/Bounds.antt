-- ===== src/Loader/Bounds.antt =====
-- src/ploader/src/iloDataFile.cpp: `GetToken` ends, and the token stays within its buffer.
use natc.Base.{
  ℕ, zero, suc, ◌-◌, ◌≤◌, ◌<◌, ◌≡◌, ◌⊎◌, inl, inr, refl, ap, sym, ◌∙◌, false, [], ◌∷◌, ◌++◌, Option,
  none, some, Bytes, length, take, arith, ◌==◌, ◌&&◌, if-both, if◌then◌else◌, leb, subst,
  length-append,
}
use natc.Loader.Source.{read_char}
use natc.Loader.Unread.{unread, IsSource, dos, head?, tail, ReadsText, read_char-ReadsText}
use natc.Loader.Token.{
  Token, teof, tfield_term, trow_term, tvalue, DataFile, max_token, TokenScan, Round, more, value,
  terminator, overflow, at_term, advance, advance_enclosing, enclose, one_char, pend, scan,
  first_scan, enough, read_token, get_token,
}
use natc.Loader.Enough.{text-lt-enough}

-- The token of a round: below the bound, and just at it where the round reports it.
abbrev IsBounded : Round → Type 0
IsBounded (more s) = length s.token < max_token
IsBounded (value token t) = length token < max_token
IsBounded (terminator t) = Unit
IsBounded (overflow token) = length token ≡ max_token

length-take_le : (n : ℕ) (s : Bytes) → length (take n s) ≤ length s
length-take_le zero s = omega arith
length-take_le (suc n) [] = omega arith
length-take_le (suc n) (c ∷ s) = omega (arith, length-take_le n s)

at_term-IsBounded :
    (t : Token) (len : ℕ) (token : Bytes)
    → length token < max_token
    → IsBounded (at_term t len token)
at_term-IsBounded t len token l =
    if-both IsBounded (length token == len) _ _ (λ _. tt)
      (λ _. omega (arith, l, length-take_le (length token - len) token))

enclose-IsBounded :
    (f : DataFile) (c : ℕ) (s : TokenScan) → length s.token < max_token → IsBounded (enclose f c s)
unfolding enclose
enclose-IsBounded f c s l =
    if-both IsBounded (advance_enclosing f c s.en == f.en_len) _ _
      (λ _.
        if-both IsBounded (length s.token == f.en_len) _ _
          (λ _. if-both IsBounded (s.loops == f.en_len) _ _ (λ _. omega arith) (λ _. omega arith))
          (λ _. omega (arith, l, length-take_le (length s.token - f.en_len) s.token)))
      (λ _. l)

one_char-IsBounded :
    (f : DataFile) (c : ℕ) (s : TokenScan) → length s.token < max_token → IsBounded (one_char f c s)
unfolding one_char
one_char-IsBounded f c s l =
    let token = s.token ++ c ∷ [] in
    let ft = advance f.field_term f.ft_len s.inside token c s.ft in
    let rt = advance f.row_term f.rt_len s.inside token c s.rt in
    let s' = record s { token = token; ft = ft; rt = rt } in
    let count = length-append s.token (c ∷ []) in
    if-both IsBounded (leb max_token (length token)) _ _ (λ long. ground arith)
      (λ fits.
        let short : length token < max_token = ground arith in
        if-both IsBounded (ft == f.ft_len) _ _
          (λ _. at_term-IsBounded tfield_term f.ft_len token short)
          (λ _.
            if-both IsBounded (rt == f.rt_len) _ _
              (λ _. at_term-IsBounded trow_term f.rt_len token short)
              (λ _.
                if-both IsBounded (f.set_enclosing && (ft == 0 && rt == 0)) _ _
                  (λ _. enclose-IsBounded f c s' short) (λ _. short))))

-- What a call returns: a token that leaves room for the zero behind it, or the end of the file after a
-- token of the buffer's length.
abbrev pub Fits : Token × DataFile → Type 0
Fits (t, g) = (length g.token_value < max_token) ⊎ ((t ≡ teof) × (length g.token_value ≡ max_token))

abbrev pub Returns : Option (Token × DataFile) → Type 0
Returns o = (r : Token × DataFile) × ((o ≡ some r) × Fits r)

length-pend :
    (f : DataFile) (t : Option Token) (v : Bytes)
    → length v < max_token
    → Fits (tvalue, record (pend t f) { token_value = v })
length-pend f none v l = inl l
length-pend f (some t) v l = inl l

-- A round ends the call, or what follows does.
by_round :
    (f : DataFile) (r : Round) (follow : TokenScan → Option (Token × DataFile))
    → IsBounded r
    → length f.token_value < max_token
    → ((s : TokenScan) → length s.token < max_token → Returns (follow s))
    → Returns (elim r [
      | more s ↦ follow s
      | value token t ↦ some (tvalue, record (pend t f) { token_value = token })
      | terminator t ↦ some (t, f)
      | overflow token ↦ some (teof, record f { token_value = token })
    ])
by_round f (more s) follow b l k = k s b
by_round f (value token t) follow b l k = (_, (refl, length-pend f t token b))
by_round f (terminator t) follow b l k = (_, (refl, inl l))
by_round f (overflow token) follow b l k = (_, (refl, inr (refl, b)))

scan-Returns :
    (fuel : ℕ) (f : DataFile) (s : TokenScan) (text : Bytes)
    → dos (unread f.source) ≡ tail text
    → length text < fuel
    → IsSource f.source
    → length f.token_value < max_token
    → length s.token < max_token
    → Returns (scan fuel f (head? text) s)
unfolding scan
scan-Returns zero f s text e l v k h = absurd (omega (arith, l))
scan-Returns (suc fuel) f s [] e l v k h = (_, (refl, length-pend f (some teof) s.token h))
scan-Returns (suc fuel) f s (c ∷ text) e l v k h =
    let read = read_char-ReadsText f.source v in
    let f' = record f { source = (read_char f.source).1 } in
    let next : (read_char f.source).0 ≡ head? text = read.first ∙ ap head? e in
    by_round f (one_char f c s) (λ s'. scan fuel f' (read_char f.source).0 s')
      (one_char-IsBounded f c s h) k
      (λ s' h'.
        subst (λ ch. Returns (scan fuel f' ch s')) (sym next)
          (scan-Returns fuel f' s' text (read.others ∙ ap tail e) (omega (arith, l)) read.valid k
            h'))

-- Whatever the terminators and the enclosing string are, a call that finds no token pending returns. The
-- token it leaves is shorter than its buffer, so that the zero behind it stands in the buffer. Only where
-- the call gives up on a token that is too long has the token the buffer's length, and then the end of
-- the file is reported (and the zero stands behind the buffer).
pub get_token-Returns :
    (f : DataFile)
    → IsSource f.source
    → length f.token_value < max_token
    → f.set_next_token ≡ false
    → Returns (get_token f)
unfolding get_token read_token
get_token-Returns f v l unset =
    subst
      (λ b. Returns (
        if b
        then some (f.next_token, record f { set_next_token = false })
        else elim first [ none ↦ some (teof, f') | some c ↦ loop (some c) ]))
      (sym unset) (by_text (dos (unread f.source)) refl)
  where
    read : ReadsText (unread f.source) (read_char f.source)
    read = read_char-ReadsText f.source v

    first : Option ℕ
    first = (read_char f.source).0

    f' : DataFile
    f' = record f { source = (read_char f.source).1 }

    loop : Option ℕ → Option (Token × DataFile)
    loop ch = scan (enough f'.source) f' ch first_scan

    first_round : Option ℕ → Option (Token × DataFile)
    first_round ch = elim ch [ none ↦ some (teof, f') | some c ↦ loop (some c) ]

    by_text : (text : Bytes) → dos (unread f.source) ≡ text → Returns (first_round first)
    by_text [] e =
        let at_end : first ≡ none = read.first ∙ ap head? e in
        subst (λ ch. Returns (first_round ch)) (sym at_end) (_, (refl, inl l))
    by_text (c ∷ text) e =
        let got : first ≡ some c = read.first ∙ ap head? e in
        let behind = read.others ∙ ap tail e in
        let short = text-lt-enough f'.source in
        subst (λ ch. Returns (first_round ch)) (sym got)
          (scan-Returns (enough f'.source) f' first_scan (c ∷ text) behind
            (omega (arith, short, ap length behind)) read.valid l (omega arith))

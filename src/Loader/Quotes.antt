-- ===== src/Loader/Quotes.antt =====
-- src/ploader/src/iloDataFile.cpp: the rounds of `GetToken` for an enclosing byte.
use natc.Base.{
  ℕ, suc, ◌-◌, ◌<◌, ◌≡◌, ◌≢◌, refl, ap, ◌∙◌, true, false, [], ◌∷◌, ◌++◌, none, Bytes, length, take,
  arith, ◌==◌, if-both, if◌then◌else◌, leb, length-append, ap₂, ==→eq,
}
use natc.Loader.Unread.{IsSource}
use natc.Loader.Token.{
  DataFile, max_token, TokenScan, Round, more, value, char_at, equals_char, advance,
  advance_enclosing, enclose, one_char, first_scan,
}

-- An open file with the enclosing byte `q`, which begins no terminator.
pub record IsQuoted (q : ℕ) (f : DataFile) : Type 0 where
  pub valid : IsSource f.source
  pub set : f.set_enclosing ≡ true
  pub byte : f.enclosing ≡ q ∷ []
  pub counted : f.en_len ≡ 1
  pub ascii : q < 128
  pub ft_pos : 0 < f.ft_len
  pub rt_pos : 0 < f.rt_len
  pub ft_other : equals_char q (char_at f.field_term 0) ≡ false
  pub rt_other : equals_char q (char_at f.row_term 0) ≡ false

-- Behind the first enclosing byte, with what was read since.
abbrev pub inside_quotes : Bytes → TokenScan
inside_quotes token = record { token = token; ft = 0; rt = 0; en = 0; inside = true; loops = 1 }

-- The last part of a round, behind the tests for the terminators.
to_enclose :
    (q : ℕ) (f : DataFile) (c : ℕ) (s : TokenScan)
    → IsQuoted q f
    → length (s.token ++ c ∷ []) < max_token
    → advance f.field_term f.ft_len s.inside (s.token ++ c ∷ []) c s.ft ≡ 0
    → advance f.row_term f.rt_len s.inside (s.token ++ c ∷ []) c s.rt ≡ 0
    → one_char f c s ≡ enclose f c (record s { token = s.token ++ c ∷ []; ft = 0; rt = 0 })
unfolding one_char
to_enclose q f c s h l ft rt =
    let fits : leb max_token (length (s.token ++ c ∷ [])) ≡ false = ground arith in
    let ft_open : (0 == f.ft_len) ≡ false = ground (arith, h.ft_pos) in
    let rt_open : (0 == f.rt_len) ≡ false = ground (arith, h.rt_pos) in
    rw (ft, rt, fits, ft_open, rt_open, h.set) refl

-- The part for the enclosing string, by the count and the length of that string.
abbrev by_count : TokenScan → ℕ → ℕ → Round
by_count s en len =
    if en == len
    then (if length s.token == len
        then (if s.loops == len
            then value [] none
            else more
                (record { token = []; ft = 0; rt = 0; en = 0; inside = true; loops = suc s.loops }))
        else value (take (length s.token - len) s.token) none)
    else more (record s { en = en; inside = true })

quote_found : (q : ℕ) (f : DataFile) → IsQuoted q f → advance_enclosing f q 0 ≡ 1
quote_found q f h =
    let hit : equals_char q (char_at f.enclosing 0) ≡ true =
      ap (λ (e : Bytes). equals_char q (char_at e 0)) h.byte ∙ ground (arith, h.ascii) in
    rw hit refl

quote_missed : (q : ℕ) (f : DataFile) (c : ℕ) → IsQuoted q f → c ≢ q → advance_enclosing f c 0 ≡ 0
quote_missed q f c h apart =
    let miss : equals_char c (char_at f.enclosing 0) ≡ false =
      ap (λ (e : Bytes). equals_char c (char_at e 0)) h.byte ∙ ground (arith, apart) in
    rw miss refl

enclose-by_count :
    (q : ℕ) (f : DataFile) (c : ℕ) (s : TokenScan) (en : ℕ)
    → IsQuoted q f
    → advance_enclosing f c s.en ≡ en
    → enclose f c s ≡ by_count s en 1
unfolding enclose
enclose-by_count q f c s en h e = ap₂ (by_count s) e h.counted

take-snoc : (s : Bytes) (c : ℕ) → take (length (s ++ c ∷ []) - 1) (s ++ c ∷ []) ≡ s
take-snoc s c =
    let count : length (s ++ c ∷ []) - 1 ≡ length s = omega (arith, length-append s (c ∷ [])) in
    ap (λ n. take n (s ++ c ∷ [])) count ∙ take-front s
  where
    take-front : (s : Bytes) → take (length s) (s ++ c ∷ []) ≡ s
    take-front [] = refl
    take-front (d ∷ s) = ap (◌∷◌ d) (take-front s)

nothing_before : (s : Bytes) (c : ℕ) → length (s ++ c ∷ []) ≡ 1 → [] ≡ s
nothing_before [] c e = refl
nothing_before (d ∷ s) c e = absurd (omega (arith, e, length-append s (c ∷ [])))

not_at_first :
    (term : Bytes) (len : ℕ) (token : Bytes) (c : ℕ)
    → equals_char c (char_at term 0) ≡ false
    → advance term len false token c 0 ≡ 0
unfolding advance
not_at_first term len token c e = rw e refl

not_inside : (term : Bytes) (len : ℕ) (token : Bytes) (c : ℕ) → advance term len true token c 0 ≡ 0
unfolding advance
not_inside term len token c = refl

pub opens :
    (q : ℕ) (f : DataFile) → IsQuoted q f → one_char f q first_scan ≡ more (inside_quotes [])
opens q f h =
    to_enclose q f q first_scan h (omega arith)
      (not_at_first f.field_term f.ft_len (q ∷ []) q h.ft_other)
      (not_at_first f.row_term f.rt_len (q ∷ []) q h.rt_other)
    ∙ enclose-by_count q f q _ 1 h (quote_found q f h)

pub stays :
    (q : ℕ) (f : DataFile) (c : ℕ) (token : Bytes)
    → IsQuoted q f
    → c ≢ q
    → length (token ++ c ∷ []) < max_token
    → one_char f c (inside_quotes token) ≡ more (inside_quotes (token ++ c ∷ []))
stays q f c token h apart l =
    to_enclose q f c (inside_quotes token) h l
      (not_inside f.field_term f.ft_len (token ++ c ∷ []) c)
      (not_inside f.row_term f.rt_len (token ++ c ∷ []) c)
    ∙ enclose-by_count q f c _ 0 h (quote_missed q f c h apart)

pub closes :
    (q : ℕ) (f : DataFile) (token : Bytes)
    → IsQuoted q f
    → length (token ++ q ∷ []) < max_token
    → one_char f q (inside_quotes token) ≡ value token none
closes q f token h l =
    to_enclose q f q (inside_quotes token) h l
      (not_inside f.field_term f.ft_len (token ++ q ∷ []) q)
      (not_inside f.row_term f.rt_len (token ++ q ∷ []) q)
    ∙ enclose-by_count q f q _ 1 h (quote_found q f h)
    ∙ if-both (λ (r : Round). r ≡ value token none) (length (token ++ q ∷ []) == 1) _ _
        (λ one. ap (λ (v : Bytes). value v none) (nothing_before token q (==→eq _ _ one)))
        (λ _. ap (λ (v : Bytes). value v none) (take-snoc token q))

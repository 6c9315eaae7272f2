-- ===== src/Loader/Splitting.antt =====
-- src/ploader/src/iloDataFile.cpp: without an enclosing string `GetToken` splits the text at the first
-- terminator.
use natc.Base.{
  ℕ, zero, suc, ◌<◌, ◌≡◌, refl, ap, sym, ◌∙◌, false, if◌then◌else◌, leb, [], ◌∷◌, ◌++◌, Option,
  none, some, Bytes, length, arith, if-both₂, subst,
}
use natc.Loader.Source.{read_char}
use natc.Loader.Unread.{unread, head?, tail, ReadsText, read_char-ReadsText}
use natc.Loader.Token.{
  Token, teof, tfield_term, trow_term, DataFile, max_token, TokenScan, Round, scan, first_scan,
  enough, read_token, get_token,
}
use natc.Loader.Overlap.{ends, Longest-start}
use natc.Loader.Split.{
  Piece, split_text, text_left, IsPlain, pending, Keeps, Outcome, IsPlain-source, IsCounted,
}
use natc.Loader.Rounds.{after_round, scan_of, plain_round, one_char-plain, IsCounted-next}
use natc.Loader.Ending.{Yields, Keeps-write, at_term-Yields}
use natc.Loader.Enough.{text-lt-enough}

-- From the byte that was read on, with fuel above the number of bytes to come.
scan-Yields :
    (fuel : ℕ) (f : DataFile) (s : TokenScan) (text : Bytes)
    → text_left f ≡ tail text
    → length text < fuel
    → IsPlain f
    → pending f ≡ none
    → IsCounted f s
    → Yields f (scan fuel f (head? text) s) (split_text f.field_term f.row_term s.token text)
unfolding scan split_text plain_round
scan-Yields zero f s text e l p none_left h = absurd (omega (arith, l))
scan-Yields (suc fuel) f s [] e l p none_left h =
    (_, (refl, ((refl, (refl, (refl, e))), Keeps-write f s.token (some teof) p)))
scan-Yields (suc fuel) f s (c ∷ text) e l p none_left h =
    let token = s.token ++ c ∷ [] in
    let rest = split_text f.field_term f.row_term token text in
    let read = read_char-ReadsText f.source p.valid in
    let f' = record f { source = (read_char f.source).1 } in
    let P = λ (r : Round) (piece : Piece). Yields f (after_round fuel f r) piece in
    subst
      (λ r. Yields f (after_round fuel f r) (split_text f.field_term f.row_term s.token (c ∷ text)))
      (sym (one_char-plain f c s p h))
      (if-both₂ P (leb max_token (length token)) _ _ _ _
        (λ long. (_, (refl, ((refl, (refl, (none_left, e))), Keeps-write f token none p))))
        (λ fits.
          if-both₂ P (ends token f.field_term) _ _ _ _
            (λ found.
              at_term-Yields fuel f tfield_term f.field_term token text f.ft_len p.ft_counted found
                p none_left e)
            (λ ft_open.
              if-both₂ P (ends token f.row_term) _ _ _ _
                (λ found.
                  at_term-Yields fuel f trow_term f.row_term token text f.rt_len p.rt_counted found
                    p none_left e)
                (λ rt_open.
                  let next : (read_char f.source).0 ≡ head? text = read.first ∙ ap head? e in
                  let p' = IsPlain-source f (read_char f.source).1 p read.valid in
                  let ih =
                    scan-Yields fuel f' (scan_of f c s) text (read.others ∙ ap tail e)
                      (omega (arith, l)) p' none_left (counted ft_open rt_open) in
                  subst (λ ch. Yields f (scan fuel f' ch (scan_of f c s)) rest) (sym next)
                    (ih.0, ((ih.1).0, (((ih.1).1).0, ((ih.1).1).1)))))))
  where
    counted :
        ends (s.token ++ c ∷ []) f.field_term ≡ false
        → ends (s.token ++ c ∷ []) f.row_term ≡ false
        → IsCounted (record f { source = (read_char f.source).1 }) (scan_of f c s)
    counted ft_open rt_open =
        let k = IsCounted-next f c s p h ft_open rt_open in
        record {
          ft_longest = k.ft_longest;
          rt_longest = k.rt_longest;
          ft_below = k.ft_below;
          rt_below = k.rt_below;
          outside = k.outside;
        }

-- What a read returns, by the text: nothing is left, or a piece of it.
abbrev pub PieceOf : DataFile → Bytes → Token × DataFile → Type 0
PieceOf f [] (token, g) = ((token ≡ teof) × ((pending g ≡ none) × (text_left g ≡ []))) × Keeps f g
PieceOf f (c ∷ text) r = Outcome f (split_text f.field_term f.row_term [] (c ∷ text)) r

abbrev first_round : ℕ → DataFile → Option ℕ → Option (Token × DataFile)
first_round fuel f ch = elim ch [ none ↦ some (teof, f) | some c ↦ scan fuel f (some c) first_scan ]

read_token-Piece :
    (f : DataFile) (text : Bytes)
    → text_left f ≡ text
    → IsPlain f
    → pending f ≡ none
    → (r : Token × DataFile) × ((read_token f ≡ some r) × PieceOf f text r)
unfolding read_token
read_token-Piece f text e p none_left = by_text text e
  where
    read : ReadsText (unread f.source) (read_char f.source)
    read = read_char-ReadsText f.source p.valid

    f' : DataFile
    f' = record f { source = (read_char f.source).1 }

    p' : IsPlain f'
    p' = IsPlain-source f (read_char f.source).1 p read.valid

    by_text :
        (text : Bytes)
        → text_left f ≡ text
        → (r : Token × DataFile) × ((read_token f ≡ some r) × PieceOf f text r)
    by_text [] e =
        let at_end : (read_char f.source).0 ≡ none = read.first ∙ ap head? e in
        (
          (teof, f'),
          (
            ap (first_round (enough f'.source) f') at_end,
            ((refl, (none_left, read.others ∙ ap tail e)), (refl, (refl, p'))),
          ),
        )
    by_text (c ∷ text) e =
        let ch : (read_char f.source).0 ≡ some c = read.first ∙ ap head? e in
        let fuel = enough (read_char f.source).1 in
        let short = text-lt-enough (read_char f.source).1 in
        let left = read.others ∙ ap tail e in
        let r =
          scan-Yields fuel f' first_scan (c ∷ text) left (omega (arith, short, ap length left)) p'
            none_left
            (record {
              ft_longest = Longest-start f.field_term;
              rt_longest = Longest-start f.row_term;
              ft_below = p.ft_pos;
              rt_below = p.rt_pos;
              outside = refl;
            }) in
        (r.0, (ap (first_round fuel f') ch ∙ (r.1).0, (r.1).1))

-- An open file with terminators of ASCII bytes and without an enclosing string, no token pending:
-- `GetToken` returns. Where nothing is left it says so. Otherwise what it returns, and what it leaves
-- for the next call, are those of the text split at the first place where a terminator ends, the field's
-- before the row's; its two counters and their renewed comparison find that place for terminators of any
-- length.
pub get_token-Piece :
    (f : DataFile)
    → IsPlain f
    → pending f ≡ none
    → (r : Token × DataFile) × ((get_token f ≡ some r) × PieceOf f (text_left f) r)
unfolding get_token
get_token-Piece f p none_left =
    let r = read_token-Piece f (text_left f) refl p none_left in
    let unset : f.set_next_token ≡ false = ground arith in
    let chosen =
      ap (λ b. if b then some (f.next_token, record f { set_next_token = false }) else read_token f)
        unset in
    (r.0, (chosen ∙ (r.1).0, (r.1).1))

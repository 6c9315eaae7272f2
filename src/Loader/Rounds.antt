-- ===== src/Loader/Rounds.antt =====
-- src/ploader/src/iloDataFile.cpp: one round of the loop of `GetToken` without an enclosing string.
use natc.Base.{
  some, Option, ℕ, ◌≡◌, refl, ap, sym, ◌∙◌, false, if◌then◌else◌, leb, [], ◌∷◌, ◌++◌, length, arith,
  ◌==◌, subst,
}
use natc.Loader.Source.{read_char}
use natc.Loader.Token.{
  terminator, tvalue, teof, Token, value, scan, pend, tfield_term, trow_term, DataFile, max_token,
  TokenScan, Round, more, overflow, at_term, advance, one_char,
}
use natc.Loader.Overlap.{Longest, ends, advance-Longest, Longest-full}
use natc.Loader.Split.{IsPlain, IsCounted}

abbrev pub ft_of : DataFile → ℕ → TokenScan → ℕ
ft_of f c s = advance f.field_term f.ft_len s.inside (s.token ++ c ∷ []) c s.ft

abbrev pub rt_of : DataFile → ℕ → TokenScan → ℕ
rt_of f c s = advance f.row_term f.rt_len s.inside (s.token ++ c ∷ []) c s.rt

abbrev pub scan_of : DataFile → ℕ → TokenScan → TokenScan
scan_of f c s = record s { token = s.token ++ c ∷ []; ft = ft_of f c s; rt = rt_of f c s }

ft_Longest :
    (f : DataFile) (c : ℕ) (s : TokenScan)
    → IsPlain f
    → IsCounted f s
    → Longest (s.token ++ c ∷ []) f.field_term (ft_of f c s)
ft_Longest f c s p h =
    subst
      (λ n.
        Longest (s.token ++ c ∷ []) f.field_term
          (advance f.field_term n s.inside (s.token ++ c ∷ []) c s.ft))
      (sym p.ft_counted)
      (subst
        (λ b.
          Longest (s.token ++ c ∷ []) f.field_term
            (advance f.field_term (length f.field_term) b (s.token ++ c ∷ []) c s.ft))
        (sym h.outside)
        (advance-Longest s.token f.field_term c s.ft p.ft_ascii h.ft_below h.ft_longest))

rt_Longest :
    (f : DataFile) (c : ℕ) (s : TokenScan)
    → IsPlain f
    → IsCounted f s
    → Longest (s.token ++ c ∷ []) f.row_term (rt_of f c s)
rt_Longest f c s p h =
    subst
      (λ n.
        Longest (s.token ++ c ∷ []) f.row_term
          (advance f.row_term n s.inside (s.token ++ c ∷ []) c s.rt))
      (sym p.rt_counted)
      (subst
        (λ b.
          Longest (s.token ++ c ∷ []) f.row_term
            (advance f.row_term (length f.row_term) b (s.token ++ c ∷ []) c s.rt))
        (sym h.outside)
        (advance-Longest s.token f.row_term c s.rt p.rt_ascii h.rt_below h.rt_longest))

-- One round, with the tests of the description.
unfoldable pub plain_round : DataFile → ℕ → TokenScan → Round
plain_round f c s =
    let token = s.token ++ c ∷ [] in
    if leb max_token (length token)
    then overflow token
    else if ends token f.field_term
    then at_term tfield_term f.ft_len token
    else if ends token f.row_term
    then at_term trow_term f.rt_len token
    else more (scan_of f c s)

pub one_char-plain :
    (f : DataFile) (c : ℕ) (s : TokenScan)
    → IsPlain f
    → IsCounted f s
    → one_char f c s ≡ plain_round f c s
unfolding one_char plain_round
one_char-plain f c s p h =
    let ft_full : (ft_of f c s == f.ft_len) ≡ ends (s.token ++ c ∷ []) f.field_term =
      ap (λ n. ft_of f c s == n) p.ft_counted ∙ Longest-full _ _ _ (ft_Longest f c s p h) in
    let rt_full : (rt_of f c s == f.rt_len) ≡ ends (s.token ++ c ∷ []) f.row_term =
      ap (λ n. rt_of f c s == n) p.rt_counted ∙ Longest-full _ _ _ (rt_Longest f c s p h) in
    rw (ft_full, rt_full, p.no_enclosing) refl

pub IsCounted-next :
    (f : DataFile) (c : ℕ) (s : TokenScan)
    → IsPlain f
    → IsCounted f s
    → ends (s.token ++ c ∷ []) f.field_term ≡ false
    → ends (s.token ++ c ∷ []) f.row_term ≡ false
    → IsCounted f (scan_of f c s)
IsCounted-next f c s p h ft_open rt_open =
    let ft = ft_Longest f c s p h in
    let rt = rt_Longest f c s p h in
    let ft_short = Longest-full _ _ _ ft ∙ ft_open in
    let rt_short = Longest-full _ _ _ rt ∙ rt_open in
    record {
      ft_longest = ft;
      rt_longest = rt;
      ft_below = ground (arith, ft_short, ft.fits);
      rt_below = ground (arith, rt_short, rt.fits);
      outside = h.outside;
    }

-- What the loop does with the round's result.
abbrev pub after_round : ℕ → DataFile → Round → Option (Token × DataFile)
after_round fuel f round =
    let (next, source) = read_char f.source in
    elim round [
      | more s' ↦ scan fuel (record f { source = source }) next s'
      | value token t ↦ some (tvalue, record (pend t f) { token_value = token })
      | terminator t ↦ some (t, f)
      | overflow token ↦ some (teof, record f { token_value = token })
    ]

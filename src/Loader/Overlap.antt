-- ===== src/Loader/Overlap.antt =====
-- src/ploader/src/iloDataFile.cpp: how much of a terminator a token ends with. The count that the loop of
-- `GetToken` keeps is the longest one.
use natc.Base.{
  ℕ, zero, suc, ◌-◌, ◌≤◌, ◌<◌, ◌≡◌, refl, ap, sym, ◌∙◌, Bool, true, false, ◌==◌, ◌&&◌,
  if◌then◌else◌, ltb, leb, [], ◌∷◌, ◌++◌, Bytes, length, take, drop, same, arith, if-both,
  append-nil, take_all, subst, Bool-cases, inl, inr,
}
use natc.Loader.Token.{char_at, equals_char, ends_with_first, last_hit, advance}
use mathlib.Core.Bool.{false≢true}
use natc.Loader.Ends.{
  Ends, IsAscii, Ends-snoc, Ends-unsnoc, take_next, length-take, same-drop→Ends, Ends→same-drop,
  Ends-length,
}

-- The longest beginning of the terminator that the token ends with.
pub record Longest (token term : Bytes) (ix : ℕ) : Type 0 where
  pub fits : ix ≤ length term
  pub here : Ends token (take ix term)
  pub longest : (j : ℕ) → j ≤ length term → Ends token (take j term) → j ≤ ix

-- What the loop over `j` finds among the first `n`.
record LastHit (token term : Bytes) (n : ℕ) (r : ℕ) : Type 0 where
  below : r ≤ n
  hit : Ends token (take r term)
  last : (j : ℕ) → j ≤ n → Ends token (take j term) → j ≤ r

last_hit-LastHit :
    (token term : Bytes) (n : ℕ) → n ≤ length term → LastHit token term n (last_hit token term n)
unfolding last_hit
last_hit-LastHit token term zero h = record {
  below = omega arith;
  hit = (token, sym (append-nil token));
  last = λ j l e. l;
}
last_hit-LastHit token term (suc n) h =
    let before = last_hit-LastHit token term n (omega arith) in
    if-both (LastHit token term (suc n)) (ends_with_first token term (suc n)) _ _
      (λ found. record {
        below = omega arith;
        hit = same-drop→Ends token (take (suc n) term) _ found;
        last = λ j l e. l;
      })
      (λ missed. record {
        below = omega (arith, before.below);
        hit = before.hit;
        last = λ j l e. elim (Bool-cases (leb j n)) [
          | inl small ↦ before.last j (ground arith) e
          | inr large ↦
              let top : j ≡ suc n = ground arith in
              let full =
                Ends→same-drop token (take (suc n) term)
                  (subst (λ k. Ends token (take k term)) top e) in
              let tested : ends_with_first token term (suc n) ≡ true =
                ap (λ k. same (drop (length token - k) token) (take (suc n) term))
                  (sym (length-take (suc n) term h))
                ∙ full in
              absurd (false≢true (sym missed ∙ tested))
        ];
      })

-- A beginning of the terminator that the longer token ends with, less its last byte.
Longest-before :
    (token term : Bytes) (c ix j : ℕ)
    → IsAscii term
    → Longest token term ix
    → suc j ≤ length term
    → Ends (token ++ c ∷ []) (take (suc j) term)
    → (j ≤ ix) × (equals_char c (char_at term j) ≡ true)
Longest-before token term c ix j ascii l h e =
    let (d, (got, (next, small))) = take_next j term ascii (omega (arith, h)) in
    let (front, last) = Ends-unsnoc token (take j term) c d (subst (Ends _) next e) in
    let same_byte : c ≡ char_at term j = last ∙ sym got in
    (l.longest j (omega (arith, h)) front, ground (arith, same_byte))

advance_hit :
    (token term : Bytes) (c ix : ℕ)
    → IsAscii term
    → ix < length term
    → Longest token term ix
    → equals_char c (char_at term ix) ≡ true
    → Longest (token ++ c ∷ []) term (suc ix)
advance_hit token term c ix ascii h l hit =
    let (d, (got, (next, small))) = take_next ix term ascii h in
    let same_byte : c ≡ d = ground arith in
    record {
      fits = h;
      here = subst (Ends (token ++ c ∷ [])) (sym next) (
          subst (λ n. Ends (token ++ c ∷ []) (take ix term ++ n ∷ [])) same_byte
            (Ends-snoc token (take ix term) c l.here));
      longest = at_most;
    }
  where
    at_most : (j : ℕ) → j ≤ length term → Ends (token ++ c ∷ []) (take j term) → j ≤ suc ix
    at_most zero k e = omega arith
    at_most (suc j) k e = omega (arith, (Longest-before token term c ix j ascii l k e).0)

advance_zero :
    (token term : Bytes) (c ix : ℕ)
    → IsAscii term
    → Longest token term ix
    → ix ≡ 0
    → equals_char c (char_at term ix) ≡ false
    → Longest (token ++ c ∷ []) term ix
advance_zero token term c ix ascii l none_left miss =
    subst (Longest _ term) (sym none_left)
      (record { fits = omega arith; here = (_, sym (append-nil _)); longest = at_most })
  where
    at_most : (j : ℕ) → j ≤ length term → Ends (token ++ c ∷ []) (take j term) → j ≤ 0
    at_most zero k e = omega arith
    at_most (suc j) k e =
        let (small, hit) = Longest-before token term c ix j ascii l k e in
        let first : j ≡ ix = omega (arith, small, none_left) in
        absurd (false≢true (sym miss ∙ ap (λ n. equals_char c (char_at term n)) (sym first) ∙ hit))

rematch :
    (token term : Bytes) (n : ℕ)
    → n ≡ (if ltb (length term) (length token) then length term else length token)
    → Longest token term (last_hit token term n)
rematch token term n e =
    let r = last_hit-LastHit token term n (ground arith) in
    record {
      fits = ground (arith, r.below);
      here = r.hit;
      longest = λ j h ends.
          let short = Ends-length token (take j term) ends in
          let all_of_it = length-take j term h in r.last j (ground arith) ends;
    }

-- One byte more: the count stays the longest.
pub advance-Longest :
    (token term : Bytes) (c ix : ℕ)
    → IsAscii term
    → ix < length term
    → Longest token term ix
    → Longest (token ++ c ∷ []) term (advance term (length term) false (token ++ c ∷ []) c ix)
unfolding advance
advance-Longest token term c ix ascii h l =
    let P = Longest (token ++ c ∷ []) term in
    if-both P (equals_char c (char_at term ix)) _ _ (advance_hit token term c ix ascii h l) (λ miss.
      if-both P (ltb 0 ix) _ _ (λ some_left. rematch (token ++ c ∷ []) term _ refl)
        (λ none_left. advance_zero token term c ix ascii l (ground arith) miss))

-- Does the token end with the terminator?
abbrev pub ends : Bytes → Bytes → Bool
ends token term =
    leb (length term) (length token) && same (drop (length token - length term) token) term

pub ends-true : (token term : Bytes) → Ends token term → ends token term ≡ true
ends-true token term e =
    let short = Ends-length token term e in let whole = Ends→same-drop token term e in ground arith

-- The count is full exactly when the token ends with the terminator.
pub Longest-full :
    (token term : Bytes) (ix : ℕ) → Longest token term ix → (ix == length term) ≡ ends token term
Longest-full token term ix l =
    let P = λ (b : Bool). (ix == length term) ≡ b in
    elim (Bool-cases (ends token term)) [
      | inl found ↦
          let whole : Ends token term =
            same-drop→Ends token term (length token - length term) (ground arith) in
          let full : length term ≤ ix =
            l.longest (length term) (omega arith)
              (subst (Ends token) (sym (take_all _ term (omega arith))) whole) in
          ground (arith, found, l.fits)
      | inr missed ↦ elim (Bool-cases (ix == length term)) [
        | inl full ↦
            let n : ix ≡ length term = ground arith in
            let whole : Ends token term =
              subst (Ends token) (ap (λ k. take k term) n ∙ take_all _ term (omega arith)) l.here in
            absurd (false≢true (sym missed ∙ ends-true token term whole))
        | inr short ↦ short ∙ sym missed
      ]
    ]

pub Longest-start : (term : Bytes) → Longest [] term 0
Longest-start term = record { fits = omega arith; here = ([], refl); longest = at_most }
  where
    at_most : (j : ℕ) → j ≤ length term → Ends [] (take j term) → j ≤ 0
    at_most j h e =
        let short = Ends-length [] (take j term) e in
        let all_of_it = length-take j term h in omega (arith, short, all_of_it)

-- ===== src/Loader/Field.antt =====
-- src/ploader/src/iloDataFile.cpp: the field that stands at the front of a text, as `GetToken` finds it.
use natc.Base.{
  ℕ, suc, ◌-◌, ◌≤◌, ◌<◌, ◌≡◌, refl, ap, sym, ◌∙◌, Bool, true, false, not, if◌then◌else◌, leb, [],
  ◌∷◌, ◌++◌, Bytes, length, take, arith, ◌&&◌, append_assoc, length-append,
}
use natc.Loader.Token.{Token, tfield_term, trow_term, max_token}
use natc.Loader.Overlap.{ends, ends-true}
use natc.Loader.Record.{column_size}
use natc.Loader.Split.{Piece, ended, without, split_text}

-- No terminator ends behind a byte of `todo` but its last one, which stands behind `token`.
abbrev pub is_clear : Bytes → Bytes → Bytes → Bytes → Bool
is_clear ft rt token [] = true
is_clear ft rt token (c ∷ []) = true
is_clear ft rt token (c ∷ d ∷ todo) =
    let longer = token ++ c ∷ [] in
    not (ends longer ft) && (not (ends longer rt) && is_clear ft rt longer (d ∷ todo))

-- The terminator is the one of the token.
abbrev pub IsTerm : Bytes → Bytes → Bytes → Bytes → Token → Type 0
IsTerm ft rt v term tfield_term = term ≡ ft
IsTerm ft rt v term trow_term = (term ≡ rt) × (ends (v ++ rt) ft ≡ false)
IsTerm ft rt v term _ = ⊥

-- A field's text and the terminator behind it: no terminator ends earlier, the token fits into its
-- buffer and the text into a column, and where the row ends the field's terminator does not end too.
pub record IsField (ft rt v : Bytes) (t : Token) (term : Bytes) : Type 0 where
  pub clear : is_clear ft rt [] (v ++ term) ≡ true
  pub short : length (v ++ term) < max_token
  pub narrow : length v < column_size
  pub kind : IsTerm ft rt v term t

without-append : (v term : Bytes) → without term (v ++ term) ≡ v
without-append v term = count ∙ take-append v term
  where
    take-append : (v term : Bytes) → take (length v) (v ++ term) ≡ v
    take-append [] term = refl
    take-append (c ∷ v) term = ap (◌∷◌ c) (take-append v term)

    count : without term (v ++ term) ≡ take (length v) (v ++ term)
    count =
        let same_length : length (v ++ term) - length term ≡ length v =
          omega (arith, length-append v term) in
        ap (λ n. take n (v ++ term)) same_length

-- What the last byte of the terminator gives.
last_byte :
    (ft rt v : Bytes) (t : Token) (term text : Bytes) (longer : Piece)
    → IsField ft rt v t term
    → (if leb max_token (length (v ++ term))
        then Piece.too_long (v ++ term) text
        else if ends (v ++ term) ft
        then ended tfield_term (without ft (v ++ term)) text
        else if ends (v ++ term) rt
        then ended trow_term (without rt (v ++ term)) text
        else longer)
      ≡ ended t v text
last_byte ft rt v t term text longer h = by_kind t h.kind
  where
    fits : leb max_token (length (v ++ term)) ≡ false
    fits = ground (arith, h.short)

    by_kind :
        (t : Token)
        → IsTerm ft rt v term t
        → (if leb max_token (length (v ++ term))
            then Piece.too_long (v ++ term) text
            else if ends (v ++ term) ft
            then ended tfield_term (without ft (v ++ term)) text
            else if ends (v ++ term) rt
            then ended trow_term (without rt (v ++ term)) text
            else longer)
          ≡ ended t v text
    by_kind tfield_term e =
        let whole : ends (v ++ term) ft ≡ true = ends-true (v ++ term) ft (v, ap (λ s. v ++ s) e) in
        rw (fits, whole)
          (ap (λ w. ended tfield_term w text)
            (ap (λ s. without ft (v ++ s)) e ∙ without-append v ft))
    by_kind trow_term (e, open_still) =
        let miss : ends (v ++ term) ft ≡ false = ap (λ s. ends (v ++ s) ft) e ∙ open_still in
        let whole : ends (v ++ term) rt ≡ true = ends-true (v ++ term) rt (v, ap (λ s. v ++ s) e) in
        rw (fits, miss, whole)
          (ap (λ w. ended trow_term w text) (ap (λ s. without rt (v ++ s)) e ∙ without-append v rt))
    by_kind Token.teof e = absurd e
    by_kind Token.tvalue e = absurd e

split-rest :
    (ft rt v : Bytes) (t : Token) (term token todo text : Bytes) (c : ℕ)
    → IsField ft rt v t term
    → token ++ c ∷ todo ≡ v ++ term
    → is_clear ft rt token (c ∷ todo) ≡ true
    → split_text ft rt token (c ∷ (todo ++ text)) ≡ ended t v text
unfolding split_text
split-rest ft rt v t term token [] text c h e k =
    let longer = split_text ft rt (token ++ c ∷ []) text in
    ap
      (λ (w : Bytes).
        if leb max_token (length w)
        then Piece.too_long w text
        else if ends w ft
        then ended tfield_term (without ft w) text
        else if ends w rt
        then ended trow_term (without rt w) text
        else longer)
      e
    ∙ last_byte ft rt v t term text longer h
split-rest ft rt v t term token (d ∷ todo) text c h e k =
    let assoc = append_assoc token (c ∷ []) (d ∷ todo) in
    let count : suc (length token) ≤ length (v ++ term) =
      omega (arith, ap length e, length-append token (c ∷ d ∷ todo)) in
    let fits : leb max_token (length (token ++ c ∷ [])) ≡ false =
      ground (arith, h.short, count, length-append token (c ∷ [])) in
    let ft_open : ends (token ++ c ∷ []) ft ≡ false = ground arith in
    let rt_open : ends (token ++ c ∷ []) rt ≡ false = ground arith in
    rw (fits, ft_open, rt_open)
      (split-rest ft rt v t term (token ++ c ∷ []) todo text d h (assoc ∙ e) (ground arith))

-- The first field of a text is what stands before its terminator.
pub split-field :
    (ft rt v : Bytes) (t : Token) (term text : Bytes)
    → IsField ft rt v t term
    → 0 < length term
    → split_text ft rt [] (v ++ (term ++ text)) ≡ ended t v text
split-field ft rt v t term text h pos = by_text (v ++ term) refl
  where
    whole : v ++ (term ++ text) ≡ (v ++ term) ++ text
    whole = sym (append_assoc v term text)

    by_text :
        (s : Bytes) → s ≡ v ++ term → split_text ft rt [] (v ++ (term ++ text)) ≡ ended t v text
    by_text [] e = absurd (omega (arith, ap length e, length-append v term))
    by_text (c ∷ todo) e =
        ap (split_text ft rt []) (whole ∙ ap (λ (s : Bytes). s ++ text) (sym e))
        ∙ split-rest ft rt v t term [] todo text c h e (ap (is_clear ft rt []) e ∙ h.clear)

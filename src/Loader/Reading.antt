-- ===== src/Loader/Reading.antt =====
-- src/ploader/src/iloDataFile.cpp: the rounds of `ReadOneRecord`, for a field that `GetToken` finds.
use natc.Base.{
  length, if-both, ℕ, suc, ◌<◌, ◌≡◌, refl, ap, ◌∙◌, Bool, true, false, if◌then◌else◌, ltb, [], ◌∷◌,
  Option, none, some, Bytes, arith, ◌==◌, subst, ◌⊎◌, inl, inr, lt→ltb,
}
use natc.Loader.Token.{Token, teof, tfield_term, trow_term, tvalue, DataFile, get_token}
use natc.Loader.Split.{ended, split_text, text_left, IsPlain, pending, Gives, Keeps, IsPlain-next}
use natc.Loader.Splitting.{PieceOf, get_token-Piece}
use natc.Loader.Record.{
  nts, null_data, Table, attr_count, set_attr, set_read_count, column_size, fits_column, Flags,
  pass_stamp, success, Answer, with_token, check_end, read_attrs,
}
use natc.Loader.Storing.{len_of}

-- No timestamps are added, and the format is not that of Informix.
abbrev pub plain_flags : Flags
plain_flags = record { add = false; informix = false }

pub pass_none : (t : Table) (k i : ℕ) → pass_stamp plain_flags t k i ≡ i
pass_none t k i = ground arith

-- What a call leaves: no token pending, the text behind the piece.
pub record Leaves (f : DataFile) (text : Bytes) (g : DataFile) : Type 0 where
  pub none_left : pending g ≡ none
  pub behind : text_left g ≡ text
  pub keeps : Keeps f g

ended-Gives :
    (f : DataFile) (text : Bytes) (r : Token × DataFile) (t : Token) (v rest : Bytes)
    → split_text f.field_term f.row_term [] text ≡ ended t v rest
    → PieceOf f text r
    → Gives (ended t v rest) r × Keeps f r.1
unfolding split_text
ended-Gives f [] r t v rest e h = cc
ended-Gives f (c ∷ text) r t v rest e h = (subst (λ p. Gives p r) e h.0, h.1)

pub with_token_lem :
    (f : DataFile) (next : Token → DataFile → Answer) (t : Token) (g : DataFile)
    → get_token f ≡ some (t, g)
    → with_token f next ≡ next t g
with_token_lem f next t g e =
    ap
      (λ (o : Option (Token × DataFile)). elim o [ none ↦ none | some (token, f') ↦ next token f' ])
      e

get_token-pending :
    (f : DataFile) (t : Token)
    → pending f ≡ some t
    → get_token f ≡ some (t, record f { set_next_token = false })
unfolding get_token
get_token-pending f t h = by_flag f.set_next_token refl
  where
    by_flag :
        (b : Bool)
        → f.set_next_token ≡ b
        → get_token f ≡ some (t, record f { set_next_token = false })
    by_flag true e = ground arith
    by_flag false e = ground arith

-- The rounds of the loop, without the flags.
round_null :
    (fuel i : ℕ) (t : Token) (g : DataFile) (tab : Table)
    → i < attr_count tab
    → (t ≡ tfield_term) ⊎ (t ≡ trow_term)
    → read_attrs (suc fuel) plain_flags i t g tab
      ≡ check_end plain_flags (read_attrs fuel plain_flags) i t g (set_attr i [] null_data tab)
unfolding read_attrs
round_null fuel i tfield_term g tab l k = rw (lt→ltb _ _ l) refl
round_null fuel i trow_term g tab l k = rw (lt→ltb _ _ l) refl
round_null fuel i teof g tab l (inl e) = cc
round_null fuel i teof g tab l (inr e) = cc
round_null fuel i tvalue g tab l (inl e) = cc
round_null fuel i tvalue g tab l (inr e) = cc

-- A text that fits into the smaller column fits into every one.
fits_column-narrow :
    (t : Table) (i : ℕ) (v : Bytes) → length v < column_size → fits_column t i v ≡ true
fits_column-narrow t i v l =
    if-both (λ (n : ℕ). ltb (length v) n ≡ true) (t.is_wide i) _ _
      (λ _. lt→ltb _ _ (omega (arith, l))) (λ _. lt→ltb _ _ l)

round_value :
    (fuel i : ℕ) (g : DataFile) (tab : Table)
    → i < attr_count tab
    → fits_column tab i g.token_value ≡ true
    → read_attrs (suc fuel) plain_flags i tvalue g tab
      ≡ with_token g (λ token' f'.
        check_end plain_flags
          (read_attrs fuel plain_flags)
          i
          token'
          f'
          (set_attr i g.token_value nts tab))
unfolding read_attrs
round_value fuel i g tab l fits =
    let round = λ (k : ℕ). with_token g (λ token' f'.
      check_end plain_flags (read_attrs fuel plain_flags) k token' f'
        (set_attr i g.token_value nts tab)) in
    rw (lt→ltb _ _ l, fits) (ap round (pass_none tab (suc i) i))

-- From the token on, up to the tests behind the stored attribute.
pub to_end :
    (fuel i : ℕ) (f : DataFile) (tab : Table) (t : Token) (v rest : Bytes)
    → IsPlain f
    → pending f ≡ none
    → split_text f.field_term f.row_term [] (text_left f) ≡ ended t v rest
    → (t ≡ tfield_term) ⊎ (t ≡ trow_term)
    → i < attr_count tab
    → length v < column_size
    → (g : DataFile) × ((with_token f (λ token f'. read_attrs (suc fuel) plain_flags i token f' tab)
          ≡ check_end plain_flags (read_attrs fuel plain_flags) i t g (set_attr i v (len_of v) tab))
        × Leaves f rest g)
to_end fuel i f tab t v rest p none_left e k l narrow =
    by_value v narrow (ended-Gives f _ read.0 t v rest e (read.1).1)
  where
    read : (r : Token × DataFile) × ((get_token f ≡ some r) × PieceOf f (text_left f) r)
    read = get_token-Piece f p none_left

    next : Token → DataFile → Answer
    next token f' = read_attrs (suc fuel) plain_flags i token f' tab

    got : with_token f next ≡ next (read.0).0 (read.0).1
    got = with_token_lem f next _ _ ((read.1).0)

    by_value :
        (v : Bytes)
        → length v < column_size
        → Gives (ended t v rest) read.0 × Keeps f (read.0).1
        → (g : DataFile) × ((with_token f next
              ≡ check_end plain_flags
                  (read_attrs fuel plain_flags)
                  i
                  t
                  g
                  (set_attr i v (len_of v) tab))
            × Leaves f rest g)
    by_value [] narrow ((tok, (empty, behind)), keeps) = (
      (read.0).1,
      (
        got ∙ ap (λ token. next token (read.0).1) tok ∙ round_null fuel i t (read.0).1 tab l k,
        record { none_left = empty; behind = behind; keeps = keeps },
      ),
    )
    by_value (c ∷ w) narrow ((tok, (stored, (more, behind))), keeps) =
        let f1 = (read.0).1 in
        let g = record f1 { set_next_token = false } in
        let fits = ap (fits_column tab i) stored ∙ fits_column-narrow tab i (c ∷ w) narrow in
        let (ft_kept, (rt_kept, plain)) = keeps in
        let tests = λ (w : Bytes) (token : Token) (f' : DataFile).
          check_end plain_flags (read_attrs fuel plain_flags) i token f' (set_attr i w nts tab) in
        (
          g,
          (
            got
                ∙ ap (λ token. next token f1) tok
                ∙ round_value fuel i f1 tab l fits
                ∙ with_token_lem f1 (tests f1.token_value) t g (get_token-pending f1 t more)
                ∙ ap (λ w. tests w t g) stored,
            record {
              none_left = refl;
              behind = behind;
              keeps = (ft_kept, (rt_kept, IsPlain-next f1 false f1.next_token plain));
            },
          ),
        )

-- The tests behind a stored attribute.
pub end_of_field :
    (round : ℕ → Token → DataFile → Table → Answer) (i : ℕ) (g : DataFile) (tab : Table)
    → suc i < attr_count tab
    → check_end plain_flags round i tfield_term g tab
      ≡ with_token g (λ token f'. round (suc i) token f' tab)
unfolding check_end
end_of_field round i g tab l =
    let open_still : (suc i == attr_count tab) ≡ false = ground arith in
    let next = λ (k : ℕ). with_token g (λ token f'. round (suc k) token f' tab) in
    rw open_still (
      ap (λ b. if b then next (pass_stamp plain_flags tab i i) else round (suc i) tfield_term g tab)
        (lt→ltb _ _ l)
      ∙ ap next (pass_none tab i i))

pub end_of_row :
    (round : ℕ → Token → DataFile → Table → Answer) (i : ℕ) (g : DataFile) (tab : Table)
    → suc i ≡ attr_count tab
    → check_end plain_flags round i trow_term g tab ≡ round (suc i) trow_term g tab
unfolding check_end
end_of_row round i g tab e =
    let last : (suc i == attr_count tab) ≡ true = ground arith in
    let none_left : ltb (suc i) (attr_count tab) ≡ false = ground arith in rw (last, none_left) refl

pub end_of_attrs :
    (fuel i : ℕ) (t : Token) (g : DataFile) (tab : Table)
    → i ≡ attr_count tab
    → read_attrs (suc fuel) plain_flags i t g tab
      ≡ some (success, (set_read_count (attr_count tab) tab, g))
unfolding read_attrs
end_of_attrs fuel i t g tab e =
    let none_left : ltb i (attr_count tab) ≡ false = ground arith in
    rw none_left (ap (λ n. some (success, (set_read_count n tab, g))) e)

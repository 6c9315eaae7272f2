-- ===== src/Loader/Ending.antt =====
-- src/ploader/src/iloDataFile.cpp: a terminator that ends a token without an enclosing string.
use natc.Base.{
  ℕ, zero, suc, ◌-◌, ◌≤◌, ◌<◌, ◌≡◌, refl, ap, sym, true, [], ◌∷◌, Option, none, some, Bytes, length,
  take, arith, ◌==◌, if-both, subst,
}
use natc.Loader.Token.{Token, tvalue, DataFile, Round, at_term, pend}
use natc.Loader.Overlap.{ends}
use natc.Loader.Split.{
  Piece, ended, without, text_left, IsPlain, pending, Gives, Keeps, Outcome, IsPlain-value,
  IsPlain-next,
}
use natc.Loader.Rounds.{after_round}

abbrev pub Yields : DataFile → Option (Token × DataFile) → Piece → Type 0
Yields f o piece = (r : Token × DataFile) × ((o ≡ some r) × Outcome f piece r)

-- A change that leaves the terminators and the source alone.
pub Keeps-write :
    (f : DataFile) (v : Bytes) (t : Option Token)
    → IsPlain f
    → Keeps f (record (pend t f) { token_value = v })
Keeps-write f v none h = (refl, (refl, IsPlain-value f v h))
Keeps-write f v (some t) h = (refl, (refl, IsPlain-value _ v (IsPlain-next f true t h)))

take_pos : (n : ℕ) (s : Bytes) → 0 < n → n ≤ length s → (c : ℕ) × ((v : Bytes) × (take n s ≡ c ∷ v))
take_pos zero s h l = absurd (omega (arith, h))
take_pos (suc n) [] h l = absurd (omega (arith, l))
take_pos (suc n) (c ∷ s) h l = (c, (take n s, refl))

Gives-empty :
    (t : Token) (cut text : Bytes) (f : DataFile)
    → cut ≡ []
    → pending f ≡ none
    → text_left f ≡ text
    → Gives (ended t cut text) (t, f)
Gives-empty t cut text f e p h = subst (λ v. Gives (ended t v text) (t, f)) (sym e) (refl, (p, h))

Gives-value :
    (t : Token) (cut text : Bytes) (f : DataFile)
    → (c : ℕ) × ((v : Bytes) × (cut ≡ c ∷ v))
    → text_left f ≡ text
    → Gives (ended t cut text) (tvalue, record (pend (some t) f) { token_value = cut })
Gives-value t cut text f (c, (v, e)) h =
    subst (λ v. Gives (ended t v text) (tvalue, record (pend (some t) f) { token_value = v }))
      (sym e) (refl, (refl, (refl, h)))

pub at_term-Yields :
    (fuel : ℕ) (f : DataFile) (t : Token) (term token text : Bytes) (len : ℕ)
    → len ≡ length term
    → ends token term ≡ true
    → IsPlain f
    → pending f ≡ none
    → text_left f ≡ text
    → Yields f (after_round fuel f (at_term t len token)) (ended t (without term token) text)
at_term-Yields fuel f t term token text len counted found p none_left h =
    if-both (λ (r : Round). Yields f (after_round fuel f r) (ended t (without term token) text))
      (length token == len) _ _
      (λ all_of_it.
        let nothing : length token - length term ≡ 0 = ground arith in
        (
          (t, f),
          (
            refl,
            (
              Gives-empty t (without term token) text f (ap (λ n. take n token) nothing) none_left
                  h,
              (refl, (refl, p)),
            ),
          ),
        ))
      (λ longer.
        let cut : take (length token - len) token ≡ without term token =
          ap (λ n. take (length token - n) token) counted in
        let pos = take_pos (length token - length term) token (ground arith) (omega arith) in
        (
          _,
          (
            refl,
            (
              subst
                  (λ v.
                    Gives (ended t (without term token) text)
                      (tvalue, record (pend (some t) f) { token_value = v }))
                  (sym cut) (Gives-value t (without term token) text f pos h),
              Keeps-write f _ (some t) p,
            ),
          ),
        ))

-- ===== src/Loader/Trimming.antt =====
-- src/ploader/src/iloDataFile.cpp: what `rtrim` leaves.
use natc.Base.{
  ℕ, zero, suc, ◌-◌, ◌≡◌, refl, ap, ◌∙◌, ◌==◌, if◌then◌else◌, [], ◌∷◌, Bytes, length, take,
  take_all, arith,
}
use natc.Loader.Token.{char_at}
use natc.Loader.Trim.{trim_from, rtrim}

end_char : (s : Bytes) → char_at s (length s) ≡ 0
end_char [] = refl
end_char (c ∷ s) = end_char s

stops_at_once : (n : ℕ) (s : Bytes) → n ≡ length s → trim_from n n s ≡ s
unfolding trim_from
stops_at_once zero s e = refl
stops_at_once (suc n) s e =
    let zero_there : char_at s (suc n) ≡ 0 = ap (char_at s) e ∙ end_char s in
    ap (λ m. if m == b' ' then trim_from n (suc n - 1) s else take (suc n) s) zero_there
    ∙ take_all (suc n) s (omega (arith, e))

-- No token is ever changed, whatever blanks stand at its end: the loop begins with the zero behind the
-- last byte, which is no blank.
pub rtrim_same : (s : Bytes) → rtrim s ≡ s
unfolding rtrim
rtrim_same s = stops_at_once (length s) s refl

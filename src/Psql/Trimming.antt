-- ===== src/Psql/Trimming.antt =====
-- src/psql/src/utString.cpp: what the loops over the ends of a string leave.
use natc.Base.{
  is_nil, is_nil-snoc, ℕ, zero, suc, ◌≡◌, refl, ap, sym, ◌∙◌, Bool, true, false, ◌==◌, [], ◌∷◌,
  ◌++◌, some, Bytes, length, get_elem?, take, All, All-append, arith, append_assoc, append-nil,
  if-both, elim-Option, subst,
}
use natc.Psql.Strings.{
  Cut, cut_back, cut_end, erase_front, is_space, erase_white_space, remove_last_space, is_cr,
  remove_last_cr,
}
use mathlib.Core.Bool.{false≢true}

-- A text is empty or ends in a byte that is kept.
pub data EndsKept (is_dropped : ℕ → Bool) : Bytes → Type 0 where
  nothing : EndsKept is_dropped []
  kept : (pre : Bytes) (c : ℕ) → is_dropped c ≡ false → EndsKept is_dropped (pre ++ c ∷ [])

-- The text is the string without the longest end of bytes that are dropped; the byte before the first
-- one has been read exactly when nothing is left.
pub record Trims (is_dropped : ℕ → Bool) (s : Bytes) (r : Cut) : Type 0 where
  pub tail : Bytes
  pub whole : s ≡ r.text ++ tail
  pub dropped : All (λ c. is_dropped c ≡ true) tail
  pub ends : EndsKept is_dropped r.text
  pub under : r.is_under ≡ is_nil r.text

snoc :
    (n : ℕ) (s : Bytes)
    → length s ≡ suc n
    → (c : ℕ) × ((get_elem? s n ≡ some c) × ((s ≡ take n s ++ c ∷ []) × (length (take n s) ≡ n)))
snoc n [] h = absurd (omega (arith, h))
snoc zero (c ∷ []) h = (c, (refl, (refl, refl)))
snoc zero (c ∷ d ∷ s) h = absurd (omega (arith, h))
snoc (suc n) (c ∷ s) h =
    let (d, (got, (e, l))) = snoc n s (omega (arith, h)) in (d, (got, (ap (◌∷◌ c) e, ap suc l)))

cut_back-Trims :
    (is_dropped : ℕ → Bool) (n : ℕ) (s : Bytes)
    → length s ≡ n
    → Trims is_dropped s (cut_back is_dropped n s)
unfolding cut_back
cut_back-Trims is_dropped zero [] h = record {
  tail = [];
  whole = refl;
  dropped = tt;
  ends = nothing;
  under = refl;
}
cut_back-Trims is_dropped zero (c ∷ s) h = absurd (omega (arith, h))
cut_back-Trims is_dropped (suc n) s h =
    let (c, (got, (e, l))) = snoc n s h in
    let rest = cut_back-Trims is_dropped n (take n s) l in
    let P = Trims is_dropped s in
    elim-Option P (get_elem? s n) _ _ (λ gone. cc)
      (λ d there.
        let same : c ≡ d = cc in
        if-both P (is_dropped d) _ _
          (λ yields. record {
            tail = rest.tail ++ c ∷ [];
            whole =
                e ∙ ap (λ (b : Bytes). b ++ c ∷ []) rest.whole ∙ append_assoc _ rest.tail (c ∷ []);
            dropped =
                All-append _ rest.tail (c ∷ []) rest.dropped (ap is_dropped same ∙ yields, tt);
            ends = rest.ends;
            under = rest.under;
          })
          (λ stays. record {
            tail = [];
            whole = sym (append-nil s);
            dropped = tt;
            ends =
                subst (EndsKept is_dropped) (sym e)
                  (kept (take n s) c (ap is_dropped same ∙ stays));
            under = sym (ap is_nil e ∙ is_nil-snoc (take n s) c);
          }))

-- A string that is not empty keeps its bytes up to the last one that is no space. Where there is none
-- nothing is left, and exactly then the loop has read the byte before the string.
pub remove_last_space-Trims :
    (c : ℕ) (s : Bytes) → Trims is_space (c ∷ s) (remove_last_space (c ∷ s))
unfolding remove_last_space cut_end
remove_last_space-Trims c s = cut_back-Trims is_space (length (c ∷ s)) (c ∷ s) refl

-- A string that is not empty keeps its bytes up to the last one that is neither an end of line nor a
-- tabulator. Where there is none nothing is left, and exactly then the loop has read the byte before
-- the string.
pub remove_last_cr-Trims : (c : ℕ) (s : Bytes) → Trims is_cr (c ∷ s) (remove_last_cr (c ∷ s))
unfolding remove_last_cr cut_end
remove_last_cr-Trims c s = cut_back-Trims is_cr (length (c ∷ s)) (c ∷ s) refl

-- A text is empty or begins with a byte that is no space.
abbrev pub StartsKept : Bytes → Type 0
StartsKept [] = Unit {0}
StartsKept (c ∷ s) = is_space c ≡ false

-- The text is the string without the spaces at both ends, and nothing before the string is read.
pub record Erases (s : Bytes) (r : Cut) : Type 0 where
  pub front : Bytes
  pub tail : Bytes
  pub whole : s ≡ front ++ (r.text ++ tail)
  pub front_spaces : All (λ c. is_space c ≡ true) front
  pub tail_spaces : All (λ c. is_space c ≡ true) tail
  pub starts : StartsKept r.text
  pub ends : EndsKept is_space r.text
  pub under : r.is_under ≡ false

erase_front-Starts :
    (s : Bytes)
    → (front : Bytes) × ((s ≡ front ++ erase_front s)
        × (All (λ c. is_space c ≡ true) front × StartsKept (erase_front s)))
unfolding erase_front
erase_front-Starts [] = ([], (refl, (tt, tt)))
erase_front-Starts (c ∷ s) =
    let (front, (e, (spaces, starts))) = erase_front-Starts s in
    if-both
      (λ (t : Bytes).
        (front : Bytes) × ((c ∷ s ≡ front ++ t)
          × (All (λ c. is_space c ≡ true) front × StartsKept t)))
      (c == b' ') _ _ (λ yields. (c ∷ front, (ap (◌∷◌ c) e, ((yields, spaces), starts))))
      (λ stays. ([], (refl, (tt, stays))))

-- Where the first byte is kept the loop stops at it at the latest.
starts-kept :
    (c : ℕ) (s text tail : Bytes)
    → is_space c ≡ false
    → c ∷ s ≡ text ++ tail
    → All (λ c. is_space c ≡ true) tail
    → (is_nil text ≡ false) × StartsKept text
starts-kept c s [] [] k e a = cc
starts-kept c s [] (d ∷ tail) k e a =
    let same : c ≡ d = cc in absurd (false≢true (sym k ∙ ap is_space same ∙ a.0))
starts-kept c s (d ∷ text) tail k e a = let same : d ≡ c = cc in (refl, ap is_space same ∙ k)

-- The string without the spaces at its front.
cut_end-Erases :
    (s t front : Bytes)
    → s ≡ front ++ t
    → All (λ c. is_space c ≡ true) front
    → StartsKept t
    → Erases s (cut_end is_space t)
unfolding cut_end
cut_end-Erases s [] front e a k = record {
  front = front;
  tail = [];
  whole = e;
  front_spaces = a;
  tail_spaces = tt;
  starts = tt;
  ends = nothing;
  under = refl;
}
cut_end-Erases s (c ∷ t) front e a k =
    let r = cut_back-Trims is_space (length (c ∷ t)) (c ∷ t) refl in
    let (left, starts) = starts-kept c t _ r.tail k r.whole r.dropped in
    record {
      front = front;
      tail = r.tail;
      whole = e ∙ ap (λ (b : Bytes). front ++ b) r.whole;
      front_spaces = a;
      tail_spaces = r.dropped;
      starts = starts;
      ends = r.ends;
      under = r.under ∙ left;
    }

-- The spaces at both ends are removed and all else stays; the byte before the string is never read,
-- since what the first loop leaves is empty or begins with a byte that stops the second one.
pub erase_white_space-Erases : (s : Bytes) → Erases s (erase_white_space s)
unfolding erase_white_space
erase_white_space-Erases s =
    let (front, (e, (a, k))) = erase_front-Starts s in cut_end-Erases s (erase_front s) front e a k

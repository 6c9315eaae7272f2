-- ===== src/Loader/Ends.antt =====
-- src/ploader/src/iloDataFile.cpp: texts that end with a text, and the test of the loop of `GetToken` on
-- the last bytes.
use natc.Base.{
  take-drop, ℕ, zero, suc, ◌-◌, ◌≤◌, ◌<◌, ◌≡◌, refl, ap, sym, ◌∙◌, true, [], ◌∷◌, ◌++◌, Bytes,
  length, take, drop, All, same, same→eq, same_self, arith, append_assoc, length-append,
}
use natc.Loader.Token.{char_at}

-- A text ends with another one.
abbrev pub Ends : Bytes → Bytes → Type 0
Ends s p = (a : Bytes) × (s ≡ a ++ p)

-- The bytes of a terminator are no negative characters.
abbrev pub IsAscii : Bytes → Type 0
IsAscii s = All (λ c. c < 128) s

pub snoc-injective : (a b : Bytes) (c d : ℕ) → a ++ c ∷ [] ≡ b ++ d ∷ [] → (a ≡ b) × (c ≡ d)
snoc-injective [] [] c d e = (refl, cc)
snoc-injective [] (x ∷ []) c d e = cc
snoc-injective [] (x ∷ y ∷ b) c d e = cc
snoc-injective (x ∷ []) [] c d e = cc
snoc-injective (x ∷ y ∷ a) [] c d e = cc
snoc-injective (x ∷ a) (y ∷ b) c d e =
    let behind : a ++ c ∷ [] ≡ b ++ d ∷ [] = cc in
    let front : x ≡ y = cc in let (same, last) = snoc-injective a b c d behind in (cc, last)

pub Ends-snoc : (s p : Bytes) (c : ℕ) → Ends s p → Ends (s ++ c ∷ []) (p ++ c ∷ [])
Ends-snoc s p c (a, e) = (a, ap (λ (t : Bytes). t ++ c ∷ []) e ∙ append_assoc a p (c ∷ []))

pub Ends-unsnoc : (s p : Bytes) (c d : ℕ) → Ends (s ++ c ∷ []) (p ++ d ∷ []) → Ends s p × (c ≡ d)
Ends-unsnoc s p c d (a, e) =
    let (front, last) = snoc-injective s (a ++ p) c d (e ∙ sym (append_assoc a p (d ∷ []))) in
    ((a, front), last)

-- The next byte of a terminator.
pub take_next :
    (k : ℕ) (term : Bytes)
    → IsAscii term
    → k < length term
    → (d : ℕ) × ((char_at term k ≡ d) × ((take (suc k) term ≡ take k term ++ d ∷ []) × (d < 128)))
take_next k [] h l = absurd (omega (arith, l))
take_next zero (c ∷ term) h l = (c, (refl, (refl, h.0)))
take_next (suc k) (c ∷ term) h l =
    let (d, (got, (e, small))) = take_next k term h.1 (omega (arith, l)) in
    (d, (got, (ap (◌∷◌ c) e, small)))

pub length-take : (n : ℕ) (s : Bytes) → n ≤ length s → length (take n s) ≡ n
length-take zero s h = refl
length-take (suc n) [] h = absurd (omega (arith, h))
length-take (suc n) (c ∷ s) h = ap suc (length-take n s (omega (arith, h)))

drop-append : (a p : Bytes) → drop (length a) (a ++ p) ≡ p
drop-append [] p = refl
drop-append (c ∷ a) p = drop-append a p

-- The test on the last bytes, against a text of their number.
pub same-drop→Ends : (s p : Bytes) (n : ℕ) → same (drop n s) p ≡ true → Ends s p
same-drop→Ends s p n h =
    (take n s, sym (take-drop n s) ∙ ap (λ (t : Bytes). take n s ++ t) (same→eq _ _ h))

pub Ends→same-drop : (s p : Bytes) → Ends s p → same (drop (length s - length p) s) p ≡ true
Ends→same-drop s p (a, e) =
    let count : length s - length p ≡ length a = omega (arith, ap length e, length-append a p) in
    ap (λ n. same (drop n s) p) count
    ∙ ap (λ (t : Bytes). same (drop (length a) t) p) e
    ∙ ap (λ (t : Bytes). same t p) (drop-append a p)
    ∙ same_self p

pub Ends-length : (s p : Bytes) → Ends s p → length p ≤ length s
Ends-length s p (a, e) = omega (arith, ap length e, length-append a p)

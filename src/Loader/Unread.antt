-- ===== src/Loader/Unread.antt =====
-- The buffer in front of a data file: what is read is the file, byte by byte.
use natc.Base.{
  Bool, not, ◌&&◌, take-drop, All, append-nil, ℕ, zero, suc, ◌≤◌, ◌<◌, ◌≡◌, refl, ap, sym, ◌∙◌,
  true, false, ◌==◌, if◌then◌else◌, [], ◌∷◌, ◌++◌, Option, none, some, Bytes, length, get_elem?,
  take, drop, arith, if-both, ==→eq, subst,
}
use natc.Loader.Source.{Source, read_len, refill, get_char, is_return, read_char}

abbrev pub head? : Bytes → Option ℕ
head? [] = none
head? (c ∷ s) = some c

abbrev pub tail : Bytes → Bytes
tail [] = []
tail (c ∷ s) = s

-- The bytes of the file that are still to come.
abbrev pub unread : Source → Bytes
unread s = drop s.pos s.buffer ++ s.rest

abbrev pub IsSource : Source → Type 0
IsSource s = s.pos ≤ length s.buffer

-- A read gives the first byte of the bytes to come, and the others are to come after it.
pub record Reads (text : Bytes) (r : Option ℕ × Source) : Type 0 where
  pub first : r.0 ≡ head? text
  pub others : unread r.1 ≡ tail text
  pub valid : IsSource r.1

drop_end : (s : Bytes) → drop (length s) s ≡ []
drop_end [] = refl
drop_end (c ∷ s) = drop_end s

at_drop :
    (n : ℕ) (s : Bytes)
    → n < length s
    → (c : ℕ) × ((get_elem? s n ≡ some c) × (drop n s ≡ c ∷ drop (suc n) s))
at_drop n [] h = absurd (omega (arith, h))
at_drop zero (c ∷ s) h = (c, (refl, refl))
at_drop (suc n) (c ∷ s) h = at_drop n s (omega (arith, h))

refill-Reads :
    (b rest text : Bytes) → b ++ rest ≡ text → (b ≡ [] → text ≡ []) → Reads text (refill b rest)
refill-Reads [] rest text e none_left =
    let empty = none_left refl in
    record {
      first = sym (ap head? empty);
      others = e ∙ (empty ∙ sym (ap tail empty));
      valid = omega arith;
    }
refill-Reads (c ∷ b) rest text e none_left = record {
  first = ap head? e;
  others = ap tail e;
  valid = omega arith;
}

no_take : (n : ℕ) (s : Bytes) → take (suc n) s ≡ [] → s ≡ []
no_take n [] h = refl
no_take n (c ∷ s) h = cc

-- `GetChar` gives the bytes of the file one after the other, whatever lies in the buffer.
pub get_char-Reads : (s : Source) → IsSource s → Reads (unread s) (get_char s)
unfolding get_char
get_char-Reads s h =
    if-both (Reads (unread s)) (s.pos == length s.buffer) _ _
      (λ used.
        let at_end : drop s.pos s.buffer ≡ [] =
          ap (λ n. drop n s.buffer) (==→eq _ _ used) ∙ drop_end s.buffer in
        let left : unread s ≡ s.rest = ap (λ (b : Bytes). b ++ s.rest) at_end in
        refill-Reads _ _ _ (take-drop read_len s.rest ∙ sym left)
          (λ nothing. left ∙ no_take 8191 s.rest nothing))
      (λ more.
        let (c, (got, e)) = at_drop s.pos s.buffer (ground arith) in
        let whole : unread s ≡ c ∷ (drop (suc s.pos) s.buffer ++ s.rest) =
          ap (λ (b : Bytes). b ++ s.rest) e in
        record {
          first = got ∙ sym (ap head? whole);
          others = sym (ap tail whole);
          valid = ground arith;
        })

-- A text without the carriage returns that the tokenizer leaves out.
abbrev pub dos : Bytes → Bytes
dos [] = []
dos (c ∷ []) = if c == 13 then [] else c ∷ []
dos (c ∷ d ∷ s) = if c == 13 then d ∷ dos s else c ∷ dos (d ∷ s)

-- The same for the bytes with the carriage returns left out.
pub record ReadsText (text : Bytes) (r : Option ℕ × Source) : Type 0 where
  pub first : r.0 ≡ head? (dos text)
  pub others : dos (unread r.1) ≡ tail (dos text)
  pub valid : IsSource r.1

after_return :
    (c : ℕ) (text : Bytes) (r : Option ℕ × Source)
    → (c == 13) ≡ true
    → Reads text r
    → ReadsText (c ∷ text) r
after_return c [] r e h = record {
  first = rw e h.first;
  others = rw e (ap dos h.others);
  valid = h.valid;
}
after_return c (d ∷ text) r e h = record {
  first = rw e h.first;
  others = rw e (ap dos h.others);
  valid = h.valid;
}

not_return :
    (c : ℕ) (text : Bytes) (r : Option ℕ × Source)
    → (c == 13) ≡ false
    → Reads (c ∷ text) r
    → ReadsText (c ∷ text) r
not_return c [] r e h = record {
  first = rw e h.first;
  others = rw e (ap dos h.others);
  valid = h.valid;
}
not_return c (d ∷ text) r e h = record {
  first = rw e h.first;
  others = rw e (ap dos h.others);
  valid = h.valid;
}

read_after :
    (text : Bytes) (r : Option ℕ × Source)
    → Reads text r
    → ReadsText text (if is_return r.0 then get_char r.1 else r)
read_after [] (none, s) h = record { first = refl; others = ap dos h.others; valid = h.valid }
read_after [] (some c, s) h = absurd (cc (h.first))
read_after (c ∷ text) (none, s) h = absurd (cc (h.first))
read_after (c ∷ text) (some d, s) h =
    let same : d ≡ c = cc in
    if-both (ReadsText (c ∷ text)) (d == 13) _ _
      (λ hit.
        after_return c text (get_char s) (ap (λ n. n == 13) (sym same) ∙ hit)
          (subst (λ t. Reads t (get_char s)) h.others (get_char-Reads s h.valid)))
      (λ miss. not_return c text (some d, s) (ap (λ n. n == 13) (sym same) ∙ miss) h)

-- What the tokenizer reads is the file without the carriage returns, one byte after the other.
pub read_char-ReadsText : (s : Source) → IsSource s → ReadsText (unread s) (read_char s)
unfolding read_char
read_char-ReadsText s h = read_after (unread s) (get_char s) (get_char-Reads s h)

-- Without a carriage return nothing is dropped.
abbrev pub HasNoReturn : Bytes → Type 0
HasNoReturn s = All (λ c. (c == 13) ≡ false) s

pub dos-append : (a b : Bytes) → HasNoReturn a → dos (a ++ b) ≡ a ++ dos b
dos-append [] b h = refl
dos-append (c ∷ []) [] h = rw (h.0) refl
dos-append (c ∷ []) (d ∷ b) h = rw (h.0) refl
dos-append (c ∷ d ∷ a) b h = rw (h.0) (ap (◌∷◌ c) (dos-append (d ∷ a) b h.1))

pub dos-same : (a : Bytes) → HasNoReturn a → dos a ≡ a
dos-same a h = ap dos (sym (append-nil a)) ∙ dos-append a [] h ∙ append-nil a

-- The test for it.
abbrev pub is_solid : Bytes → Bool
is_solid [] = true
is_solid (c ∷ s) = not (c == 13) && is_solid s

pub is_solid-HasNoReturn : (s : Bytes) → is_solid s ≡ true → HasNoReturn s
is_solid-HasNoReturn [] h = tt
is_solid-HasNoReturn (c ∷ s) h = (ground arith, is_solid-HasNoReturn s (ground arith))

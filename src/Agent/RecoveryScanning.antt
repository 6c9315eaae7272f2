-- ===== src/Agent/RecoveryScanning.antt =====
-- src/ats2/recpointManager.cpp: a line of the list of recovery points is scanned.
use natc.Base.{
  All-append, ℕ, zero, suc, ◌+◌, ◌-◌, ◌*◌, ◌/◌, ◌%◌, ◌^◌, ◌<◌, ◌≤◌, ◌≡◌, refl, ap, ◌∙◌, true, false,
  ◌==◌, if◌then◌else◌, ltb, [], ◌∷◌, ◌++◌, none, some, Bytes, is_nil, length, ◌>>=◌, All, arith,
  append_assoc, lt→ltb, Bool-cases, inl, inr,
}
use natc.Agent.RecoveryFile.{
  ScanBuffers, line_size, word_size, is_white, is_digit, skip_white, take_word, scan_string,
  take_digits, scan_signed, scan_int, scan_point, scan_id, scan_number, scan_file, copy_word,
  digits,
}

-- A word that fits into a buffer.
pub record IsWord (w : Bytes) : Type 0 where
  pub solid : All (λ c. is_white c ≡ false) w
  pub no_zero : All (λ c. 0 < c) w
  pub some_byte : is_nil w ≡ false
  pub short : length w < word_size

take_word-append :
    (w : Bytes) (c : ℕ) (s : Bytes)
    → All (λ d. is_white d ≡ false) w
    → is_white c ≡ true
    → take_word (w ++ c ∷ s) ≡ (w, c ∷ s)
take_word-append [] c s h k = rw k refl
take_word-append (d ∷ w) c s (e, h) k = rw (e, take_word-append w c s h k) refl

skip_white-word :
    (w s : Bytes)
    → All (λ d. is_white d ≡ false) w
    → is_nil w ≡ false
    → skip_white (w ++ s) ≡ w ++ s
skip_white-word [] s h k = cc
skip_white-word (d ∷ w) s (e, h) k = rw e refl

skip_white-space : (s : Bytes) → skip_white (b' ' ∷ s) ≡ skip_white s
skip_white-space s = refl

-- A word with a white byte behind it.
scan_string-word :
    (w : Bytes) (c : ℕ) (s : Bytes)
    → IsWord w
    → is_white c ≡ true
    → scan_string (w ++ c ∷ s) ≡ some (w, c ∷ s)
scan_string-word w c s h k =
    ap
      (λ (text : Bytes).
        let (v, rest) = take_word text in if is_nil v then none else some (v, rest))
      (skip_white-word w (c ∷ s) h.solid h.some_byte)
    ∙ ap (λ (r : Bytes × Bytes). if is_nil r.0 then none else some (r.0, r.1))
        (take_word-append w c s h.solid k)
    ∙ ap (λ b. if b then none else some (w, c ∷ s)) h.some_byte

-- The digits of a number are read back.
digit_back : (d : ℕ) → d < 10 → is_digit (b'0' + d) ≡ true
digit_back d l = ground arith

take_digits-digits :
    (fuel n : ℕ) (s : Bytes) → n < fuel → take_digits 0 (digits fuel n ++ s) ≡ take_digits n s
take_digits-digits zero n s l = absurd (omega (arith, l))
take_digits-digits (suc fuel) n s l = elim (Bool-cases (ltb n 10)) [
  | inl small ↦
      let below : n < 10 = ground arith in
      let value : 0 * 10 + ((b'0' + n) - b'0') ≡ n = omega arith in
      rw (small, digit_back n below) (ap (λ m. take_digits m s) value)
  | inr large ↦
      let some_left : 10 ≤ n = ground arith in
      let d = n % 10 in
      let below : d < 10 = omega arith in
      let value : n / 10 * 10 + ((b'0' + d) - b'0') ≡ n = omega arith in
      let split = append_assoc (digits fuel (n / 10)) ((b'0' + d) ∷ []) s in
      rw large (
        ap (take_digits 0) split
        ∙ take_digits-digits fuel (n / 10) ((b'0' + d) ∷ s) (omega (arith, some_left, l))
        ∙ rw (digit_back d below) (ap (λ m. take_digits m s) value))
]

abbrev FirstDigit : Bytes → Type 0
FirstDigit [] = ⊥
FirstDigit (c ∷ s) = is_digit c ≡ true

pub digits-solid : (fuel n : ℕ) → All (λ c. is_white c ≡ false) (digits fuel n)
digits-solid zero n = tt
digits-solid (suc fuel) n = elim (Bool-cases (ltb n 10)) [
  | inl small ↦
      let below : n < 10 = ground arith in
      let solid : is_white (b'0' + n) ≡ false = ground arith in rw small (solid, tt)
  | inr large ↦
      let d = n % 10 in
      let solid : is_white (b'0' + d) ≡ false = ground arith in
      rw large (
        All-append (λ c. is_white c ≡ false) (digits fuel (n / 10)) _ (digits-solid fuel (n / 10))
          (solid, tt))
]

FirstDigit-append : (s t : Bytes) → FirstDigit s → FirstDigit (s ++ t)
FirstDigit-append [] t h = absurd h
FirstDigit-append (c ∷ s) t h = h

digits-FirstDigit : (fuel n : ℕ) → n < fuel → FirstDigit (digits fuel n)
digits-FirstDigit zero n l = absurd (omega (arith, l))
digits-FirstDigit (suc fuel) n l = elim (Bool-cases (ltb n 10)) [
  | inl small ↦ let below : n < 10 = ground arith in rw small (digit_back n below)
  | inr large ↦
      let some_left : 10 ≤ n = ground arith in
      rw large (
        FirstDigit-append (digits fuel (n / 10)) _
          (digits-FirstDigit fuel (n / 10) (omega (arith, some_left, l))))
]

scan_int-FirstDigit :
    (s : Bytes)
    → FirstDigit s
    → scan_int s ≡ (let (n, rest) = take_digits 0 s in some (n % 2 ^ 32, rest))
scan_int-FirstDigit [] h = absurd h
scan_int-FirstDigit (c ∷ s) h =
    let solid : is_white c ≡ false = ground arith in
    let no_minus : (c == b'-') ≡ false = ground arith in
    let no_plus : (c == b'+') ≡ false = ground arith in
    let kept : skip_white (c ∷ s) ≡ c ∷ s = rw solid refl in
    ap scan_signed kept ∙ rw (no_minus, no_plus, h) refl

pub scan_int-digits :
    (n : ℕ) (s : Bytes) → n < 2 ^ 32 → scan_int (digits (suc n) n ++ b' ' ∷ s) ≡ some (n, b' ' ∷ s)
scan_int-digits n s l =
    let text = digits (suc n) n ++ b' ' ∷ s in
    let first =
      FirstDigit-append (digits (suc n) n) (b' ' ∷ s) (digits-FirstDigit (suc n) n (omega arith)) in
    let wraps : n % 2 ^ 32 ≡ n = omega (arith, l) in
    scan_int-FirstDigit text first
    ∙ ap (λ (r : ℕ × Bytes). some (r.0 % 2 ^ 32, r.1))
        (take_digits-digits (suc n) n (b' ' ∷ s) (omega arith))
    ∙ ap (λ m. some (m, b' ' ∷ s)) wraps

copy_word-word : (w : Bytes) → IsWord w → copy_word w ≡ some w
copy_word-word w h = ap (λ b. if b then some w else none) (lt→ltb _ _ h.short)

-- A line of the list: a file name, a line number and the id of the point.
pub record Entry : Type 0 where
  pub file : Bytes
  pub number : ℕ
  pub id : Bytes

abbrev pub entry_line : Entry → Bytes
entry_line e = e.file ++ b' ' ∷ (digits (suc e.number) e.number ++ b' ' ∷ (e.id ++ 10 ∷ []))

pub record IsEntry (e : Entry) : Type 0 where
  pub file_word : IsWord e.file
  pub id_word : IsWord e.id
  pub in_int : e.number < 2 ^ 31
  pub fits_line : length (entry_line e) < line_size

abbrev pub entry_buffers : Entry → ScanBuffers
entry_buffers e = record { file_name = e.file; line = e.number; point_id = e.id }

pub scan_point-entry_line :
    (e : Entry) (b : ScanBuffers) → IsEntry e → scan_point (entry_line e) b ≡ some (entry_buffers e)
unfolding scan_point
scan_point-entry_line e b h =
    let id_text = e.id ++ 10 ∷ [] in
    let number_text = digits (suc e.number) e.number ++ b' ' ∷ id_text in
    let below : e.number < 2 ^ 32 = omega (arith, h.in_int) in
    let b1 = record b { file_name = e.file } in
    let b2 = record b1 { line = e.number } in
    ap (scan_file b) (scan_string-word e.file b' ' number_text h.file_word refl)
    ∙ ap (λ o. o >>= λ file. scan_number (record b { file_name = file }) (scan_int number_text))
        (copy_word-word e.file h.file_word)
    ∙ ap (scan_number b1) (scan_int-digits e.number id_text below)
    ∙ ap (scan_id b2) (scan_string-word e.id 10 [] h.id_word refl)
    ∙ ap (λ o. o >>= λ id. some (record b2 { point_id = id })) (copy_word-word e.id h.id_word)

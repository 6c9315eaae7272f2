-- ===== src/CaseManager/Scanning.antt =====
-- src/atsclnt/caseManager.cpp: the lines that `CaseManager::load` reads back as they were written.
use natc.Base.{
  ℕ, ◌+◌, ◌≡◌, refl, ap, sym, ◌∙◌, Bool, true, false, ◌==◌, if◌then◌else◌, [], ◌∷◌, ◌++◌, Bytes,
  length, length-append, arith, All, append_assoc, append-nil,
}
use natc.CaseManager.State.{Mark, not_runable, plat_on, plat_off}
use natc.CaseManager.Line.{
  Scan, set_byte, put, Mode, first, plain, bracket, inside, closed, remark, text_byte, any_byte,
  scan_byte, scan_bytes, scan_line,
}
use natc.CaseManager.Printing.{
  is_text, Where, unnamed, on, off, Said, print_place, print_text, print, IsName, IsPlace,
  IsPrintable, placed_flag, placed_name,
}

set_byte-length : (c : ℕ) (bs : Bytes) → set_byte (length bs) c bs ≡ bs ++ c ∷ []
unfolding set_byte
set_byte-length c [] = refl
set_byte-length c (b ∷ bs) = ap (◌∷◌ b) (set_byte-length c bs)

-- The walk with these values so far, at the end of the text.
abbrev at : Mark → ℕ → Bytes → Bytes → Bytes → Scan
at mark flag platform comment line = record {
  mark = mark;
  flag = flag;
  platform = platform;
  comment = comment;
  line = line;
  pos = length line;
}

put-at :
    (c : ℕ) (mark : Mark) (flag : ℕ) (platform comment line : Bytes)
    → put c (at mark flag platform comment line) ≡ at mark flag platform comment (line ++ c ∷ [])
put-at c mark flag platform comment line =
    let len : length line + 1 ≡ length (line ++ c ∷ []) =
      omega (arith, length-append line (c ∷ [])) in
    rw (set_byte-length c line, len)

plain-text : (c : ℕ) (s : Scan) → is_text c ≡ true → scan_byte plain c s ≡ (plain, put c s)
unfolding scan_byte any_byte text_byte
plain-text c s h = ground arith

first-text :
    (c : ℕ) (s : Scan)
    → is_text c ≡ true
    → c == b'-' ≡ false
    → scan_byte first c s ≡ (plain, put c s)
unfolding scan_byte any_byte text_byte
first-text c s h k = ground arith

closed-text : (c : ℕ) (s : Scan) → is_text c ≡ true → scan_byte closed c s ≡ (plain, put c s)
unfolding scan_byte text_byte
closed-text c s h = ground arith

remark-byte :
    (c : ℕ) (s : Scan)
    → c == 10 ≡ false
    → scan_byte remark c s ≡ (remark, record s { comment = s.comment ++ c ∷ [] })
unfolding scan_byte
remark-byte c s h = ground arith

inside-byte :
    (c : ℕ) (s : Scan)
    → c == b']' ≡ false
    → scan_byte inside c s ≡ (inside, record s { platform = s.platform ++ c ∷ [] })
unfolding scan_byte
inside-byte c s h = ground arith

bracket-byte :
    (c : ℕ) (s : Scan)
    → c == b'^' ≡ false
    → scan_byte bracket c s ≡ (inside, record s { flag = plat_off; platform = c ∷ [] })
unfolding scan_byte
bracket-byte c s h = ground arith

module _ (mark : Mark) (flag : ℕ) (platform : Bytes) where
  scan_remark :
      (cs comment line : Bytes)
      → All (λ c. c == 10 ≡ false) cs
      → scan_bytes remark (cs ++ 10 ∷ []) (at mark flag platform comment line)
        ≡ at mark flag platform (comment ++ cs) line
  unfolding scan_bytes scan_byte
  scan_remark [] comment line a =
      ap (λ (b : Bytes). at mark flag platform b line) (sym (append-nil comment))
  scan_remark (c ∷ cs) comment line a =
      let regroup = append_assoc comment (c ∷ []) cs in
      let s = at mark flag platform comment line in
      ap (λ (r : Mode × Scan). scan_bytes r.0 (cs ++ 10 ∷ []) r.1) (remark-byte c s a.0)
      ∙ scan_remark cs (comment ++ c ∷ []) line a.1
      ∙ ap (λ (b : Bytes). at mark flag platform b line) regroup

  scan_text :
      (cs rest line : Bytes)
      → All (λ c. is_text c ≡ true) cs
      → scan_bytes plain (cs ++ rest) (at mark flag platform [] line)
        ≡ scan_bytes plain rest (at mark flag platform [] (line ++ cs))
  unfolding scan_bytes
  scan_text [] rest line a =
      ap (λ (b : Bytes). scan_bytes plain rest (at mark flag platform [] b)) (sym (append-nil line))
  scan_text (c ∷ cs) rest line a =
      let s = at mark flag platform [] line in
      ap (λ (r : Mode × Scan). scan_bytes r.0 (cs ++ rest) r.1) (plain-text c s a.0)
      ∙ ap (scan_bytes plain (cs ++ rest)) (put-at c mark flag platform [] line)
      ∙ scan_text cs rest (line ++ c ∷ []) a.1
      ∙ ap (λ (b : Bytes). scan_bytes plain rest (at mark flag platform [] b))
          (append_assoc line (c ∷ []) cs)

  -- From the second byte of the text on.
  scan_tail :
      (d : Said)
      → IsPrintable d
      → scan_bytes plain
          (d.tail ++ (b'#' ∷ (d.comment ++ (10 ∷ []))))
          (at mark flag platform [] (d.head ∷ []))
        ≡ at mark flag platform (b'#' ∷ d.comment) (d.head ∷ d.tail)
  unfolding scan_bytes scan_byte any_byte text_byte
  scan_tail d p =
      scan_text d.tail (b'#' ∷ (d.comment ++ 10 ∷ [])) (d.head ∷ []) p.text.1
      ∙ scan_remark d.comment (b'#' ∷ []) (d.head ∷ d.tail) p.comment

  -- The text and the comment, behind whatever may stand before them.
  scan_said :
      (mode : Mode) (d : Said)
      → IsPrintable d
      → scan_byte mode d.head (at mark flag platform [] [])
        ≡ (plain, put d.head (at mark flag platform [] []))
      → scan_bytes mode (print_text d) (at mark flag platform [] [])
        ≡ at mark flag platform (b'#' ∷ d.comment) (d.head ∷ d.tail)
  unfolding scan_bytes set_byte
  scan_said mode d p h =
      ap (λ (r : Mode × Scan). scan_bytes r.0 (d.tail ++ (b'#' ∷ (d.comment ++ (10 ∷ [])))) r.1) h
      ∙ scan_tail d p

  scan_inside :
      (name rest sofar : Bytes)
      → IsName name
      → scan_bytes inside (name ++ b']' ∷ rest) (at mark flag sofar [] [])
        ≡ scan_bytes closed rest (at mark flag (sofar ++ name) [] [])
  unfolding scan_bytes scan_byte
  scan_inside [] rest sofar a =
      ap (λ (b : Bytes). scan_bytes closed rest (at mark flag b [] [])) (sym (append-nil sofar))
  scan_inside (c ∷ name) rest sofar a =
      let s = at mark flag sofar [] [] in
      ap (λ (r : Mode × Scan). scan_bytes r.0 (name ++ b']' ∷ rest) r.1) (inside-byte c s a.0)
      ∙ scan_inside name rest (sofar ++ c ∷ []) a.1
      ∙ ap (λ (b : Bytes). scan_bytes closed rest (at mark flag b [] []))
          (append_assoc sofar (c ∷ []) name)

-- Behind the sign of a disabled line, if there is one.
scan_place :
    (mode : Mode) (place : Where) (mark : Mark) (flag : ℕ) (platform : Bytes) (d : Said)
    → IsPrintable d
    → IsPlace place
    → scan_byte mode d.head (at mark flag platform [] [])
      ≡ (plain, put d.head (at mark flag platform [] []))
    → scan_byte mode b'[' (at mark flag platform [] []) ≡ (bracket, at mark flag [] [] [])
    → scan_bytes mode (print_place place (print_text d)) (at mark flag platform [] [])
      ≡ at mark
          (placed_flag place flag)
          (placed_name place platform)
          (b'#' ∷ d.comment)
          (d.head ∷ d.tail)
unfolding scan_bytes scan_byte
scan_place mode unnamed mark flag platform d p q text opens =
    scan_said mark flag platform mode d p text
scan_place mode (on c name) mark flag platform d p q text opens =
    let rest = print_text d in
    ap (λ (r : Mode × Scan). scan_bytes r.0 (c ∷ name ++ b']' ∷ rest) r.1) opens
    ∙ ap (λ (r : Mode × Scan). scan_bytes r.0 (name ++ b']' ∷ rest) r.1)
        (bracket-byte c (at mark flag [] [] []) q.0)
    ∙ scan_inside mark plat_off [] name rest (c ∷ []) q.1
    ∙ scan_said mark plat_off (c ∷ name) closed d p
        (closed-text d.head (at mark plat_off (c ∷ name) [] []) p.text.0)
scan_place mode (off name) mark flag platform d p q text opens =
    let rest = print_text d in
    ap (λ (r : Mode × Scan). scan_bytes r.0 (b'^' ∷ name ++ b']' ∷ rest) r.1) opens
    ∙ scan_inside mark plat_on [] name rest [] q
    ∙ scan_said mark plat_on name closed d p
        (closed-text d.head (at mark plat_on name [] []) p.text.0)

-- With or without the sign of a disabled line.
scan_sign :
    (is_disabled : Bool) (d : Said) (mark : Mark) (flag : ℕ) (platform : Bytes)
    → IsPrintable d
    → (let rest = print_place d.place (print_text d) in
        scan_line mark flag platform (if is_disabled then b'#' ∷ rest else rest)
        ≡ at
            (if is_disabled then not_runable else mark)
            (placed_flag d.place flag)
            (placed_name d.place platform)
            (b'#' ∷ d.comment)
            (d.head ∷ d.tail))
unfolding scan_line scan_bytes scan_byte any_byte
scan_sign true d mark flag platform p =
    scan_place plain d.place not_runable flag platform d p p.place (plain-text d.head _ p.text.0)
      refl
scan_sign false d mark flag platform p =
    scan_place first d.place mark flag platform d p p.place (first-text d.head _ p.text.0 p.no_dash)
      refl

-- A line is read back as it was written: whether it is disabled, the text and the comment always;
-- the platform and its sign where the line names one, and those of an earlier line where it does
-- not. Texts hold no blank, bracket, comment sign or end of line, and start with no dash.
pub scan_line-print :
    (d : Said) (mark : Mark) (flag : ℕ) (platform : Bytes)
    → IsPrintable d
    → scan_line mark flag platform (print d)
      ≡ at
          (if d.is_disabled then not_runable else mark)
          (placed_flag d.place flag)
          (placed_name d.place platform)
          (b'#' ∷ d.comment)
          (d.head ∷ d.tail)
scan_line-print d mark flag platform p = scan_sign d.is_disabled d mark flag platform p

-- ===== src/CaseManager/Texts.antt =====
-- src/atsclnt/caseManager.cpp: the text that `CaseManager::load` reads in a line depends on the line
-- only, and not on the platform, the sign and the mark that it starts with.
use natc.Base.{
  ℕ, ◌+◌, ◌≡◌, refl, ap, ap₂, ◌∙◌, Bool, true, false, ◌==◌, ◌||◌, ◌&&◌, if◌then◌else◌, [], ◌∷◌,
  Bytes,
}
use natc.CaseManager.State.{Mark, runable}
use natc.CaseManager.Line.{
  Scan, Mode, first, plain, bracket, inside, closed, remark, over, set_byte, text_byte, any_byte,
  scan_byte, scan_bytes, scan_line,
}

-- The text of a line, whatever the lines before it said.
abbrev pub text_of : Bytes → Bytes
text_of bytes = (scan_line runable 0 [] bytes).line

-- The two walks have read the same text.
abbrev SameText : Scan → Scan → Type 0
SameText s t = (s.line ≡ t.line) × (s.pos ≡ t.pos)

-- The two walks are in the same mode and have read the same text.
abbrev SameWalk : Mode × Scan → Mode × Scan → Type 0
SameWalk r q = (r.0 ≡ q.0) × SameText r.1 q.1

if-SameWalk :
    (b : Bool) (x y x' y' : Mode × Scan)
    → SameWalk x x'
    → SameWalk y y'
    → SameWalk (if b then x else y) (if b then x' else y')
if-SameWalk true x y x' y' h k = h
if-SameWalk false x y x' y' h k = k

text_byte-SameWalk :
    (is_first : Bool) (c : ℕ) (s t : Scan)
    → SameText s t
    → SameWalk (text_byte is_first c s) (text_byte is_first c t)
unfolding text_byte
text_byte-SameWalk is_first c s t e =
    if-SameWalk (c == b'#') _ _ _ _ (refl, e)
      (if-SameWalk ((c == b'-' && is_first) || c == 10) _ _ _ _ (refl, e)
        (refl, (ap₂ (λ i l. set_byte i c l) e.1 e.0, ap (λ i. i + 1) e.1)))

any_byte-SameWalk :
    (is_first : Bool) (c : ℕ) (s t : Scan)
    → SameText s t
    → SameWalk (any_byte is_first c s) (any_byte is_first c t)
unfolding any_byte
any_byte-SameWalk is_first c s t e =
    if-SameWalk (c == b' ' || c == b'!' || c == 9) _ _ _ _ (refl, e)
      (if-SameWalk (c == b'[') _ _ _ _ (refl, (e.0, refl)) (text_byte-SameWalk is_first c s t e))

-- One byte, from any mark, flag, platform and comment: the mode and the text after it are the same.
scan_byte-SameWalk :
    (mode : Mode) (c : ℕ) (s t : Scan)
    → SameText s t
    → SameWalk (scan_byte mode c s) (scan_byte mode c t)
unfolding scan_byte
scan_byte-SameWalk first c s t e =
    if-SameWalk (c == b'#') _ _ _ _ (refl, e) (any_byte-SameWalk true c s t e)
scan_byte-SameWalk plain c s t e = any_byte-SameWalk false c s t e
scan_byte-SameWalk bracket c s t e = if-SameWalk (c == b'^') _ _ _ _ (refl, e) (refl, e)
scan_byte-SameWalk inside c s t e = if-SameWalk (c == b']') _ _ _ _ (refl, e) (refl, e)
scan_byte-SameWalk closed c s t e = text_byte-SameWalk false c s t e
scan_byte-SameWalk remark c s t e = if-SameWalk (c == 10) _ _ _ _ (refl, e) (refl, e)
scan_byte-SameWalk over c s t e = (refl, e)

scan_bytes-text :
    (mode : Mode) (bytes : Bytes) (s t : Scan)
    → SameText s t
    → (scan_bytes mode bytes s).line ≡ (scan_bytes mode bytes t).line
unfolding scan_bytes
scan_bytes-text first [] s t e = e.0
scan_bytes-text plain [] s t e = e.0
scan_bytes-text bracket [] s t e = refl
scan_bytes-text inside [] s t e = refl
scan_bytes-text closed [] s t e = refl
scan_bytes-text remark [] s t e = e.0
scan_bytes-text over [] s t e = e.0
scan_bytes-text mode (c ∷ bytes) s t e =
    let r = scan_byte mode c s in
    let q = scan_byte mode c t in
    let (m, e') = scan_byte-SameWalk mode c s t e in
    scan_bytes-text r.0 bytes r.1 q.1 e' ∙ ap (λ k. (scan_bytes k bytes q.1).line) m

-- The text of a line depends on nothing that was read before.
pub scan_line-text :
    (mark : Mark) (flag : ℕ) (platform bytes : Bytes)
    → (scan_line mark flag platform bytes).line ≡ text_of bytes
unfolding scan_line
scan_line-text mark flag platform bytes = scan_bytes-text first bytes _ _ (refl, refl)

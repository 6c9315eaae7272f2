-- ===== src/CaseManager/Line.antt =====
-- src/atsclnt/caseManager.cpp: the loop over one line of a suite in `CaseManager::load`. Its inner
-- loops, over a platform in brackets and over a comment, are modes of one walk over the bytes.
use natc.Base.{
  ℕ, zero, suc, ◌+◌, Bool, true, false, ◌==◌, ◌||◌, ◌&&◌, if◌then◌else◌, [], ◌∷◌, ◌++◌, Bytes,
}
use natc.CaseManager.State.{Mark, not_runable, plat_on, plat_off}

-- `mCaseInfo.caseMark`, `sFlag`, `sPlatformName`, `sCaseComment`, `sLine`, and the place in `sLine`
-- that the next byte is written to.
pub record Scan : Type 0 where
  pub mark : Mark
  pub flag : ℕ
  pub platform : Bytes
  pub comment : Bytes
  pub line : Bytes
  pub pos : ℕ

-- `sLine[i] = c`, where the place is in the text or right behind it.
unfoldable pub set_byte : ℕ → ℕ → Bytes → Bytes
set_byte i c [] = c ∷ []
set_byte zero c (b ∷ bs) = c ∷ bs
set_byte (suc i) c (b ∷ bs) = b ∷ set_byte i c bs

abbrev pub put : ℕ → Scan → Scan
put c s = record s { line = set_byte s.pos c s.line; pos = s.pos + 1 }

-- Where the walk stands: at the first byte, at a later one, behind an opening bracket, in the
-- platform, behind the closing bracket, in the comment, or behind the end of the loop.
pub data Mode : Type 0 where
  first plain bracket inside closed remark over : Mode

-- A byte that is neither blank nor an opening bracket, or that follows a closing one. The place in the
-- text is the first one again behind a bracket, so a later text overwrites an earlier one.
unfoldable pub text_byte : Bool → ℕ → Scan → Mode × Scan
text_byte is_first c s =
    if c == b'#'
    then (remark, record s { comment = c ∷ [] })
    else if (c == b'-' && is_first) || c == 10
    then (over, s)
    else (plain, put c s)

-- A byte at its turn of the loop.
unfoldable pub any_byte : Bool → ℕ → Scan → Mode × Scan
unfolding text_byte
any_byte is_first c s =
    if c == b' ' || c == b'!' || c == 9
    then (plain, s)
    else if c == b'['
    then (bracket, record s { platform = []; pos = 0 })
    else text_byte is_first c s

unfoldable pub scan_byte : Mode → ℕ → Scan → Mode × Scan
unfolding any_byte text_byte
scan_byte first c s =
    if c == b'#' then (plain, record s { mark = not_runable }) else any_byte true c s
scan_byte plain c s = any_byte false c s
scan_byte bracket c s =
    if c == b'^'
    then (inside, record s { flag = plat_on })
    else (inside, record s { flag = plat_off; platform = c ∷ [] })
scan_byte inside c s =
    if c == b']' then (closed, s) else (inside, record s { platform = s.platform ++ c ∷ [] })
scan_byte closed c s = text_byte false c s
scan_byte remark c s =
    if c == 10 then (over, s) else (remark, record s { comment = s.comment ++ c ∷ [] })
scan_byte over c s = (over, s)

-- A line that ends in a bracket or behind it goes on with the zero bytes that the buffer is filled
-- with: one ends the text, whose next byte is the first one again.
abbrev pub at_end : Mode → Scan → Scan
at_end first s = s
at_end plain s = s
at_end bracket s = record s { flag = plat_off; line = [] }
at_end inside s = record s { line = [] }
at_end closed s = record s { line = [] }
at_end remark s = s
at_end over s = s

unfoldable pub scan_bytes : Mode → Bytes → Scan → Scan
unfolding scan_byte
scan_bytes mode [] s = at_end mode s
scan_bytes mode (c ∷ cs) s = let (mode', s') = scan_byte mode c s in scan_bytes mode' cs s'

-- One line, with the platform and the flag that earlier lines left: the comment, the text and the
-- mark start anew.
unfoldable pub scan_line : Mark → ℕ → Bytes → Bytes → Scan
unfolding scan_bytes
scan_line mark flag platform bytes =
    scan_bytes first bytes
      (record { mark = mark; flag = flag; platform = platform; comment = []; line = []; pos = 0 })

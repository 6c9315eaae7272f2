-- ===== src/Agent/RecoveryFile.antt =====
-- src/ats2/recpointManager.cpp: the list of the recovery points (`RecPointer::load`).
use natc.Base.{
  ℕ, zero, suc, ◌+◌, ◌-◌, ◌*◌, ◌/◌, ◌%◌, ◌^◌, Bool, true, false, ◌==◌, ◌&&◌, ◌||◌, if◌then◌else◌,
  ltb, leb, List, [], ◌∷◌, ◌++◌, Option, none, some, Bytes, codes, is_nil, length, ◌>>=◌,
}
use natc.Agent.Maps.{Map, find, map_put}

-- `recPointData`; the test type is KILL, the apply value and the flag are 0.
pub record RecPoint : Type 0 where
  pub rec_point_id : Bytes
  pub filename : Bytes
  pub line_number : ℕ
  pub query_string : Bytes

-- `sFileName`, `sLineNumber` and `sRecPointID`, which stay from line to line where nothing is read.
pub record ScanBuffers : Type 0 where
  pub file_name : Bytes
  pub line : ℕ
  pub point_id : Bytes

abbrev pub word_size : ℕ
word_size = 512

-- `isspace` and `isdigit`.
abbrev pub is_white : ℕ → Bool
is_white c = c == b' ' || (leb 9 c && leb c 13)

abbrev pub is_digit : ℕ → Bool
is_digit c = leb b'0' c && leb c b'9'

abbrev pub skip_white : Bytes → Bytes
skip_white [] = []
skip_white (c ∷ s) = let rest = skip_white s in if is_white c then rest else c ∷ s

abbrev pub take_word : Bytes → Bytes × Bytes
take_word [] = ([], [])
take_word (c ∷ s) = let (w, rest) = take_word s in if is_white c then ([], c ∷ s) else (c ∷ w, rest)

-- The conversion `%s`.
abbrev pub scan_string : Bytes → Option (Bytes × Bytes)
scan_string s =
    let (w, rest) = take_word (skip_white s) in if is_nil w then none else some (w, rest)

abbrev pub take_digits : ℕ → Bytes → ℕ × Bytes
take_digits n [] = (n, [])
take_digits n (c ∷ s) =
    let rest = take_digits (n * 10 + (c - b'0')) s in if is_digit c then rest else (n, c ∷ s)

-- The digits of a number, which is stored in 32 bits.
abbrev pub scan_digits : Bool → Bytes → Option (ℕ × Bytes)
scan_digits negative [] = none
scan_digits negative (c ∷ s) =
    let (n, rest) = take_digits 0 (c ∷ s) in
    if is_digit c
    then some (if negative then (2 ^ 32 - n % 2 ^ 32) % 2 ^ 32 else n % 2 ^ 32, rest)
    else none

-- The conversion `%d`, behind the white bytes.
abbrev pub scan_signed : Bytes → Option (ℕ × Bytes)
scan_signed [] = none
scan_signed (c ∷ s) =
    if c == b'-'
    then scan_digits true s
    else if c == b'+'
    then scan_digits false s
    else scan_digits false (c ∷ s)

abbrev pub scan_int : Bytes → Option (ℕ × Bytes)
scan_int s = scan_signed (skip_white s)

-- A word is copied into its buffer: `none` where it runs over the end.
abbrev pub copy_word : Bytes → Option Bytes
copy_word w = if ltb (length w) word_size then some w else none

-- `sscanf(sBuffer, "%s %d %s", ...)`, by what its conversions give: one that fails ends it, and the
-- buffers behind it keep what they held.
abbrev pub scan_id : ScanBuffers → Option (Bytes × Bytes) → Option ScanBuffers
scan_id b none = some b
scan_id b (some (w, rest)) = copy_word w >>= λ id. some (record b { point_id = id })

abbrev pub scan_number : ScanBuffers → Option (ℕ × Bytes) → Option ScanBuffers
scan_number b none = some b
scan_number b (some (n, rest)) = scan_id (record b { line = n }) (scan_string rest)

abbrev pub scan_file : ScanBuffers → Option (Bytes × Bytes) → Option ScanBuffers
scan_file b none = some b
scan_file b (some (w, rest)) =
    copy_word w >>= λ file. scan_number (record b { file_name = file }) (scan_int rest)

unfoldable pub scan_point : Bytes → ScanBuffers → Option ScanBuffers
scan_point text b = scan_file b (scan_string text)

-- The digits of a number.
abbrev pub digits : ℕ → ℕ → Bytes
digits zero n = []
digits (suc fuel) n =
    let rest = digits fuel (n / 10) in
    if ltb n 10 then (b'0' + n) ∷ [] else rest ++ (b'0' + n % 10) ∷ []

-- `%d` of a number of 32 bits.
abbrev pub print_int : ℕ → Bytes
print_int n =
    if ltb n (2 ^ 31) then digits (suc n) n else b'-' ∷ digits (suc (2 ^ 32 - n)) (2 ^ 32 - n)

-- The query that enables the point; `strip` is `STAFString::strip`.
abbrev pub enable_query : (Bytes → Bytes) → Bytes → Bytes → ℕ → Bytes
enable_query strip id file n =
    codes "execute enable_recptr( "
    ++ (codes "'"
        ++ (strip id
            ++ (codes "', "
                ++ (codes "'"
                    ++ (strip (codes "KILL")
                        ++ (codes "', "
                            ++ (strip (print_int 0)
                                ++ (codes ", "
                                    ++ (codes "0, "
                                        ++ (strip (print_int 0)
                                            ++ (codes ", "
                                                ++ (codes "'"
                                                    ++ (file
                                                        ++ (codes "', "
                                                            ++ (strip (print_int n)
                                                            ++ codes ")")))))))))))))))

-- What a line's buffers describe.
abbrev pub point_of : (Bytes → Bytes) → ScanBuffers → RecPoint
point_of strip b =
    let id = strip b.point_id in
    let file = strip b.file_name in
    record {
      rec_point_id = id;
      filename = file;
      line_number = b.line;
      query_string = enable_query strip id file b.line;
    }

-- The first point of an id is kept.
unfoldable pub add_point : RecPoint → Map RecPoint → Map RecPoint
add_point p m = elim (find p.rec_point_id m) [ none ↦ map_put p.rec_point_id p m | some q ↦ m ]

-- What the calls of `fgets(buffer, 1024, file)` read of a file without a zero byte: a line up to its line
-- feed, or as much of it as the buffer takes.
abbrev pub line_size : ℕ
line_size = 1024

unfoldable pub fgets_lines : Bytes → Bytes → List Bytes
fgets_lines line [] = if is_nil line then [] else line ∷ []
fgets_lines line (c ∷ s) =
    let longer = line ++ c ∷ [] in
    let is_read = c == 10 || length longer == line_size - 1 in
    let rest = fgets_lines (if is_read then [] else longer) s in
    if is_read then longer ∷ rest else rest

-- The loop over the lines that `fgets` reads; the line number is 0 before a line is read, and `none`
-- stands for a word that runs over its buffer.
unfoldable pub load_point_lines :
    (Bytes → Bytes) → List Bytes → ScanBuffers → Map RecPoint → Option (Map RecPoint)
load_point_lines strip [] b m = some m
load_point_lines strip (text ∷ texts) b m = do
  b' ← scan_point text (record b { line = 0 })
  load_point_lines strip texts b' (add_point (point_of strip b') m)

-- `load`; a file that cannot be opened is `none`.
unfoldable pub load_points :
    (Bytes → Bytes) → Option Bytes → ScanBuffers → Map RecPoint → Option (Map RecPoint × Bool)
unfolding fgets_lines
load_points strip none b m = some (m, false)
load_points strip (some bytes) b m = do
  m' ← load_point_lines strip (fgets_lines [] bytes) b m
  some (m', true)

-- `mLastLine`, and whether `mCheckMutex` is held.
pub record BootLog : Type 0 where
  pub last_line : Bytes
  pub locked : Bool

-- `fgets` up to the end of the file.
abbrev pub end_of_log : List Bytes → Bytes → Bytes
end_of_log [] text = text
end_of_log (text' ∷ texts) text = end_of_log texts text'

-- `getLastLineFromBootLog`; `none` is the answer where the log cannot be opened.
unfoldable pub get_last_line : Option Bytes → BootLog → Option Bytes × BootLog
unfolding fgets_lines
get_last_line log s =
    let held = record s { locked = true } in
    elim log [
      | none ↦ (none, record held { locked = false })
      | some bytes ↦
          let last = end_of_log (fgets_lines [] bytes) held.last_line in
          (some last, record held { last_line = last; locked = false })
    ]

-- ===== src/CaseManager/Printing.antt =====
-- src/atsclnt/caseManager.cpp: how a line of a suite is written that `CaseManager::load` reads.
use natc.Base.{ℕ, ◌≡◌, Bool, true, false, ◌==◌, ◌||◌, not, if◌then◌else◌, [], ◌∷◌, ◌++◌, Bytes, All}
use natc.CaseManager.State.{plat_on, plat_off}

-- A byte of a text: no blank, no bracket, no comment sign and no end of the line.
abbrev pub is_text : ℕ → Bool
is_text c = not (c == b' ' || c == b'!' || c == 9 || c == b'[' || c == b'#' || c == 10)

-- The platform of a line: none is named, or one is named, plainly or negated.
pub data Where : Type 0 where
  unnamed : Where
  on : ℕ → Bytes → Where
  off : Bytes → Where

-- What a line says: is it disabled, where does it run, the text, and the comment.
pub record Said : Type 0 where
  pub is_disabled : Bool
  pub place : Where
  pub head : ℕ
  pub tail : Bytes
  pub comment : Bytes

abbrev pub print_place : Where → Bytes → Bytes
print_place unnamed rest = rest
print_place (on c name) rest = b'[' ∷ c ∷ name ++ b']' ∷ rest
print_place (off name) rest = b'[' ∷ b'^' ∷ name ++ b']' ∷ rest

abbrev pub print_text : Said → Bytes
print_text d = d.head ∷ (d.tail ++ (b'#' ∷ (d.comment ++ (10 ∷ []))))

-- The line as a suite has it.
abbrev pub print : Said → Bytes
print d =
    let rest = print_place d.place (print_text d) in if d.is_disabled then b'#' ∷ rest else rest

abbrev pub IsName : Bytes → Type 0
IsName = All (λ c. c == b']' ≡ false)

abbrev pub IsPlace : Where → Type 0
IsPlace unnamed = Unit {0}
IsPlace (on c name) = (c == b'^' ≡ false) × IsName name
IsPlace (off name) = IsName name

-- The line can be read back.
pub record IsPrintable (d : Said) : Type 0 where
  pub text : All (λ c. is_text c ≡ true) (d.head ∷ d.tail)
  pub no_dash : d.head == b'-' ≡ false
  pub place : IsPlace d.place
  pub comment : All (λ c. c == 10 ≡ false) d.comment

abbrev pub placed_flag : Where → ℕ → ℕ
placed_flag unnamed flag = flag
placed_flag (on c name) flag = plat_off
placed_flag (off name) flag = plat_on

abbrev pub placed_name : Where → Bytes → Bytes
placed_name unnamed platform = platform
placed_name (on c name) platform = c ∷ name
placed_name (off name) platform = name

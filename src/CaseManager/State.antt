-- ===== src/CaseManager/State.antt =====
-- src/ats2/common.h and src/atsclnt/caseManager.cpp: a test case, its type by the name of its file,
-- and what the manager keeps.
use natc.Base.{ℕ, Bool, false, ◌==◌, if◌then◌else◌, List, none, some, Bytes, codes, strstr, length}

-- `caseType`: SQL, TS, TL, XML, and 0 for other files.
pub data CaseType : Type 0 where
  unknown sql ts tl xml : CaseType

-- `caseMark`: RUNABLE, NOTRUNABLE, RUNSKIP.
pub data Mark : Type 0 where
  runable not_runable run_skip : Mark

-- PLAT_OFF and PLAT_ON.
abbrev pub plat_off : ℕ
plat_off = 0

abbrev pub plat_on : ℕ
plat_on = 1

-- `caseInfo`.
pub record CaseInfo : Type 0 where
  pub name : Bytes
  pub flag : ℕ
  pub platform : Bytes
  pub comment : Bytes
  pub type : CaseType
  pub mark : Mark
  pub ts_name : Bytes

-- The members of `CaseManager`.
pub record Manager : Type 0 where
  pub cases : List CaseInfo
  pub local_cases : List CaseInfo
  pub platform_name : Bytes
  pub set_info : ℕ
  pub find_level : ℕ
  pub need_merge : Bool

-- `(sPos = strstr(name, ext)) != NULL && strlen(name) - (sPos - name) == strlen(ext)`: the first
-- occurrence of `ext` is at the end.
unfoldable pub ends_first : Bytes → Bytes → Bool
ends_first name ext = elim (strstr name ext) [
  | none ↦ false
  | some rest ↦ length rest == length ext
]

-- `getcasetype`.
unfoldable pub case_type : Bytes → CaseType
unfolding ends_first
case_type name =
    if ends_first name (codes ".ts")
    then ts
    else if ends_first name (codes ".tl")
    then tl
    else if ends_first name (codes ".sql")
    then sql
    else if ends_first name (codes ".xml")
    then xml
    else unknown

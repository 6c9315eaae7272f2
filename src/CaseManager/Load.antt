-- ===== src/CaseManager/Load.antt =====
-- src/atsclnt/caseManager.cpp: `CaseManager::load`, which reads a suite and the suites below it.
use natc.Base.{
  ℕ, zero, suc, Bool, true, false, ◌==◌, ◌||◌, if◌then◌else◌, ltb, List, [], ◌∷◌, ◌++◌, Option,
  none, some, Bytes, codes, strstr, same,
}
use natc.CaseManager.State.{
  CaseType, unknown, sql, ts, tl, xml, Mark, run_skip, plat_on, plat_off, CaseInfo, Manager,
  case_type,
}
use natc.CaseManager.Line.{Scan, scan_line}
use natc.CaseManager.Platform.{is_empty, Locals, Frame, choose_platform}

-- What the manager is given: the lines of each file, as `fgets` reads them (`none`: it cannot be
-- opened), how many files can be open at a time, the two environment variables, the keys of the skip map, `STAFString::replace` of the
-- STAF library, and the value that an uninitialised `caseFlag` happens to have.
pub record Env : Type 0 where
  pub files : Bytes → Option (List Bytes)
  pub open_limit : ℕ
  pub test_case : Bytes
  pub user_test_case : Bytes
  pub skip_map : List Bytes
  pub replace : Bytes → Bytes → Bytes → Bytes
  pub garbage : ℕ

abbrev pub contains : Bytes → Bytes → Bool
contains s p = elim (strstr s p) [ none ↦ false | some rest ↦ true ]

abbrev pub mem_bytes : Bytes → List Bytes → Bool
mem_bytes s [] = false
mem_bytes s (t ∷ keys) = same s t || mem_bytes s keys

abbrev pub drop_separator : Bytes → Bytes
drop_separator [] = []
drop_separator (c ∷ cs) = if c == b'/' then cs else c ∷ cs

-- Is the case in the skip map, by its name without the two roots and a leading separator?
unfoldable pub is_skipped : Env → Bytes → Bool
is_skipped env name =
    mem_bytes
      (drop_separator (env.replace (env.replace name env.test_case []) env.user_test_case []))
      env.skip_map

-- The part of a name up to its last separator, if that is not the first byte.
unfoldable pub up_to_separator : Bytes → Bytes
up_to_separator [] = []
up_to_separator (c ∷ cs) =
    let rest = up_to_separator cs in
    if is_empty rest then if c == b'/' then c ∷ [] else [] else c ∷ rest

unfoldable pub directory : Bytes → Bytes
unfolding up_to_separator
directory [] = []
directory (c ∷ cs) = let rest = up_to_separator cs in if is_empty rest then [] else c ∷ rest

-- `mCaseList.push_back` or `mLocalCaseList.push_back`.
unfoldable pub push : CaseInfo → Manager → Manager
push c m =
    if m.need_merge
    then record m { local_cases = m.local_cases ++ c ∷ [] }
    else record m { cases = m.cases ++ c ∷ [] }

-- The mark of a case: the one given, unless it is skipped.
abbrev pub mark_of : Env → Bytes → Mark → Mark
mark_of env name mark = if is_skipped env name then run_skip else mark

-- The case of a line, with its platform chosen.
abbrev pub case_of : Env → Bytes → Bytes → Scan → Locals → CaseInfo
case_of env file name s l = record {
  name = name;
  flag = l.flag;
  platform = l.platform;
  comment = s.comment;
  type = case_type name;
  mark = mark_of env name s.mark;
  ts_name = file;
}

-- Does the text of a line name a suite?
abbrev pub names_suite : Bytes → Bool
names_suite line = contains line (codes ".ts") || contains line (codes ".tl")

abbrev pub is_known : CaseType → Bool
is_known unknown = false
is_known sql = true
is_known ts = true
is_known tl = true
is_known xml = true

-- What a line does when its text is not empty: the frame after it, and the suite that it names, if it
-- is read, with the mark for the cases in it. A line that describes the suite keeps the platform that
-- was read; so does a case of an unknown type.
unfoldable pub one_case : Env → Bytes → ℕ → Bytes → Scan → Frame → Frame × Option (Bytes × Mark)
one_case env file depth name s f =
    let nested = λ (mark : Mark). if names_suite s.line then some (name, mark) else none in
    let (l, m) = choose_platform depth s.platform s.flag f in
    let c = case_of env file name s l in
    let cleared = λ (l : Locals). record l { scan_platform = [] } in
    if contains s.line (codes "TestSuiteDescription")
    then (f, none)
    else if contains s.line (codes ".")
    then (if is_known (case_type name)
        then ((cleared l, push c m), nested c.mark)
        else ((l, m), none))
    else ((cleared f.0, f.1), nested s.mark)

-- The loop over the lines; `read` loads a nested suite, one level deeper.
unfoldable pub load_lines :
    (Bytes → Mark → Manager → Option Manager)
    → Env
    → Bytes
    → ℕ
    → Mark
    → List Bytes
    → Locals
    → Manager
    → Option Manager
load_lines read env file depth mark [] l m = some m
load_lines read env file depth mark (bytes ∷ lines) l m =
    let s = scan_line mark l.scan_flag l.scan_platform bytes in
    let scanned = record l { scan_platform = s.platform; scan_flag = s.flag } in
    let r = one_case env file depth (directory file ++ s.line) s (scanned, m) in
    let l' = (r.0).0 in
    let m' = (r.0).1 in
    elim (is_empty s.line) [
      | true ↦ load_lines read env file depth mark lines scanned m
      | false ↦ elim r.1 [
        | none ↦ load_lines read env file depth mark lines l' m'
        | some (name, mark') ↦ elim (read name mark' m') [
          | none ↦ none
          | some m'' ↦ load_lines read env file depth mark lines l' m''
        ]
      ]
    ]

-- Before the first line, at the top level: the file itself is a case.
unfoldable pub start : Env → Bytes → Mark → Manager → Manager
start env file mark m =
    push
      (record {
        name = file;
        flag = plat_on;
        platform = [];
        comment = [];
        type = case_type file;
        mark = mark_of env file mark;
        ts_name = file;
      })
      m

-- `fopen`, while each of the `depth` levels above keeps its file open.
abbrev pub opened : Env → ℕ → Bytes → Option (List Bytes)
opened env depth file = if ltb depth env.open_limit then env.files file else none

-- The lines of a file that can be opened.
unfoldable pub load_file :
    (Bytes → Mark → Manager → Option Manager)
    → Env
    → Bytes
    → ℕ
    → Mark
    → ℕ
    → Manager
    → Option Manager
load_file read env file depth mark flag m = elim (opened env depth file) [
  | none ↦ some m
  | some lines ↦
      load_lines read env file depth mark lines
        (record { scan_platform = []; scan_flag = plat_off; flag = flag; platform = [] }) m
]

-- `load` below the top level; `none` is the end of the fuel, which bounds the nesting.
unfoldable pub load_nested : Env → ℕ → ℕ → Bytes → Mark → Manager → Option Manager
load_nested env zero depth file mark m = none
load_nested env (suc fuel) depth file mark m =
    load_file (load_nested env fuel (suc depth)) env file depth mark env.garbage m

-- `load` at the top level.
unfoldable pub load : Env → ℕ → Bytes → Mark → Manager → Option Manager
load env fuel file mark m =
    let m0 = record m { platform_name = []; set_info = 0 } in
    let m1 = start env file mark m0 in
    let rest = load_file (load_nested env fuel 1) env file 0 mark plat_on m1 in
    elim (case_type file) [
      | unknown ↦ some m0
      | sql ↦ some m1
      | xml ↦ some m1
      | ts ↦ rest
      | tl ↦ rest
    ]

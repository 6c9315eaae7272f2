-- ===== src/CaseManager/Tests.antt =====
-- Concrete suites, and the theorems on the list of cases at inputs that meet their hypotheses.
use natc.Base.{
  ℕ, ◌≡◌, ◌↔◌, refl, true, false, if◌then◌else◌, List, [], ◌∷◌, ◌++◌, Option, none, some, Bytes,
  codes, same, begins, length, drop, arith,
}
use natc.CaseManager.State.{
  CaseType, unknown, sql, ts, Mark, runable, not_runable, run_skip, CaseInfo, Manager, ends_first,
  case_type,
}
use natc.CaseManager.Line.{set_byte, text_byte, any_byte, scan_byte, scan_bytes, scan_line}
use natc.CaseManager.Load.{
  Env, is_skipped, directory, up_to_separator, push, one_case, load_lines, start, load_file,
  load_nested, load,
}
use natc.CaseManager.Platform.{
  choose_platform, open_level, inherit_level, leave_level, replace_level, inherit, Frame,
}
use natc.CaseManager.Merge.{find_case, update_at, insert_at, merge_one, merge_rest, merge_cases}
use natc.CaseManager.Merging.{Within, stop, take, skip, merge_cases-Within, merge_cases-append}
use natc.CaseManager.Placing.{Placed, merge_one-Placed}
use natc.CaseManager.Printing.{off, Said, IsPrintable}
use natc.CaseManager.Scanning.{scan_line-print}
use natc.CaseManager.Adding.{Adds}
use natc.CaseManager.Loading.{load-Adds}
use natc.CaseManager.Nesting.{load-Ends_limit, IsNested, IsNested-lines, Ends, load-Ends}
use natc.CaseManager.Levels.{choose_platform-rule}
use natc.CaseManager.Typing.{EndsOnce, case_type_iff}

-- A suite with a disabled case and a nested suite, which has a case for one platform; and a suite that
-- names itself.
abbrev suite_files : Bytes → Option (List Bytes)
suite_files file =
    if same file (codes "/t/a.ts")
    then some ((codes "#b.sql" ++ 10 ∷ []) ∷ (codes "x/c.ts" ++ 10 ∷ []) ∷ [])
    else if same file (codes "/t/x/c.ts")
    then some ((codes "[AIX]d.sql#note" ++ 10 ∷ []) ∷ [])
    else if same file (codes "/t/z.ts")
    then some ((codes "z.ts" ++ 10 ∷ []) ∷ [])
    else none

-- Removes a leading occurrence.
abbrev replace_first : Bytes → Bytes → Bytes → Bytes
replace_first s p r = if begins p s then r ++ drop (length p) s else s

abbrev env : Env
env = record {
  files = suite_files;
  open_limit = 10;
  test_case = codes "/t";
  user_test_case = codes "/u";
  skip_map = codes "x/d.sql" ∷ [];
  replace = replace_first;
  garbage = 7;
}

abbrev empty : Manager
empty = record {
  cases = [];
  local_cases = [];
  platform_name = [];
  set_info = 0;
  find_level = 0;
  need_merge = false;
}

abbrev case_at : Bytes → ℕ → Bytes → Bytes → CaseType → Mark → Bytes → CaseInfo
case_at name flag platform comment type mark ts_name = record {
  name = name;
  flag = flag;
  platform = platform;
  comment = comment;
  type = type;
  mark = mark;
  ts_name = ts_name;
}

abbrev a_file : Bytes
a_file = codes "/t/a.ts"

-- The shared cases that the suite gives: the one below the nested suite is in the skip map.
abbrev loaded : Manager
loaded = record empty {
  cases =
      case_at a_file 1 [] [] ts runable a_file
      ∷ case_at (codes "/t/b.sql") 0 [] [] sql not_runable a_file
      ∷ case_at (codes "/t/x/c.ts") 0 [] [] ts runable a_file
      ∷ case_at (codes "/t/x/d.sql") 0 (codes "AIX") (codes "#note") sql run_skip
          (codes "/t/x/c.ts")
      ∷ [];
  platform_name = codes "AIX";
  find_level = 1;
}

load_a : load env 1 a_file runable empty ≡ some loaded
unfolding load load_file load_nested load_lines start one_case push choose_platform open_level
    inherit_level leave_level replace_level directory up_to_separator is_skipped scan_line
    scan_bytes scan_byte any_byte text_byte set_byte case_type ends_first
load_a = refl

load-Adds_example : Adds env runable empty loaded
load-Adds_example = load-Adds env 1 a_file runable empty loaded load_a

a_file-IsNested : IsNested env 2 a_file
unfolding scan_line scan_bytes scan_byte any_byte text_byte set_byte directory up_to_separator
a_file-IsNested =
    IsNested-lines env 1 a_file _ refl
      (λ h. cc, (λ _. IsNested-lines env 0 (codes "/t/x/c.ts") _ refl (λ h. cc, tt), tt))

load-Ends_example : Ends (load env 1 a_file runable empty)
load-Ends_example = load-Ends env 1 a_file runable empty a_file-IsNested

-- The suite that names itself, where three files can be open: it is read three times.
load-Ends_limit_example :
    Ends (load (record env { open_limit = 3 }) 3 (codes "/t/z.ts") runable empty)
load-Ends_limit_example =
    load-Ends_limit (record env { open_limit = 3 }) (codes "/t/z.ts") runable empty

case_type_iff_example :
    (case_type (codes "/t/x/d.sql") ≡ sql) ↔ EndsOnce (codes "/t/x/d.sql") (codes ".sql")
case_type_iff_example = case_type_iff (codes "/t/x/d.sql") sql (λ e. cc)

-- An earlier occurrence of the extension hides the one at the end.
case_type_early : case_type (codes "/t/x.ts.d/b.ts") ≡ unknown
unfolding case_type ends_first
case_type_early = refl

-- A case below the level that is open, with a platform of its own.
abbrev below : Frame
below = (
  record { scan_platform = codes "HP"; scan_flag = 0; flag = 0; platform = [] },
  record empty { platform_name = codes "AIX"; set_info = 1; find_level = 1 },
)

choose_platform-rule_example : choose_platform 2 (codes "HP") 0 below ≡ inherit below
choose_platform-rule_example = choose_platform-rule 2 (codes "HP") 0 below

-- The line `#[^AIX]d.sql#note`.
abbrev said : Said
said = record {
  is_disabled = true;
  place = off (codes "AIX");
  head = b'd';
  tail = codes ".sql";
  comment = codes "note";
}

said-IsPrintable : IsPrintable said
said-IsPrintable = record {
  text = (refl, (refl, (refl, (refl, (refl, tt)))));
  no_dash = refl;
  place = (refl, (refl, (refl, tt)));
  comment = (refl, (refl, (refl, (refl, tt))));
}

scan_line-print_example : scan_line runable 0 [] (codes "#[^AIX]d.sql#note" ++ 10 ∷ []) ≡ record {
  mark = not_runable;
  flag = 1;
  platform = codes "AIX";
  comment = codes "#note";
  line = codes "d.sql";
  pos = 5;
}
scan_line-print_example = scan_line-print said runable 0 [] said-IsPrintable

abbrev shared_a : CaseInfo
shared_a = case_at (codes "/t/a.sql") 0 [] [] sql runable a_file

abbrev shared_b : CaseInfo
shared_b = case_at (codes "/t/b.sql") 0 (codes "AIX") [] sql runable a_file

abbrev user_b : CaseInfo
user_b = case_at (codes "/u/b.sql") 1 [] [] sql not_runable (codes "/u/a.ts")

abbrev user_n : CaseInfo
user_n = case_at (codes "/u/n.sql") 0 [] [] sql runable (codes "/u/a.ts")

-- The user's version of one case takes over the shared one, and the new case follows it.
merge_both :
    merge_cases env (user_b ∷ user_n ∷ []) (shared_b ∷ shared_a ∷ [])
    ≡ case_at (codes "/u/b.sql") 1 (codes "AIX") [] sql not_runable a_file ∷ user_n ∷ shared_a ∷ []
unfolding merge_cases merge_rest merge_one find_case update_at insert_at
merge_both = refl

merge_cases-Within_example :
    Within (shared_a ∷ []) (merge_cases env (user_b ∷ user_n ∷ []) (shared_b ∷ shared_a ∷ []))
merge_cases-Within_example =
    merge_cases-Within (shared_a ∷ []) (shared_b ∷ shared_a ∷ []) (user_b ∷ user_n ∷ []) env
      (skip shared_b (take shared_a (stop []))) ((refl, tt), ((refl, tt), tt))

merge_cases-append_example :
    merge_cases env (user_n ∷ []) (shared_a ∷ shared_b ∷ []) ≡ shared_a ∷ shared_b ∷ user_n ∷ []
merge_cases-append_example =
    merge_cases-append env (user_n ∷ []) (shared_a ∷ shared_b ∷ []) ((refl, (refl, (refl, tt))), tt)

merge_one-Placed_example : Placed user_n (merge_one env false user_n (shared_b ∷ shared_a ∷ [], 1))
merge_one-Placed_example =
    merge_one-Placed env false user_n (shared_b ∷ shared_a ∷ [], 1) (omega arith)

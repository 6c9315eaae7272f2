-- ===== src/CaseManager/Loading.antt =====
-- src/atsclnt/caseManager.cpp: what a whole `CaseManager::load` adds, nested suites included.
use natc.Base.{
  ℕ, zero, suc, ◌≡◌, refl, true, false, List, [], ◌∷◌, ◌++◌, Option, none, some, Bytes, elim-Bool,
  elim-Option, if-both, subst, subst,
}
use natc.CaseManager.State.{
  CaseType, unknown, sql, ts, tl, xml, Mark, run_skip, plat_on, Manager, case_type,
}
use natc.CaseManager.Line.{scan_line}
use natc.CaseManager.Load.{
  Env, is_skipped, directory, is_known, one_case, load_lines, opened, start, load_file, load_nested,
  load,
}
use natc.CaseManager.Platform.{is_empty, Locals}
use natc.CaseManager.Adding.{
  is_runable, Adds, Adds-none, Adds-trans, push-Adds, Adds-weaken, scan_line-mark,
}
use natc.CaseManager.Keeping.{one_case-Fine}

-- The end of the fuel, or a state to which only listed cases are added.
abbrev pub AddsIf : Env → Mark → Manager → Option Manager → Type 0
AddsIf env mark m none = Unit {0}
AddsIf env mark m (some m') = Adds env mark m m'

AddsIf-trans :
    (env : Env) (mark : Mark) (m m' : Manager) (r : Option Manager)
    → Adds env mark m m'
    → AddsIf env mark m' r
    → AddsIf env mark m r
AddsIf-trans env mark m m' none a b = tt
AddsIf-trans env mark m m' (some m'') a b = Adds-trans env mark m m' m'' a b

-- A reader of nested suites that adds only listed cases.
abbrev Reads : Env → (Bytes → Mark → Manager → Option Manager) → Type 0
Reads env read = (name : Bytes) (mark : Mark) (m : Manager) → AddsIf env mark m (read name mark m)

AddsIf-some :
    (env : Env) (mark mark' : Mark) (m m' : Manager) (r : Option Manager)
    → (is_runable mark ≡ false → is_runable mark' ≡ false)
    → AddsIf env mark' m r
    → r ≡ some m'
    → Adds env mark m m'
AddsIf-some env mark mark' m m' none w a e = cc
AddsIf-some env mark mark' m m' (some m'') w a e =
    subst (λ r. AddsIf env mark m r) e (Adds-weaken env mark mark' m m'' w a)

load_lines-AddsIf :
    (read : Bytes → Mark → Manager → Option Manager) (env : Env) (file : Bytes) (depth : ℕ)
    (mark : Mark) (lines : List Bytes) (l : Locals) (m : Manager)
    → Reads env read
    → AddsIf env mark m (load_lines read env file depth mark lines l m)
unfolding load_lines
load_lines-AddsIf read env file depth mark [] l m reads = Adds-none env mark m m refl refl refl
load_lines-AddsIf read env file depth mark (bytes ∷ lines) l m reads =
    let s = scan_line mark l.scan_flag l.scan_platform bytes in
    let scanned = record l { scan_platform = s.platform; scan_flag = s.flag } in
    let r = one_case env file depth (directory file ++ s.line) s (scanned, m) in
    let fine =
      one_case-Fine env mark file depth (directory file ++ s.line) s (scanned, m)
        (scan_line-mark mark l.scan_flag l.scan_platform bytes) in
    let P = AddsIf env mark m in
    elim-Bool P (is_empty s.line) _ _
      (λ _. load_lines-AddsIf read env file depth mark lines scanned m reads)
      (λ _.
        elim-Option P r.1 _ _
          (λ _.
            AddsIf-trans env mark m (r.0).1 _ fine.0
              (load_lines-AddsIf read env file depth mark lines (r.0).0 (r.0).1 reads))
          (λ suite e.
            elim-Option P (read suite.0 suite.1 (r.0).1) _ _ (λ _. tt)
              (λ m' e'.
                let nested =
                  AddsIf-some env mark suite.1 (r.0).1 m' _ (fine.1 suite e)
                    (reads suite.0 suite.1 (r.0).1) e' in
                AddsIf-trans env mark m m' _ (Adds-trans env mark m (r.0).1 m' fine.0 nested)
                  (load_lines-AddsIf read env file depth mark lines (r.0).0 m' reads))))

load_file-AddsIf :
    (read : Bytes → Mark → Manager → Option Manager) (env : Env) (file : Bytes) (depth : ℕ)
    (mark : Mark) (flag : ℕ) (m : Manager)
    → Reads env read
    → AddsIf env mark m (load_file read env file depth mark flag m)
unfolding load_file
load_file-AddsIf read env file depth mark flag m reads =
    elim-Option (AddsIf env mark m) (opened env depth file) _ _
      (λ _. Adds-none env mark m m refl refl refl)
      (λ lines e. load_lines-AddsIf read env file depth mark lines _ m reads)

load_nested-AddsIf : (env : Env) (fuel depth : ℕ) → Reads env (load_nested env fuel depth)
unfolding load_nested
load_nested-AddsIf env zero depth file mark m = tt
load_nested-AddsIf env (suc fuel) depth file mark m =
    load_file-AddsIf (load_nested env fuel (suc depth)) env file depth mark env.garbage m
      (load_nested-AddsIf env fuel (suc depth))

-- The suite itself, at the top level.
start-Adds :
    (env : Env) (file : Bytes) (mark : Mark) (m : Manager)
    → is_known (case_type file) ≡ true
    → Adds env mark m (start env file mark m)
unfolding start
start-Adds env file mark m known = push-Adds env mark _ m (record {
  typed = refl;
  known = known;
  skipped = λ h. rw h refl;
  below = λ h.
      if-both (λ (k : Mark). is_runable k ≡ false) (is_skipped env file) run_skip mark (λ _. refl)
        (λ _. h);
})

pub by_type :
    (P : Option Manager → Type 0) (t : CaseType) (x y z : Option Manager)
    → P x
    → (is_known t ≡ true → P y)
    → (is_known t ≡ true → P z)
    → P (elim t [ unknown ↦ x | sql ↦ y | xml ↦ y | ts ↦ z | tl ↦ z ])
by_type P unknown x y z h k l = h
by_type P sql x y z h k l = k refl
by_type P ts x y z h k l = l refl
by_type P tl x y z h k l = l refl
by_type P xml x y z h k l = k refl

load-AddsIf :
    (env : Env) (fuel : ℕ) (file : Bytes) (mark : Mark) (m : Manager)
    → AddsIf env mark m (load env fuel file mark m)
unfolding load
load-AddsIf env fuel file mark m =
    let m0 = record m { platform_name = []; set_info = 0 } in
    let m1 = start env file mark m0 in
    let opened = Adds-none env mark m m0 refl refl refl in
    let started = λ (known : is_known (case_type file) ≡ true).
      Adds-trans env mark m m0 m1 opened (start-Adds env file mark m0 known) in
    by_type (AddsIf env mark m) (case_type file) _ _ _ opened started (λ known.
      AddsIf-trans env mark m m1 _ (started known) (
        load_file-AddsIf (load_nested env fuel 1) env file 0 mark plat_on m1
          (load_nested-AddsIf env fuel 1)))

-- A load that ends adds cases behind the shared list, or behind the user's list while that one is
-- read, and keeps the other list. Each added case, of nested suites too, has the type of its name and
-- no unknown one, is marked as skipped where the skip map names it, and does not run where the mark
-- that the load is given does not.
pub load-Adds :
    (env : Env) (fuel : ℕ) (file : Bytes) (mark : Mark) (m m' : Manager)
    → load env fuel file mark m ≡ some m'
    → Adds env mark m m'
load-Adds env fuel file mark m m' e =
    AddsIf-some env mark mark m m' _ (λ h. h) (load-AddsIf env fuel file mark m) e

-- ===== src/CaseManager/Nesting.antt =====
-- src/atsclnt/caseManager.cpp: `CaseManager::load` ends.
use natc.Base.{
  ◌+◌, ◌<◌, ltb, arith, ltb→lt, Bool-cases, inl, inr, ℕ, zero, suc, ◌≡◌, refl, ap, sym, ◌∙◌, Bool,
  true, false, if◌then◌else◌, List, [], ◌∷◌, ◌++◌, Option, none, some, Bytes, codes, All, elim-Bool,
  elim-Option, if-both, subst,
}
use natc.CaseManager.State.{Mark, plat_on, Manager, case_type}
use natc.CaseManager.Line.{Scan, scan_line}
use natc.CaseManager.Load.{
  Env, contains, directory, is_known, names_suite, one_case, load_lines, opened, load_file,
  load_nested, load,
}
use natc.CaseManager.Platform.{is_empty, Locals, Frame}
use natc.CaseManager.Loading.{by_type}
use natc.CaseManager.Texts.{text_of, scan_line-text}

-- The suites that a file names are nested at most this deep, the file counted in.
abbrev pub IsNested : Env → ℕ → Bytes → Type 0
IsNested env zero file = ⊥
IsNested env (suc depth) file =
    (lines : List Bytes)
    → env.files file ≡ some lines
    → All
        (λ bytes.
          names_suite (text_of bytes) ≡ true → IsNested env depth (directory file ++ text_of bytes))
        lines

-- The lines of the file are all that has to be looked at.
pub IsNested-lines :
    (env : Env) (depth : ℕ) (file : Bytes) (lines : List Bytes)
    → env.files file ≡ some lines
    → All
        (λ bytes.
          names_suite (text_of bytes) ≡ true → IsNested env depth (directory file ++ text_of bytes))
        lines
    → IsNested env (suc depth) file
IsNested-lines env depth file lines opens all other e =
    let same : lines ≡ other = cc in
    subst
      (All (λ bytes.
        names_suite (text_of bytes) ≡ true → IsNested env depth (directory file ++ text_of bytes)))
      same all

if-names :
    (b : Bool) (name : Bytes) (mark : Mark) (suite : Bytes × Mark)
    → (if b then some (name, mark) else none) ≡ some suite
    → (b ≡ true) × (suite.0 ≡ name)
if-names true name mark suite e =
    (refl, sym (ap (λ (o : Option (Bytes × Mark)). elim o [ none ↦ name | some x ↦ x.0 ]) e))
if-names false name mark suite e = cc

-- What a line makes the loader read is what it names, if it names a suite.
one_case-names :
    (env : Env) (file : Bytes) (depth : ℕ) (name : Bytes) (s : Scan) (f : Frame)
    (suite : Bytes × Mark)
    → (one_case env file depth name s f).1 ≡ some suite
    → (names_suite s.line ≡ true) × (suite.0 ≡ name)
unfolding one_case
one_case-names env file depth name s f suite =
    let P = λ (r : Frame × Option (Bytes × Mark)).
      r.1 ≡ some suite → (names_suite s.line ≡ true) × (suite.0 ≡ name) in
    if-both P (contains s.line (codes "TestSuiteDescription")) _ _ (λ _ e. cc)
      (λ _.
        if-both P (contains s.line (codes ".")) _ _
          (λ _.
            if-both P (is_known (case_type name)) _ _
              (λ _. if-names (names_suite s.line) name _ suite) (λ _ e. cc))
          (λ _. if-names (names_suite s.line) name _ suite))

-- The result is a state, and not the end of the fuel.
abbrev pub Ends : Option Manager → Type 0
Ends r = (m : Manager) × (r ≡ some m)

-- The reader ends on the suites that the lines name.
abbrev ReadsAll : (Bytes → Mark → Manager → Option Manager) → Bytes → List Bytes → Type 0
ReadsAll read file = All (λ bytes.
    names_suite (text_of bytes) ≡ true
    → (mark : Mark) (m : Manager) → Ends (read (directory file ++ text_of bytes) mark m))

load_lines-Ends :
    (read : Bytes → Mark → Manager → Option Manager) (env : Env) (file : Bytes) (depth : ℕ)
    (mark : Mark) (lines : List Bytes) (l : Locals) (m : Manager)
    → ReadsAll read file lines
    → Ends (load_lines read env file depth mark lines l m)
unfolding load_lines
load_lines-Ends read env file depth mark [] l m all = (m, refl)
load_lines-Ends read env file depth mark (bytes ∷ lines) l m all =
    let s = scan_line mark l.scan_flag l.scan_platform bytes in
    let text = scan_line-text mark l.scan_flag l.scan_platform bytes in
    let scanned = record l { scan_platform = s.platform; scan_flag = s.flag } in
    let r = one_case env file depth (directory file ++ s.line) s (scanned, m) in
    elim-Bool Ends (is_empty s.line) _ _
      (λ _. load_lines-Ends read env file depth mark lines scanned m all.1)
      (λ _.
        elim-Option Ends r.1 _ _
          (λ _. load_lines-Ends read env file depth mark lines (r.0).0 (r.0).1 all.1)
          (λ suite e.
            let (names, e') =
              one_case-names env file depth (directory file ++ s.line) s (scanned, m) suite e in
            let (m', ends) = all.0 (ap names_suite (sym text) ∙ names) suite.1 (r.0).1 in
            let same : read suite.0 suite.1 (r.0).1 ≡ some m' =
              ap (λ b. read b suite.1 (r.0).1) (e' ∙ ap (λ b. directory file ++ b) text) ∙ ends in
            elim-Option Ends (read suite.0 suite.1 (r.0).1) _ _ (λ gone. cc)
              (λ m'' _. load_lines-Ends read env file depth mark lines (r.0).0 m'' all.1)))

load_file-Ends :
    (read : Bytes → Mark → Manager → Option Manager) (env : Env) (file : Bytes) (depth : ℕ)
    (mark : Mark) (flag : ℕ) (m : Manager)
    → ((lines : List Bytes) → opened env depth file ≡ some lines → ReadsAll read file lines)
    → Ends (load_file read env file depth mark flag m)
unfolding load_file
load_file-Ends read env file depth mark flag m all =
    elim-Option Ends (opened env depth file) _ _ (λ _. (m, refl))
      (λ lines e. load_lines-Ends read env file depth mark lines _ m (all lines e))

-- A file that is opened is there, and the levels above leave a file to be opened.
opened-files :
    (env : Env) (depth : ℕ) (file : Bytes) (lines : List Bytes)
    → opened env depth file ≡ some lines
    → (env.files file ≡ some lines) × (depth < env.open_limit)
opened-files env depth file lines e = elim (Bool-cases (ltb depth env.open_limit)) [
  | inl room ↦ (
    sym (ap (λ b. if b then env.files file else none) room) ∙ e,
    ltb→lt depth env.open_limit room,
  )
  | inr full ↦ let closed = sym (ap (λ b. if b then env.files file else none) full) ∙ e in cc
]

All-map :
    {P Q : Bytes → Type 0} (lines : List Bytes)
    → ((b : Bytes) → P b → Q b)
    → All P lines
    → All Q lines
All-map [] f a = tt
All-map (b ∷ lines) f a = (f b a.0, All-map lines f a.1)

load_nested-Ends :
    (env : Env) (fuel depth : ℕ) (file : Bytes) (mark : Mark) (m : Manager)
    → IsNested env fuel file
    → Ends (load_nested env fuel depth file mark m)
unfolding load_nested
load_nested-Ends env zero depth file mark m n = absurd n
load_nested-Ends env (suc fuel) depth file mark m n =
    load_file-Ends (load_nested env fuel (suc depth)) env file depth mark env.garbage m (λ lines e.
      All-map lines
        (λ b h names mark' m'. load_nested-Ends env fuel (suc depth) _ mark' m' (h names))
        (n lines (opened-files env depth file lines e).0))

-- A load ends where the suites are nested finitely deep: with one unit of fuel for each level below
-- the first.
pub load-Ends :
    (env : Env) (fuel : ℕ) (file : Bytes) (mark : Mark) (m : Manager)
    → IsNested env (suc fuel) file
    → Ends (load env fuel file mark m)
unfolding load
load-Ends env fuel file mark m n =
    by_type Ends (case_type file) _ _ _ (_, refl) (λ _. (_, refl))
      (λ _. load_file-Ends (load_nested env fuel 1) env file 0 mark plat_on _ (λ lines e.
        All-map lines (λ b h names mark' m'. load_nested-Ends env fuel 1 _ mark' m' (h names))
          (n lines (opened-files env 0 file lines e).0)))

All-each : {P : Bytes → Type 0} (lines : List Bytes) → ((b : Bytes) → P b) → All P lines
All-each [] f = tt
All-each (b ∷ lines) f = (f b, All-each lines f)

load_nested-Ends_limit :
    (env : Env) (fuel depth : ℕ) (file : Bytes) (mark : Mark) (m : Manager)
    → 0 < fuel
    → env.open_limit < depth + fuel
    → Ends (load_nested env fuel depth file mark m)
unfolding load_nested
load_nested-Ends_limit env zero depth file mark m some_fuel enough =
    absurd (omega (arith, some_fuel))
load_nested-Ends_limit env (suc fuel) depth file mark m some_fuel enough =
    load_file-Ends (load_nested env fuel (suc depth)) env file depth mark env.garbage m (λ lines e.
      let below = (opened-files env depth file lines e).1 in
      All-each lines (λ b _ mark' m'.
        load_nested-Ends_limit env fuel (suc depth) _ mark' m' (omega (arith, below, enough))
          (omega (arith, enough))))

-- However the suites name each other, or themselves, a load ends: one unit of fuel for each file that can
-- be open at a time is enough, since each level keeps its file open while it loads the suites below, and a
-- file that cannot be opened is passed over.
pub load-Ends_limit :
    (env : Env) (file : Bytes) (mark : Mark) (m : Manager)
    → Ends (load env env.open_limit file mark m)
unfolding load
load-Ends_limit env file mark m =
    by_type Ends (case_type file) _ _ _ (_, refl) (λ _. (_, refl))
      (λ _. load_file-Ends (load_nested env env.open_limit 1) env file 0 mark plat_on _ (λ lines e.
        let some_room = (opened-files env 0 file lines e).1 in
        All-each lines (λ b _ mark' m'.
          load_nested-Ends_limit env env.open_limit 1 _ mark' m' some_room (omega arith))))

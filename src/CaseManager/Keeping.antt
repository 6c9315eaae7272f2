-- ===== src/CaseManager/Keeping.antt =====
-- src/atsclnt/caseManager.cpp: `CaseManager::load` adds only listed cases, below the suite's mark.
use natc.Base.{
  ℕ, ◌≡◌, refl, ap, ap₂, sym, ◌∙◌, Bool, true, false, ◌&&◌, not, ltb, leb, if◌then◌else◌, List,
  Option, none, some, Bytes, codes, if-both,
}
use natc.CaseManager.State.{Mark, CaseInfo, Manager, case_type}
use natc.CaseManager.Line.{Scan}
use natc.CaseManager.Load.{Env, contains, push, case_of, is_known, names_suite, one_case}
use natc.CaseManager.Platform.{
  is_empty, Frame, take_own, inherit, close_level, open_level, inherit_level, leave_level,
  replace_level, choose_platform,
}
use natc.CaseManager.Adding.{is_runable, Adds, Adds-none, Adds-trans, push-Adds, case_of-Listed}

-- The two lists, and the choice between them, are the same.
record SameLists (m m' : Manager) : Type 0 where
  cases_stay : m'.cases ≡ m.cases
  local_stay : m'.local_cases ≡ m.local_cases
  choice_stays : m'.need_merge ≡ m.need_merge

at_once : (f : Frame) → SameLists f.1 f.1
at_once f = record { cases_stay = refl; local_stay = refl; choice_stays = refl }

own-SameLists :
    (depth : ℕ) (platform : Bytes) (flag : ℕ) (f : Frame) (m : Manager)
    → SameLists m f.1
    → SameLists m (take_own depth platform flag f).1
own-SameLists depth platform flag (l, m') m s = record {
  cases_stay = s.cases_stay;
  local_stay = s.local_stay;
  choice_stays = s.choice_stays;
}

inherit-SameLists : (f : Frame) (m : Manager) → SameLists m f.1 → SameLists m (inherit f).1
inherit-SameLists (l, m') m s = s

close-SameLists : (f : Frame) (m : Manager) → SameLists m f.1 → SameLists m (close_level f).1
close-SameLists (l, m') m s = record {
  cases_stay = s.cases_stay;
  local_stay = s.local_stay;
  choice_stays = s.choice_stays;
}

-- The choice of a platform leaves the lists as they are.
choose_platform-SameLists :
    (depth : ℕ) (platform : Bytes) (flag : ℕ) (f : Frame)
    → SameLists f.1 (choose_platform depth platform flag f).1
unfolding choose_platform open_level inherit_level leave_level replace_level
choose_platform-SameLists depth platform flag f =
    let f1 = open_level depth platform flag f in
    let f2 = inherit_level depth f1 in
    let f3 = leave_level depth platform f2 in
    let same = λ (g : Frame). SameLists f.1 g.1 in
    let s0 = at_once f in
    let s1 : SameLists f.1 f1.1 =
      if-both same (not (is_empty platform) && is_empty (f.1).platform_name)
        (take_own depth platform flag f) f (λ _. own-SameLists depth platform flag f f.1 s0)
        (λ _. s0) in
    let s2 : SameLists f.1 f2.1 =
      if-both same (ltb (f1.1).find_level depth && not (is_empty (f1.1).platform_name)) (inherit f1)
        f1 (λ _. inherit-SameLists f1 f.1 s1) (λ _. s1) in
    let s3 : SameLists f.1 f3.1 =
      if-both same (leb depth (f2.1).find_level && is_empty platform) (close_level f2) f2
        (λ _. close-SameLists f2 f.1 s2) (λ _. s2) in
    if-both same (leb depth (f3.1).find_level && not (is_empty platform))
      (take_own depth platform flag f3) f3 (λ _. own-SameLists depth platform flag f3 f.1 s3)
      (λ _. s3)

-- Lists that stay are lists to which nothing is added.
SameLists-Adds : (env : Env) (mark : Mark) (m m' : Manager) → SameLists m m' → Adds env mark m m'
SameLists-Adds env mark m m' s =
    let pick = λ (x y : List CaseInfo). if m.need_merge then x else y in
    Adds-none env mark m m'
      (ap (λ (b : Bool). if b then m'.local_cases else m'.cases) s.choice_stays
        ∙ ap₂ pick s.local_stay s.cases_stay)
      (ap (λ (b : Bool). if b then m'.cases else m'.local_cases) s.choice_stays
        ∙ ap₂ pick s.cases_stay s.local_stay)
      s.choice_stays

-- The frame and the suite that a line leaves, read with the mark.
abbrev pub Fine : Env → Mark → Manager → Frame × Option (Bytes × Mark) → Type 0
Fine env mark m r =
    Adds env mark m (r.0).1
    × ((suite : Bytes × Mark)
        → r.1 ≡ some suite
        → is_runable mark ≡ false
        → is_runable suite.1 ≡ false)

nested-below :
    (mark mark' : Mark) (b : Bool) (name : Bytes) (suite : Bytes × Mark)
    → (is_runable mark ≡ false → is_runable mark' ≡ false)
    → (if b then some (name, mark') else none) ≡ some suite
    → is_runable mark ≡ false
    → is_runable suite.1 ≡ false
nested-below mark mark' true name suite w e h =
    ap is_runable
      (ap (λ (o : Option (Bytes × Mark)). elim o [ none ↦ mark' | some x ↦ x.1 ]) (sym e))
    ∙ w h
nested-below mark mark' false name suite w e h = cc

pub one_case-Fine :
    (env : Env) (mark : Mark) (file : Bytes) (depth : ℕ) (name : Bytes) (s : Scan) (f : Frame)
    → (is_runable mark ≡ false → is_runable s.mark ≡ false)
    → Fine env mark f.1 (one_case env file depth name s f)
unfolding one_case
one_case-Fine env mark file depth name s f below =
    let chosen = choose_platform depth s.platform s.flag f in
    let c = case_of env file name s chosen.0 in
    let stays = λ (m : Manager) (e : SameLists f.1 m). SameLists-Adds env mark f.1 m e in
    let same = choose_platform-SameLists depth s.platform s.flag f in
    let P = Fine env mark f.1 in
    if-both P (contains s.line (codes "TestSuiteDescription")) _ _
      (λ _. (stays f.1 (at_once f), λ suite e. cc))
      (λ _.
        if-both P (contains s.line (codes ".")) _ _
          (λ _.
            if-both P (is_known (case_type name)) _ _
              (λ known.
                let listed = case_of-Listed env mark file name s chosen.0 known below in
                (
                  Adds-trans env mark f.1 chosen.1 (push c chosen.1) (stays chosen.1 same)
                      (push-Adds env mark c chosen.1 listed),
                  λ suite. nested-below mark c.mark (names_suite s.line) name suite listed.below,
                ))
              (λ _. (stays chosen.1 same, λ suite e. cc)))
          (λ _. (
            stays f.1 (at_once f),
            λ suite. nested-below mark s.mark (names_suite s.line) name suite below,
          )))

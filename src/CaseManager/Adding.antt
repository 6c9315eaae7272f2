-- ===== src/CaseManager/Adding.antt =====
-- src/atsclnt/caseManager.cpp: what `CaseManager::load` adds to the lists of cases.
use natc.Base.{
  ℕ, ◌≡◌, refl, ap, sym, ◌∙◌, Bool, true, false, if◌then◌else◌, List, [], ◌∷◌, ◌++◌, Bytes, arith,
  All, All-append, append_assoc, append-nil, if-both,
}
use natc.CaseManager.State.{Mark, runable, not_runable, run_skip, CaseInfo, Manager, case_type}
use natc.CaseManager.Line.{
  Scan, Mode, first, plain, bracket, inside, closed, remark, over, scan_byte, scan_bytes, scan_line,
}
use natc.CaseManager.Load.{Env, is_skipped, push, case_of, is_known}
use natc.CaseManager.Platform.{Locals}

abbrev pub is_runable : Mark → Bool
is_runable runable = true
is_runable not_runable = false
is_runable run_skip = false

-- A case of a suite that is read with the mark: it has the type of its name, a skipped one is marked
-- so, and where the suite does not run neither does the case.
pub record Listed (env : Env) (mark : Mark) (c : CaseInfo) : Type 0 where
  pub typed : c.type ≡ case_type c.name
  pub known : is_known c.type ≡ true
  pub skipped : is_skipped env c.name ≡ true → c.mark ≡ run_skip
  pub below : is_runable mark ≡ false → is_runable c.mark ≡ false

-- The list that `push` adds to, and the other one.
abbrev pub target : Manager → List CaseInfo
target m = if m.need_merge then m.local_cases else m.cases

abbrev pub other : Manager → List CaseInfo
other m = if m.need_merge then m.cases else m.local_cases

-- The second state is the first one with listed cases added behind the one list.
pub record Adds (env : Env) (mark : Mark) (m m' : Manager) : Type 0 where
  pub added : List CaseInfo
  pub listed : All (Listed env mark) added
  pub behind : target m' ≡ target m ++ added
  pub kept : other m' ≡ other m
  pub same_list : m'.need_merge ≡ m.need_merge

pushed :
    (c : CaseInfo) (cases local_cases : List CaseInfo) (platform_name : Bytes)
    (set_info find_level : ℕ) (need_merge : Bool)
    → (let m : Manager = record {
      cases = cases;
      local_cases = local_cases;
      platform_name = platform_name;
      set_info = set_info;
      find_level = find_level;
      need_merge = need_merge;
    } in
        (target (push c m) ≡ target m ++ c ∷ [])
        × (other (push c m) ≡ other m)
        × ((push c m).need_merge ≡ need_merge))
unfolding push
pushed c cases local_cases platform_name set_info find_level true = (refl, refl, refl)
pushed c cases local_cases platform_name set_info find_level false = (refl, refl, refl)

module _ (env : Env) (mark : Mark) where
  -- Nothing is added where both lists stay.
  pub Adds-none :
      (m m' : Manager)
      → target m' ≡ target m
      → other m' ≡ other m
      → m'.need_merge ≡ m.need_merge
      → Adds env mark m m'
  Adds-none m m' t o n = record {
    added = [];
    listed = tt;
    behind = t ∙ sym (append-nil (target m));
    kept = o;
    same_list = n;
  }

  pub Adds-trans :
      (m m' m'' : Manager) → Adds env mark m m' → Adds env mark m' m'' → Adds env mark m m''
  Adds-trans m m' m'' a b = record {
    added = a.added ++ b.added;
    listed = All-append _ a.added b.added a.listed b.listed;
    behind =
        b.behind
        ∙ ap (λ (l : List CaseInfo). l ++ b.added) a.behind
        ∙ append_assoc (target m) a.added b.added;
    kept = b.kept ∙ a.kept;
    same_list = b.same_list ∙ a.same_list;
  }

  pub push-Adds : (c : CaseInfo) (m : Manager) → Listed env mark c → Adds env mark m (push c m)
  push-Adds c m l =
      let (t, o, n) =
        pushed c m.cases m.local_cases m.platform_name m.set_info m.find_level m.need_merge in
      record { added = c ∷ []; listed = (l, tt); behind = t; kept = o; same_list = n }

Listed-weaken :
    (env : Env) (mark mark' : Mark) (cs : List CaseInfo)
    → (is_runable mark ≡ false → is_runable mark' ≡ false)
    → All (Listed env mark') cs
    → All (Listed env mark) cs
Listed-weaken env mark mark' [] w a = tt
Listed-weaken env mark mark' (c ∷ cs) w a = (
  record {
    typed = (a.0).typed;
    known = (a.0).known;
    skipped = (a.0).skipped;
    below = λ h. (a.0).below (w h);
  },
  Listed-weaken env mark mark' cs w a.1,
)

-- What is added below a mark that the suite gives is added below the mark of the suite.
pub Adds-weaken :
    (env : Env) (mark mark' : Mark) (m m' : Manager)
    → (is_runable mark ≡ false → is_runable mark' ≡ false)
    → Adds env mark' m m'
    → Adds env mark m m'
Adds-weaken env mark mark' m m' w a = record {
  added = a.added;
  listed = Listed-weaken env mark mark' a.added w a.listed;
  behind = a.behind;
  kept = a.kept;
  same_list = a.same_list;
}

scan_byte-mark :
    (mode : Mode) (c : ℕ) (s : Scan)
    → is_runable s.mark ≡ false
    → is_runable ((scan_byte mode c s).1).mark ≡ false
unfolding scan_byte
scan_byte-mark first c s h = ground arith
scan_byte-mark plain c s h = ground arith
scan_byte-mark bracket c s h = ground arith
scan_byte-mark inside c s h = ground arith
scan_byte-mark closed c s h = ground arith
scan_byte-mark remark c s h = ground arith
scan_byte-mark over c s h = h

scan_bytes-mark :
    (mode : Mode) (bytes : Bytes) (s : Scan)
    → is_runable s.mark ≡ false
    → is_runable (scan_bytes mode bytes s).mark ≡ false
unfolding scan_bytes
scan_bytes-mark first [] s h = h
scan_bytes-mark plain [] s h = h
scan_bytes-mark bracket [] s h = h
scan_bytes-mark inside [] s h = h
scan_bytes-mark closed [] s h = h
scan_bytes-mark remark [] s h = h
scan_bytes-mark over [] s h = h
scan_bytes-mark mode (c ∷ bytes) s h =
    let r = scan_byte mode c s in scan_bytes-mark r.0 bytes r.1 (scan_byte-mark mode c s h)

-- A line of a suite that does not run names no case that runs.
pub scan_line-mark :
    (mark : Mark) (flag : ℕ) (platform bytes : Bytes)
    → is_runable mark ≡ false
    → is_runable (scan_line mark flag platform bytes).mark ≡ false
unfolding scan_line
scan_line-mark mark flag platform bytes h = scan_bytes-mark first bytes _ h

pub case_of-Listed :
    (env : Env) (mark : Mark) (file name : Bytes) (s : Scan) (l : Locals)
    → is_known (case_type name) ≡ true
    → (is_runable mark ≡ false → is_runable s.mark ≡ false)
    → Listed env mark (case_of env file name s l)
case_of-Listed env mark file name s l known below = record {
  typed = refl;
  known = known;
  skipped = λ h. rw h refl;
  below = λ h.
      if-both (λ (k : Mark). is_runable k ≡ false) (is_skipped env name) run_skip s.mark (λ _. refl)
        (λ _. below h);
}

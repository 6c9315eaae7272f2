-- ===== src/CaseManager/Platform.antt =====
-- src/atsclnt/caseManager.cpp: how `CaseManager::load` chooses the platform of a case.
use natc.Base.{ℕ, Bool, true, false, ◌&&◌, not, if◌then◌else◌, ltb, leb, [], ◌∷◌, Bytes}
use natc.CaseManager.State.{Manager, plat_off}

abbrev pub is_empty : Bytes → Bool
is_empty [] = true
is_empty (c ∷ cs) = false

-- The variables of one call that last from line to line: `sPlatformName`, `sFlag`, and the flag and
-- platform of `mCaseInfo`.
pub record Locals : Type 0 where
  pub scan_platform : Bytes
  pub scan_flag : ℕ
  pub flag : ℕ
  pub platform : Bytes

-- The local variables and the manager.
abbrev pub Frame : Type 0
Frame = Locals × Manager

-- The case's own platform is taken, and opens a level at this depth.
abbrev pub take_own : ℕ → Bytes → ℕ → Frame → Frame
take_own depth platform flag (l, m) = (
  record l { platform = platform; flag = flag },
  record m { platform_name = platform; set_info = flag; find_level = depth },
)

abbrev pub inherit : Frame → Frame
inherit (l, m) = (record l { platform = m.platform_name; flag = m.set_info }, m)

abbrev pub close_level : Frame → Frame
close_level (l, m) = (
  record l { platform = []; flag = plat_off },
  record m { platform_name = []; set_info = plat_off },
)

-- A platform of its own, where no level is open.
unfoldable pub open_level : ℕ → Bytes → ℕ → Frame → Frame
open_level depth platform flag f =
    if not (is_empty platform) && is_empty (f.1).platform_name
    then take_own depth platform flag f
    else f

-- Below the level that is open.
unfoldable pub inherit_level : ℕ → Frame → Frame
inherit_level depth f =
    if ltb (f.1).find_level depth && not (is_empty (f.1).platform_name) then inherit f else f

-- At the level or above it, without a platform.
unfoldable pub leave_level : ℕ → Bytes → Frame → Frame
leave_level depth platform f =
    if leb depth (f.1).find_level && is_empty platform then close_level f else f

-- At the level or above it, with a platform.
unfoldable pub replace_level : ℕ → Bytes → ℕ → Frame → Frame
replace_level depth platform flag f =
    if leb depth (f.1).find_level && not (is_empty platform)
    then take_own depth platform flag f
    else f

-- The four tests that choose the platform of a case: an own platform opens a level, which the deeper
-- suites inherit, and which the next case at that level or above closes or replaces.
unfoldable pub choose_platform : ℕ → Bytes → ℕ → Frame → Frame
unfolding open_level inherit_level leave_level replace_level
choose_platform depth platform flag f =
    replace_level depth platform flag
      (leave_level depth platform (inherit_level depth (open_level depth platform flag f)))

-- ===== src/CaseManager/Levels.antt =====
-- src/atsclnt/caseManager.cpp: which platform `CaseManager::load` gives to a case.
use natc.Base.{ℕ, ◌≡◌, ◌&&◌, not, if◌then◌else◌, ltb, [], ◌∷◌, Bytes, arith}
use natc.CaseManager.Platform.{
  is_empty, Frame, take_own, inherit, close_level, open_level, inherit_level, leave_level,
  replace_level, choose_platform,
}

-- The rule that the four tests amount to.
abbrev pub level_rule : ℕ → Bytes → ℕ → Frame → Frame
level_rule depth platform flag f =
    let is_open = not (is_empty (f.1).platform_name) in
    let is_below = ltb (f.1).find_level depth in
    if is_below && is_open
    then inherit f
    else if not (is_empty platform)
    then take_own depth platform flag f
    else if is_below
    then f
    else close_level f

-- The platform of a case is the one of the level that is open above it, even if the case names one
-- itself. Elsewhere it is the one that the case names, which opens a level at this depth. A case
-- that names none closes the level at its depth or below it, and changes nothing where no level is
-- open above it.
pub choose_platform-rule :
    (depth : ℕ) (platform : Bytes) (flag : ℕ) (f : Frame)
    → choose_platform depth platform flag f ≡ level_rule depth platform flag f
unfolding choose_platform open_level inherit_level leave_level replace_level
choose_platform-rule depth [] flag f = ground arith
choose_platform-rule depth (c ∷ platform) flag f = ground arith

-- ===== src/CaseManager/Merge.antt =====
-- src/atsclnt/caseManager.cpp: `CaseManager::mergeCase`, which merges the user's cases into the
-- shared ones, and `CaseManager::loadcase`. An iterator into the list is the number of entries
-- before the one that it points to.
use natc.Base.{
  ℕ, zero, suc, ◌+◌, Bool, true, false, ◌==◌, if◌then◌else◌, List, [], ◌∷◌, ◌++◌, Option, none,
  some, Bytes, same, length, drop,
}
use natc.CaseManager.State.{runable, CaseInfo, Manager}
use natc.CaseManager.Load.{Env, load}

-- `find_if` with `CaseCompare`; the length of the list if there is none.
unfoldable pub find_case : Bytes → List CaseInfo → ℕ
find_case name [] = 0
find_case name (c ∷ cs) = if same c.name name then 0 else suc (find_case name cs)

-- The assignments to the case that is found: its platform and its suite stay.
abbrev pub take_over : CaseInfo → CaseInfo → CaseInfo
take_over shared user = record shared {
  name = user.name;
  type = user.type;
  comment = user.comment;
  flag = user.flag;
  mark = user.mark;
}

unfoldable pub update_at : ℕ → CaseInfo → List CaseInfo → List CaseInfo
update_at i user [] = []
update_at zero user (c ∷ cs) = take_over c user ∷ cs
update_at (suc i) user (c ∷ cs) = c ∷ update_at i user cs

-- `list::insert`: the new entry stands before the one that the iterator points to.
unfoldable pub insert_at : ℕ → CaseInfo → List CaseInfo → List CaseInfo
insert_at zero c cs = c ∷ cs
insert_at (suc i) c [] = c ∷ []
insert_at (suc i) c (d ∷ cs) = d ∷ insert_at i c cs

-- `sCompareName`: the user's root is cut off by its length, and the shared root put before the rest.
abbrev pub compare_name : Env → CaseInfo → Bytes
compare_name env user = env.test_case ++ drop (length env.user_test_case) user.name

-- The list and `sIteratorKeep`.
abbrev pub Merging : Type 0
Merging = List CaseInfo × ℕ

-- One round of the loop. An insertion before an iterator leaves it at the same entry.
unfoldable pub merge_one : Env → Bool → CaseInfo → Merging → Merging
unfolding find_case update_at insert_at
merge_one env is_first user (cases, keep) =
    let found = find_case (compare_name env user) cases in
    if found == length cases
    then (if is_first
        then (insert_at found user cases, found + 1)
        else (insert_at keep user cases, keep + 1))
    else (update_at found user cases, found + 1)

unfoldable pub merge_rest : Env → List CaseInfo → Merging → Merging
merge_rest env [] r = r
merge_rest env (user ∷ users) r = merge_rest env users (merge_one env false user r)

-- The loop of `mergeCase`; before its first round the iterator has no value, and none is used.
unfoldable pub merge_cases : Env → List CaseInfo → List CaseInfo → List CaseInfo
merge_cases env [] cases = cases
merge_cases env (user ∷ users) cases = (merge_rest env users (merge_one env true user (cases, 0))).0

-- `mergeCase`.
unfoldable pub merge_case : Env → Manager → Manager
merge_case env m = record m { cases = merge_cases env m.local_cases m.cases }

-- `loadcase`: the shared cases, and with the flag 2 the user's cases merged into them.
unfoldable pub loadcase : Env → ℕ → Bytes → Bytes → ℕ → Manager → Option Manager
loadcase env fuel shared user flag m =
    let m0 = record m { need_merge = false; set_info = 0; find_level = 0 } in
    elim (load env fuel shared runable m0) [
      | none ↦ none
      | some m1 ↦
          if flag == 2
          then elim (load env fuel user runable (record m1 { need_merge = true })) [
            | none ↦ none
            | some m2 ↦ some (merge_case env m2)
          ]
          else some m1
    ]

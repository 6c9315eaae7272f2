-- ===== src/CaseManager/Placing.antt =====
-- src/atsclnt/caseManager.cpp: where one round of `mergeCase` leaves the iterator.
use natc.Base.{
  ℕ, zero, suc, ◌+◌, ◌≤◌, ◌<◌, ◌≡◌, refl, ap, Bool, true, false, ◌==◌, List, [], ◌∷◌, Bytes, some,
  length, arith, Bool-cases, inl, inr, get_elem?,
}
use natc.CaseManager.State.{CaseInfo}
use natc.CaseManager.Load.{Env}
use natc.CaseManager.Merge.{
  find_case, take_over, update_at, insert_at, compare_name, Merging, merge_one,
}

-- A case stands for a user's case: they agree in all but the platform and the suite.
pub record StandsFor (user c : CaseInfo) : Type 0 where
  pub name : c.name ≡ user.name
  pub type : c.type ≡ user.type
  pub comment : c.comment ≡ user.comment
  pub flag : c.flag ≡ user.flag
  pub mark : c.mark ≡ user.mark

-- After a round the iterator is in the list, and the entry before it stands for the user's case.
pub record Placed (user : CaseInfo) (r : Merging) : Type 0 where
  pub at : ℕ
  pub case : CaseInfo
  pub behind : r.1 ≡ suc at
  pub inside : r.1 ≤ length r.0
  pub found : get_elem? r.0 at ≡ some case
  pub stands : StandsFor user case

length-insert_at :
    (i : ℕ) (c : CaseInfo) (cs : List CaseInfo) → length (insert_at i c cs) ≡ suc (length cs)
unfolding insert_at
length-insert_at zero c cs = refl
length-insert_at (suc i) c [] = refl
length-insert_at (suc i) c (d ∷ cs) = ap suc (length-insert_at i c cs)

get_elem?-insert_at :
    (i : ℕ) (c : CaseInfo) (cs : List CaseInfo)
    → i ≤ length cs
    → get_elem? (insert_at i c cs) i ≡ some c
unfolding insert_at
get_elem?-insert_at zero c cs h = refl
get_elem?-insert_at (suc i) c [] h = absurd (omega arith)
get_elem?-insert_at (suc i) c (d ∷ cs) h = get_elem?-insert_at i c cs (omega arith)

find_case-le : (name : Bytes) (cs : List CaseInfo) → find_case name cs ≤ length cs
unfolding find_case
find_case-le name [] = omega arith
find_case-le name (c ∷ cs) = ground (arith, find_case-le name cs)

length-update_at :
    (i : ℕ) (user : CaseInfo) (cs : List CaseInfo) → length (update_at i user cs) ≡ length cs
unfolding update_at
length-update_at i user [] = refl
length-update_at zero user (c ∷ cs) = refl
length-update_at (suc i) user (c ∷ cs) = ap suc (length-update_at i user cs)

update_at-StandsFor :
    (i : ℕ) (user : CaseInfo) (cs : List CaseInfo)
    → i < length cs
    → (c : CaseInfo) × (get_elem? (update_at i user cs) i ≡ some c) × StandsFor user c
unfolding update_at
update_at-StandsFor i user [] h = absurd (omega arith)
update_at-StandsFor zero user (c ∷ cs) h = (take_over c user, refl, ground arith)
update_at-StandsFor (suc i) user (c ∷ cs) h = update_at-StandsFor i user cs (omega arith)

inserted-Placed :
    (i : ℕ) (user : CaseInfo) (cs : List CaseInfo)
    → i ≤ length cs
    → Placed user (insert_at i user cs, i + 1)
inserted-Placed i user cs h = record {
  at = i;
  case = user;
  behind = omega arith;
  inside = omega (arith, length-insert_at i user cs);
  found = get_elem?-insert_at i user cs h;
  stands = ground arith;
}

updated-Placed :
    (i : ℕ) (user : CaseInfo) (cs : List CaseInfo)
    → i < length cs
    → Placed user (update_at i user cs, i + 1)
updated-Placed i user cs h =
    let (c, found, stands) = update_at-StandsFor i user cs h in
    record {
      at = i;
      case = c;
      behind = omega arith;
      inside = omega (arith, length-update_at i user cs);
      found = found;
      stands = stands;
    }

-- Where the iterator is in the list, a round of the merge puts the user's case right before the
-- iterator, whether it takes over a shared case or is inserted: the next case with no shared
-- version therefore follows it. The iterator stays in the list.
pub merge_one-Placed :
    (env : Env) (is_first : Bool) (user : CaseInfo) (r : Merging)
    → r.1 ≤ length r.0
    → Placed user (merge_one env is_first user r)
unfolding merge_one
merge_one-Placed env true user (cs, keep) h =
    let found = find_case (compare_name env user) cs in
    let le = find_case-le (compare_name env user) cs in
    elim (Bool-cases (found == length cs)) [
      | inl missing ↦ rw missing (inserted-Placed found user cs le)
      | inr there ↦ rw there (updated-Placed found user cs (ground arith))
    ]
merge_one-Placed env false user (cs, keep) h =
    let found = find_case (compare_name env user) cs in
    let le = find_case-le (compare_name env user) cs in
    elim (Bool-cases (found == length cs)) [
      | inl missing ↦ rw missing (inserted-Placed keep user cs h)
      | inr there ↦ rw there (updated-Placed found user cs (ground arith))
    ]

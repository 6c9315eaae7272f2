-- ===== src/CaseManager/Merging.antt =====
-- src/atsclnt/caseManager.cpp: what `mergeCase` keeps of the shared cases, and where it puts the
-- user's cases that have no shared version.
use natc.Base.{
  ℕ, zero, suc, ◌+◌, ◌≡◌, refl, ap, sym, ◌∙◌, Bool, true, false, ◌==◌, List, [], ◌∷◌, ◌++◌, Bytes,
  same, length, length-append, arith, All, Bool-cases, inl, inr, append_assoc, append-nil, ==_self,
  subst,
}
use natc.CaseManager.State.{CaseInfo}
use natc.CaseManager.Load.{Env}
use natc.CaseManager.Merge.{
  find_case, take_over, update_at, insert_at, compare_name, Merging, merge_one, merge_rest,
  merge_cases,
}

-- The first list is a subsequence of the second.
pub data Within : List CaseInfo → List CaseInfo → Type 0 where
  stop : (ys : List CaseInfo) → Within [] ys
  take : {xs ys : List CaseInfo} (x : CaseInfo) → Within xs ys → Within (x ∷ xs) (x ∷ ys)
  skip : {xs ys : List CaseInfo} (y : CaseInfo) → Within xs ys → Within xs (y ∷ ys)

-- No case of the list has the name.
abbrev pub Avoids : Bytes → List CaseInfo → Type 0
Avoids name = All (λ c. same c.name name ≡ false)

Within-insert_at :
    {xs ys : List CaseInfo} (i : ℕ) (c : CaseInfo) → Within xs ys → Within xs (insert_at i c ys)
unfolding insert_at
Within-insert_at i c (stop ys) = stop (insert_at i c ys)
Within-insert_at zero c (take x w) = skip c (take x w)
Within-insert_at (suc i) c (take x w) = take x (Within-insert_at i c w)
Within-insert_at zero c (skip y w) = skip c (skip y w)
Within-insert_at (suc i) c (skip y w) = skip y (Within-insert_at i c w)

Within-update_at :
    {xs ys : List CaseInfo} (name : Bytes) (user : CaseInfo)
    → Within xs ys
    → Avoids name xs
    → Within xs (update_at (find_case name ys) user ys)
unfolding update_at find_case
Within-update_at name user (stop ys) a = stop (update_at (find_case name ys) user ys)
Within-update_at name user (take x w) a = rw a.0 (take x (Within-update_at name user w a.1))
Within-update_at name user (skip {ys} y w) a = elim (Bool-cases (same y.name name)) [
  | inl hit ↦ rw hit (skip (take_over y user) w)
  | inr other ↦ rw other (skip y (Within-update_at name user w a))
]

merge_one-Within :
    {xs : List CaseInfo} (env : Env) (is_first : Bool) (user : CaseInfo) (r : Merging)
    → Within xs r.0
    → Avoids (compare_name env user) xs
    → Within xs (merge_one env is_first user r).0
unfolding merge_one
merge_one-Within env true user (cases, keep) w a =
    let found = find_case (compare_name env user) cases in
    elim (Bool-cases (found == length cases)) [
      | inl missing ↦ rw missing (Within-insert_at found user w)
      | inr there ↦ rw there (Within-update_at (compare_name env user) user w a)
    ]
merge_one-Within env false user (cases, keep) w a =
    let found = find_case (compare_name env user) cases in
    elim (Bool-cases (found == length cases)) [
      | inl missing ↦ rw missing (Within-insert_at keep user w)
      | inr there ↦ rw there (Within-update_at (compare_name env user) user w a)
    ]

merge_rest-Within :
    {xs : List CaseInfo} (env : Env) (users : List CaseInfo) (r : Merging)
    → Within xs r.0
    → All (λ u. Avoids (compare_name env u) xs) users
    → Within xs (merge_rest env users r).0
unfolding merge_rest
merge_rest-Within env [] r w a = w
merge_rest-Within env (user ∷ users) r w a =
    merge_rest-Within env users (merge_one env false user r)
      (merge_one-Within env false user r w a.0) a.1

-- Merging loses no shared case and keeps their order: any subsequence of the shared cases in which
-- no case has the name of a user's case, as it reads under the shared root, is a subsequence of the
-- merged list, each case unchanged.
pub merge_cases-Within :
    (survivors cases users : List CaseInfo) (env : Env)
    → Within survivors cases
    → All (λ u. Avoids (compare_name env u) survivors) users
    → Within survivors (merge_cases env users cases)
unfolding merge_cases
merge_cases-Within survivors cases [] env w a = w
merge_cases-Within survivors cases (user ∷ users) env w a =
    merge_rest-Within env users (merge_one env true user (cases, 0))
      (merge_one-Within env true user (cases, 0) w a.0) a.1

find_case-Avoids :
    (name : Bytes) (cases : List CaseInfo) → Avoids name cases → find_case name cases ≡ length cases
unfolding find_case
find_case-Avoids name [] a = refl
find_case-Avoids name (c ∷ cases) a = rw a.0 (ap suc (find_case-Avoids name cases a.1))

insert_at-length :
    (c : CaseInfo) (cases : List CaseInfo) → insert_at (length cases) c cases ≡ cases ++ c ∷ []
unfolding insert_at
insert_at-length c [] = refl
insert_at-length c (d ∷ cases) = ap (◌∷◌ d) (insert_at-length c cases)

-- A user's case that no case of the list stands for goes behind the last one, where the iterator
-- points there.
merge_one-append :
    (env : Env) (is_first : Bool) (user : CaseInfo) (cases : List CaseInfo)
    → Avoids (compare_name env user) cases
    → merge_one env is_first user (cases, length cases) ≡ (cases ++ user ∷ [], length cases + 1)
unfolding merge_one
merge_one-append env true user cases a =
    rw (find_case-Avoids _ cases a, ==_self (length cases), insert_at-length user cases)
merge_one-append env false user cases a =
    rw (find_case-Avoids _ cases a, ==_self (length cases), insert_at-length user cases)

-- Nor does a first case depend on where the iterator points.
merge_one-first :
    (env : Env) (user : CaseInfo) (cases : List CaseInfo) (k : ℕ)
    → Avoids (compare_name env user) cases
    → merge_one env true user (cases, k) ≡ (cases ++ user ∷ [], length cases + 1)
unfolding merge_one
merge_one-first env user cases k a =
    rw (find_case-Avoids _ cases a, ==_self (length cases), insert_at-length user cases)

All-left {ℓ κ} : {A : Type ℓ} (P : A → Type κ) (xs ys : List A) → All P (xs ++ ys) → All P xs
All-left P [] ys a = tt
All-left P (x ∷ xs) ys a = (a.0, All-left P xs ys a.1)

merge_rest-append :
    (env : Env) (users cases : List CaseInfo)
    → All (λ u. Avoids (compare_name env u) (cases ++ users)) users
    → (merge_rest env users (cases, length cases)).0 ≡ cases ++ users
unfolding merge_rest
merge_rest-append env [] cases a = sym (append-nil cases)
merge_rest-append env (user ∷ users) cases a =
    let step = merge_one-append env false user cases (All-left _ cases (user ∷ users) a.0) in
    let len : length cases + 1 ≡ length (cases ++ user ∷ []) =
      omega (arith, length-append cases (user ∷ [])) in
    let regroup = append_assoc cases (user ∷ []) users in
    ap (λ (r : Merging). (merge_rest env users r).0) step
    ∙ ap (λ (k : ℕ). (merge_rest env users (cases ++ user ∷ [], k)).0) len
    ∙ merge_rest-append env users (cases ++ user ∷ [])
        (subst (λ l. All (λ u. Avoids (compare_name env u) l) users) (sym regroup) a.1)
    ∙ regroup

-- Where no user's case has a shared version, in the shared list or among the user's cases, all of
-- them go behind the shared cases, in their order, and nothing else changes.
pub merge_cases-append :
    (env : Env) (users cases : List CaseInfo)
    → All (λ u. Avoids (compare_name env u) (cases ++ users)) users
    → merge_cases env users cases ≡ cases ++ users
unfolding merge_cases
merge_cases-append env [] cases a = sym (append-nil cases)
merge_cases-append env (user ∷ users) cases a =
    let step = merge_one-first env user cases 0 (All-left _ cases (user ∷ users) a.0) in
    let len : length cases + 1 ≡ length (cases ++ user ∷ []) =
      omega (arith, length-append cases (user ∷ [])) in
    let regroup = append_assoc cases (user ∷ []) users in
    ap (λ (r : Merging). (merge_rest env users r).0) step
    ∙ ap (λ (k : ℕ). (merge_rest env users (cases ++ user ∷ [], k)).0) len
    ∙ merge_rest-append env users (cases ++ user ∷ [])
        (subst (λ l. All (λ u. Avoids (compare_name env u) l) users) (sym regroup) a.1)
    ∙ regroup

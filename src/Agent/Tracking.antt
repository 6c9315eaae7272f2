-- ===== src/Agent/Tracking.antt =====
-- src/ats2/serviceManager.cpp: requests that run side by side, and the list that they share.
use natc.Base.{
  ℕ, suc, ◌+◌, ◌-◌, ◌≡◌, ap, sym, ◌∙◌, Bool, true, false, ◌==◌, not, if◌then◌else◌, List, [], ◌∷◌,
  ◌++◌, Option, none, some, arith, update, Bool-cases, inl, inr, if-both, ==→eq, subst,
}
use natc.Agent.Services.{Services, erase, RunAnswers, RunReply, begin_run, end_run}
use natc.Agent.Requests.{begin_run-with, end_run-with}

-- How often a servicer is in the list.
abbrev pub count : ℕ → List ℕ → ℕ
count i [] = 0
count i (j ∷ js) = if j == i then suc (count i js) else count i js

abbrev pub one_if : Bool → ℕ
one_if b = if b then 1 else 0

-- The servicers of the requests that wait are allocated and in the list, each once, and no others are.
pub record IsTracked (waits : ℕ → Bool) (s : Services) : Type 0 where
  pub listed : (i : ℕ) → count i s.list ≡ one_if (waits i)
  pub allocated : (i : ℕ) → s.live i ≡ waits i

-- The calls of the mutex, `start` and `pthread_join` do what they are asked; the others may fail.
pub record IsSteady (a : RunAnswers) : Type 0 where
  pub add_locks : a.adding.lock ≡ true
  pub add_unlocks : a.adding.unlock ≡ true
  pub remove_locks : a.removing.lock ≡ true
  pub remove_unlocks : a.removing.unlock ≡ true
  pub starts : a.started ≡ true
  pub joins : a.joined ≡ true

abbrev pub is_none {ℓ} : {A : Type ℓ} → Option A → Bool
is_none none = true
is_none (some a) = false

abbrev pub State : Type 0
State = (ℕ → Bool) × Services

-- A request begins with a servicer that the store gives, or one that waits ends.
pub data Step (from : State) (to : State) : Type 0 where
  begins :
      (a : RunAnswers) (i : ℕ)
      → IsSteady a
      → from.1.live i ≡ false
      → to ≡ (update from.0 i (is_none (begin_run a i from.1).1), (begin_run a i from.1).0)
      → Step from to
  ends :
      (a : RunAnswers) (i : ℕ)
      → IsSteady a
      → from.0 i ≡ true
      → to ≡ (update from.0 i false, (end_run a i from.1).0)
      → Step from to

pub data Reach (from : State) : State → Type 0 where
  here : Reach from from
  next : {s t : State} → Reach from s → Step s t → Reach from t

pub count-append : (i j : ℕ) (is : List ℕ) → count i (is ++ j ∷ []) ≡ count i is + one_if (j == i)
count-append i j [] = ground arith
count-append i j (k ∷ is) = ground (arith, count-append i j is)

count-erase : (i j : ℕ) (is : List ℕ) → count i (erase j is) ≡ count i is - one_if (j == i)
count-erase i j [] = ground arith
count-erase i j (k ∷ is) = ground (arith, count-erase i j is)

IsTracked-add :
    (w : ℕ → Bool) (s : Services) (i : ℕ)
    → w i ≡ false
    → IsTracked w s
    → IsTracked
        (update w i true)
        (record s { list = s.list ++ i ∷ []; live = update s.live i true; locked = false })
IsTracked-add w s i fresh h = record {
  listed = λ j. ground (arith, count-append j i s.list, h.listed j);
  allocated = λ j. ground (arith, h.allocated j);
}

IsTracked-drop :
    (w : ℕ → Bool) (s : Services) (i : ℕ)
    → w i ≡ true
    → IsTracked w s
    → IsTracked
        (update w i false)
        (record s { list = erase i s.list; live = update s.live i false; locked = false })
IsTracked-drop w s i waits h = record {
  listed = λ j.
      let here : count i s.list ≡ 1 = h.listed i ∙ ap one_if waits in
      elim (Bool-cases (j == i)) [
        | inl hit ↦
            let eq = ==→eq j i hit in
            let there : count j s.list ≡ 1 = ap (λ k. count k s.list) eq ∙ here in
            let same_one : (i == j) ≡ true = ground (arith, eq) in
            ground (arith, count-erase j i s.list, there)
        | inr miss ↦
            let other : (i == j) ≡ false = ground arith in
            ground (arith, count-erase j i s.list, h.listed j)
      ];
  allocated = λ j. ground (arith, h.allocated j);
}

-- A servicer that was not put into the list.
IsTracked-refuse :
    (w : ℕ → Bool) (s : Services) (i : ℕ)
    → w i ≡ false
    → IsTracked w s
    → IsTracked (update w i false) (record s { live = update (update s.live i true) i false })
IsTracked-refuse w s i fresh h = record {
  listed = λ j.
      let here : count i s.list ≡ 0 = h.listed i ∙ ap one_if fresh in
      elim (Bool-cases (j == i)) [
        | inl hit ↦
            let there : count j s.list ≡ 0 = ap (λ k. count k s.list) (==→eq j i hit) ∙ here in
            ground (arith, there)
        | inr miss ↦ ground (arith, h.listed j)
      ];
  allocated = λ j. ground (arith, h.allocated j);
}

-- A request whose servicer is not allocated.
IsTracked-same :
    (w : ℕ → Bool) (s : Services) (i : ℕ)
    → w i ≡ false
    → IsTracked w s
    → IsTracked (update w i false) s
IsTracked-same w s i fresh h = record {
  listed = λ j.
      let here : count i s.list ≡ 0 = h.listed i ∙ ap one_if fresh in
      elim (Bool-cases (j == i)) [
        | inl hit ↦
            let there : count j s.list ≡ 0 = ap (λ k. count k s.list) (==→eq j i hit) ∙ here in
            ground (arith, there)
        | inr miss ↦ ground (arith, h.listed j)
      ];
  allocated = λ j. elim (Bool-cases (j == i)) [
    | inl hit ↦
        let there : s.live j ≡ false = h.allocated j ∙ ap w (==→eq j i hit) ∙ fresh in
        ground (arith, there)
    | inr miss ↦ ground (arith, h.allocated j)
  ];
}

begin_run-IsTracked :
    (w : ℕ → Bool) (s : Services) (a : RunAnswers) (i : ℕ)
    → IsSteady a
    → w i ≡ false
    → IsTracked w s
    → IsTracked (update w i (is_none (begin_run a i s).1)) (begin_run a i s).0
begin_run-IsTracked w s a i steady fresh h =
    let P = λ (r : Services × Option RunReply). IsTracked (update w i (is_none r.1)) r.0 in
    subst P (sym (begin_run-with a i s steady.add_locks steady.add_unlocks)) (
      if-both P (not a.allocated) _ _ (λ _. IsTracked-same w s i fresh h)
        (λ _.
          if-both P (not a.initialized) _ _ (λ _. IsTracked-refuse w s i fresh h)
            (λ _.
              if-both P (not a.started) _ _ (λ fails. absurd (cc (fails, steady.starts)))
                (λ _. IsTracked-add w s i fresh h))))

end_run-IsTracked :
    (w : ℕ → Bool) (s : Services) (a : RunAnswers) (i : ℕ)
    → IsSteady a
    → w i ≡ true
    → IsTracked w s
    → IsTracked (update w i false) (end_run a i s).0
end_run-IsTracked w s a i steady waits h =
    let P = λ (r : Services × RunReply). IsTracked (update w i false) r.0 in
    subst P (sym (end_run-with a i s steady.remove_locks steady.remove_unlocks)) (
      if-both P (not a.joined) _ _ (λ fails. absurd (cc (fails, steady.joins)))
        (λ _.
          if-both P (not a.destroyed) _ _ (λ _. IsTracked-drop w s i waits h)
            (λ _. IsTracked-drop w s i waits h)))

Step-IsTracked : {s t : State} → Step s t → IsTracked s.0 s.1 → IsTracked t.0 t.1
Step-IsTracked {s} (begins a i steady fresh e) h =
    subst (λ (t : State). IsTracked t.0 t.1) (sym e)
      (begin_run-IsTracked s.0 s.1 a i steady (sym (h.allocated i) ∙ fresh) h)
Step-IsTracked {s} (ends a i steady waits e) h =
    subst (λ (t : State). IsTracked t.0 t.1) (sym e) (end_run-IsTracked s.0 s.1 a i steady waits h)

pub Reach-IsTracked : {s t : State} → IsTracked s.0 s.1 → Reach s t → IsTracked t.0 t.1
Reach-IsTracked h here = h
Reach-IsTracked h (next r st) = Step-IsTracked st (Reach-IsTracked h r)

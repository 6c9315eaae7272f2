-- ===== src/Loader/Batch.antt =====
-- src/ploader/src/iloLoad.cpp: the array between two records, and its execution where it is full.
use natc.Base.{
  ℕ, zero, suc, ◌-◌, ◌%◌, ◌≤◌, ◌<◌, ◌≡◌, refl, ap, ap₂, sym, ◌∙◌, subst, Bool, true, false, ◌==◌,
  ◌&&◌, if◌then◌else◌, ltb, List, [], ◌∷◌, ◌++◌, Option, none, some, update, arith, if-both,
  append-nil, ==_self,
}
use mathlib.Core.Bool.{false≢true}
use natc.Loader.Batches.{
  Options, done, Database, ReadRow, row, bad, LoadState, slots_to, Turn, stop, commit_round,
  after_execution, executed, execute_round, is_before, begin_round,
}

-- The records from the first one that is wanted on, how many were read, and how many of them are bad.
abbrev pub good_rows {ℓ} : {A : Type ℓ} → Option ℕ → ℕ → List (ReadRow A) → List (Option A)
good_rows first ix [] = []
good_rows first ix (read ∷ reads) =
    let rest = good_rows first (suc ix) reads in
    if is_before first ix then rest else elim read [ row r ↦ some r ∷ rest | bad ↦ rest ]

abbrev pub tried_rows {ℓ} : {A : Type ℓ} → Option ℕ → ℕ → List (ReadRow A) → ℕ
tried_rows first ix [] = 0
tried_rows first ix (read ∷ reads) =
    let rest = tried_rows first (suc ix) reads in if is_before first ix then rest else suc rest

abbrev pub bad_rows {ℓ} : {A : Type ℓ} → Option ℕ → ℕ → List (ReadRow A) → ℕ
bad_rows first ix [] = 0
bad_rows first ix (read ∷ reads) =
    let rest = bad_rows first (suc ix) reads in
    if is_before first ix then rest else elim read [ row r ↦ rest | bad ↦ suc rest ]

-- The database does what it is asked.
pub record IsObliging (db : Database) : Type 0 where
  pub executes : (n : ℕ) → db.execute n ≡ done
  pub commits : (n : ℕ) → db.commit n ≡ true

-- What a record adds to the number of those that were read.
abbrev pub with_total : Options → ℕ → ℕ → ℕ
with_total o ix n = if is_before o.first_row ix then n else suc n

pub later :
    (first : Option ℕ) (ix : ℕ) → is_before first ix ≡ false → is_before first (suc ix) ≡ false
later none ix h = refl
later (some n) ix h = ground arith

module _ {ℓ} {A : Type ℓ} where
  -- The records in the array that have not been executed.
  abbrev pub waiting : Options → LoadState A → List (Option A)
  waiting o s = if s.real == o.array_count then [] else slots_to s.slots s.real

  -- Between two records: what was sent and what waits are the records so far.
  pub record IsBatch (o : Options) (ix : ℕ) (rows : List (Option A)) (s : LoadState A)
      : Type ℓ where
    pub within : s.real ≤ o.array_count
    pub size : s.paramset ≡ o.array_count
    pub so_far : s.sent ++ waiting o s ≡ rows
    pub early : is_before o.first_row ix ≡ true → s.real ≡ 0

  pub slots_to-update :
      (f : ℕ → Option A) (i n : ℕ) (a : Option A) → n ≤ i → slots_to (update f i a) n ≡ slots_to f n
  slots_to-update f i zero a h = refl
  slots_to-update f i (suc n) a h =
      let other : (n == i) ≡ false = ground (arith, h) in
      ap₂ (λ (xs : List (Option A)) (x : Option A). xs ++ x ∷ [])
        (slots_to-update f i n a (omega (arith, h))) (ap (λ (b : Bool). if b then a else f n) other)

  pub slots_to-next :
      (f : ℕ → Option A) (n : ℕ) (a : Option A)
      → slots_to (update f n a) (suc n) ≡ slots_to f n ++ a ∷ []
  slots_to-next f n a =
      ap₂ (λ (xs : List (Option A)) (x : Option A). xs ++ x ∷ [])
        (slots_to-update f n n a (omega arith))
        (ap (λ (b : Bool). if b then a else f n) (==_self n))

  -- Behind `begin_round` the array has room, and what waits is what it holds.
  pub record IsOpen (o : Options) (rows : List (Option A)) (s s0 : LoadState A) : Type ℓ where
    pub room : s0.real < o.array_count
    pub still_size : s0.paramset ≡ o.array_count
    pub held : s0.sent ++ slots_to s0.slots s0.real ≡ rows
    pub total_same : s0.total ≡ s.total
    pub errors_same : s0.errors ≡ s.errors
    pub early_still : s.real ≡ 0 → s0.real ≡ 0

  pub begin_round-IsOpen :
      (o : Options) (ix : ℕ) (rows : List (Option A)) (s : LoadState A)
      → 0 < o.array_count
      → IsBatch o ix rows s
      → IsOpen o rows s (begin_round o s)
  begin_round-IsOpen o ix rows s pos h =
      if-both (IsOpen o rows s) (s.real == o.array_count) _ _
        (λ full. record {
          room = pos;
          still_size = h.size;
          held =
              ap (λ (b : Bool). s.sent ++ (if b then [] else slots_to s.slots s.real)) (sym full)
              ∙ h.so_far;
          total_same = refl;
          errors_same = refl;
          early_still = λ _. refl;
        })
        (λ open_still. record {
          room = ground (arith, h.within);
          still_size = h.size;
          held =
              ap (λ (b : Bool). s.sent ++ (if b then [] else slots_to s.slots s.real))
                (sym open_still)
              ∙ h.so_far;
          total_same = refl;
          errors_same = refl;
          early_still = λ e. e;
        })

  -- A round that goes on.
  pub record Turned (o : Options) (ix : ℕ) (rows : List (Option A)) (total errors : ℕ) (t : Turn A)
      : Type ℓ where
    pub goes_on : t.goes_on ≡ true
    pub batch : IsBatch o ix rows t.state
    pub total_now : t.state.total ≡ total
    pub errors_now : t.state.errors ≡ errors

  pub commit_round-Turned :
      (o : Options) (db : Database) (ix : ℕ) (rows : List (Option A)) (s : LoadState A)
      → IsObliging db
      → IsBatch o ix rows s
      → Turned o ix rows s.total s.errors (commit_round o db s)
  unfolding commit_round
  commit_round-Turned o db ix rows s obliging h =
      if-both (Turned o ix rows s.total s.errors)
        (ltb 0 o.commit_unit && s.loads % o.commit_unit == 0) _ _
        (λ due.
          if-both (Turned o ix rows s.total s.errors) (db.commit s.commits) _ _
            (λ commits. record {
              goes_on = refl;
              batch = again h;
              total_now = refl;
              errors_now = refl;
            })
            (λ refuses. absurd (false≢true (sym refuses ∙ obliging.commits s.commits))))
        (λ _. record { goes_on = refl; batch = again h; total_now = refl; errors_now = refl })
    where
      again :
          {commits loads : ℕ}
          → IsBatch o ix rows s
          → IsBatch o ix rows (record s { commits = commits; loads = loads })
      again h = record { within = h.within; size = h.size; so_far = h.so_far; early = h.early }

  pub execute_within :
      (o : Options) (db : Database) (s : LoadState A)
      → db.execute s.executions ≡ done
      → execute_round o db false false s ≡ commit_round o db (executed s.paramset s)
  unfolding execute_round after_execution
  execute_within o db s e = ap (after_execution o db false o.array_count (executed s.paramset s)) e

  pub execute_at_end :
      (o : Options) (db : Database) (at_last : Bool) (s : LoadState A)
      → db.execute s.executions ≡ done
      → execute_round o db true at_last s ≡ stop (executed (s.real - 1) s)
  unfolding execute_round after_execution
  execute_at_end o db at_last s e =
      ap (after_execution o db true (s.real - 1) (executed (s.real - 1) s)) e

  -- The array is full: it is executed.
  pub execute_full :
      (o : Options) (db : Database) (ix : ℕ) (rows : List (Option A)) (s : LoadState A)
      → IsObliging db
      → s.real ≡ o.array_count
      → s.paramset ≡ o.array_count
      → s.sent ++ slots_to s.slots s.real ≡ rows
      → is_before o.first_row ix ≡ false
      → Turned o ix rows s.total s.errors (execute_round o db false false s)
  execute_full o db ix rows s obliging full size held late =
      let s' = executed s.paramset s in
      let whole : (s.real == o.array_count) ≡ true = ground (arith, full) in
      let sent : s'.sent ≡ rows = ap (λ n. s.sent ++ slots_to s.slots n) (size ∙ sym full) ∙ held in
      subst (Turned o ix rows s.total s.errors)
        (sym (execute_within o db s (obliging.executes s.executions)))
        (commit_round-Turned o db ix rows s' obliging (record {
          within = omega (arith, full);
          size = size;
          so_far =
              ap (λ (b : Bool). s'.sent ++ (if b then [] else slots_to s'.slots s'.real)) whole
              ∙ append-nil s'.sent
              ∙ sent;
          early = λ before. absurd (false≢true (sym late ∙ before));
        }))

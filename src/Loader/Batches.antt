-- ===== src/Loader/Batches.antt =====
-- src/ploader/src/iloLoad.cpp: the loop of `LoadwithPrepare`, which collects the records that were read in
-- an array and has them executed.
use natc.Base.{
  ℕ, zero, suc, ◌+◌, ◌-◌, ◌%◌, Bool, true, false, not, ◌==◌, ◌&&◌, ◌||◌, if◌then◌else◌, ltb, List,
  [], ◌∷◌, ◌++◌, Option, none, some, update,
}
use natc.Base.Int.{ℤ, sub_ℕ}

-- `m_ArrayCount`, `m_FirstRow` and `m_LastRow` where they are given, and `m_CommitUnit`.
pub record Options : Type 0 where
  pub array_count : ℕ
  pub first_row : Option ℕ
  pub last_row : Option ℕ
  pub commit_unit : ℕ

-- What the database answers to an execution: success, one of the three errors that end the loop, or
-- another one, with the records of the array that succeeded.
pub data Executed : Type 0 where
  done broken : Executed
  failed : (ℕ → Bool) → Executed

-- The answers to the executions and to the ends of transactions, by their number.
pub record Database : Type 0 where
  pub execute : ℕ → Executed
  pub commit : ℕ → Bool

-- What `ReadOneRecord` gives before the end of the file: a record, or a parsing error.
pub data ReadRow {ℓ} (A : Type ℓ) : Type ℓ where
  row : A → ReadRow A
  bad : ReadRow A

-- The array, `sRealCount`, the size that the statement has, `nTotal`, `nLoad` and `nErrCount`; the records
-- that were given to the database, in their order, and the numbers of its calls.
pub record LoadState {ℓ} (A : Type ℓ) : Type ℓ where
  pub slots : ℕ → Option A
  pub real : ℕ
  pub paramset : ℕ
  pub total : ℕ
  pub loads : ℕ
  pub errors : ℕ
  pub sent : List (Option A)
  pub executions : ℕ
  pub commits : ℕ

abbrev pub new_load {ℓ} : {A : Type ℓ} → Options → LoadState A
new_load o = record {
  slots = λ _. none;
  real = 0;
  paramset = o.array_count;
  total = 0;
  loads = 1;
  errors = 0;
  sent = [];
  executions = 0;
  commits = 0;
}

-- The first `n` records of the array.
abbrev pub slots_to {ℓ} : {A : Type ℓ} → (ℕ → Option A) → ℕ → List (Option A)
slots_to f zero = []
slots_to f (suc n) = slots_to f n ++ f n ∷ []

-- The records among the first `n` that did not succeed.
abbrev pub failures : (ℕ → Bool) → ℕ → ℕ
failures ok zero = 0
failures ok (suc n) = let rest = failures ok n in if ok n then rest else suc rest

-- Does the loop go on?
pub record Turn {ℓ} (A : Type ℓ) : Type ℓ where
  pub goes_on : Bool
  pub state : LoadState A

abbrev pub stop {ℓ} : {A : Type ℓ} → LoadState A → Turn A
stop s = record { goes_on = false; state = s }

-- `continue`, which ends the loop at the end of the file.
abbrev pub go_on {ℓ} : {A : Type ℓ} → Bool → LoadState A → Turn A
go_on eof s = record { goes_on = not eof; state = s }

-- The end of a round: a transaction that is due is ended, and the record counted.
unfoldable pub commit_round {ℓ} : {A : Type ℓ} → Options → Database → LoadState A → Turn A
commit_round o db s =
    let s' = record s { commits = suc s.commits } in
    let counted = λ (s : LoadState _). go_on false (record s { loads = suc s.loads }) in
    if ltb 0 o.commit_unit && s.loads % o.commit_unit == 0
    then (if db.commit s.commits
        then counted s'
        else go_on false
            (record s' { errors = s.errors + o.commit_unit; commits = suc s'.commits }))
    else counted s

-- What follows an execution, by the database's answer; `size` is the number of statuses that are read.
unfoldable pub after_execution {ℓ} :
    {A : Type ℓ} → Options → Database → Bool → ℕ → LoadState A → Executed → Turn A
after_execution o db eof size s answer =
    let on = λ (s : LoadState _). if eof then stop s else commit_round o db s in
    elim answer [
      | done ↦ on s
      | broken ↦ stop (if o.array_count == 1 then record s { errors = suc s.errors } else s)
      | failed ok ↦
          if o.array_count == 1
          then go_on eof (record s { errors = suc s.errors })
          else on (record s { errors = s.errors + failures ok size })
    ]

-- The state when the first `size` records of the array are given to the database.
abbrev pub executed {ℓ} : {A : Type ℓ} → ℕ → LoadState A → LoadState A
executed size s = record s {
  paramset = size;
  sent = s.sent ++ slots_to s.slots size;
  executions = suc s.executions;
}

-- The array is executed, with the size that the statement gets at the end of the file or of the range.
unfoldable pub execute_round {ℓ} :
    {A : Type ℓ} → Options → Database → Bool → Bool → LoadState A → Turn A
unfolding after_execution
execute_round o db eof at_last s =
    let size = if eof then s.real - 1 else if at_last then s.real else s.paramset in
    let checked = if eof then s.real - 1 else o.array_count in
    after_execution o db eof checked (executed size s) (db.execute s.executions)

abbrev pub is_before : Option ℕ → ℕ → Bool
is_before none ix = false
is_before (some n) ix = ltb ix n

abbrev pub is_after : Option ℕ → ℕ → Bool
is_after none ix = false
is_after (some n) ix = ltb n ix

abbrev pub is_at : Option ℕ → ℕ → Bool
is_at none ix = false
is_at (some n) ix = ix == n

-- The array is begun again where it is full.
abbrev pub begin_round {ℓ} : {A : Type ℓ} → Options → LoadState A → LoadState A
begin_round o s = if s.real == o.array_count then record s { real = 0 } else s

-- The round that reads the record at `ix`.
unfoldable pub load_round {ℓ} :
    {A : Type ℓ} → Options → Database → ℕ → ReadRow A → LoadState A → Turn A
unfolding execute_round
load_round o db ix read s =
    let s0 = begin_round o s in
    let kept : Option _ = elim read [ row r ↦ some r | bad ↦ none ] in
    let s1 = record s0 { slots = update s0.slots s0.real kept } in
    let s2 = record s1 { total = suc s1.total } in
    let s3 = record s2 { real = suc s2.real } in
    if is_before o.first_row ix
    then go_on false (record s1 { real = 0 })
    else if is_after o.last_row ix
    then stop s1
    else elim read [
      | bad ↦ go_on false (record s2 { errors = suc s2.errors })
      | row r ↦
          if s3.real == o.array_count || is_at o.last_row ix
          then execute_round o db false (is_at o.last_row ix) s3
          else commit_round o db s3
    ]

-- The round that meets the end of the file.
unfoldable pub end_round {ℓ} : {A : Type ℓ} → Options → Database → ℕ → LoadState A → LoadState A
unfolding execute_round
end_round o db ix s =
    let s0 = begin_round o s in
    if s0.real == 0
    then s0
    else if is_before o.first_row ix
    then record s0 { real = 0 }
    else if is_after o.last_row ix
    then s0
    else (execute_round o db true (is_at o.last_row ix) (record s0 { real = suc s0.real })).state

-- The loop.
unfoldable pub load_rows {ℓ} :
    {A : Type ℓ} → Options → Database → ℕ → List (ReadRow A) → LoadState A → LoadState A
unfolding load_round end_round
load_rows o db ix [] s = end_round o db ix s
load_rows o db ix (read ∷ reads) s =
    let t = load_round o db ix read s in
    let rest = load_rows o db (suc ix) reads t.state in if t.goes_on then rest else t.state

-- The last transaction, behind the loop.
unfoldable pub finish_load {ℓ} : {A : Type ℓ} → Options → Database → LoadState A → LoadState A
finish_load o db s =
    let part = (s.loads - 1) % o.commit_unit in
    let s' = record s { commits = suc s.commits } in
    if ltb 0 o.commit_unit && not (part == 0)
    then (if db.commit s.commits
        then s'
        else record s' { errors = s.errors + part; commits = suc s'.commits })
    else s

-- The whole of the loop, with the last transaction.
unfoldable pub load_all {ℓ} : {A : Type ℓ} → Options → Database → List (ReadRow A) → LoadState A
unfolding load_rows finish_load
load_all o db reads = finish_load o db (load_rows o db 1 reads (new_load o))

-- The count that is printed at the end.
abbrev pub load_count {ℓ} : {A : Type ℓ} → LoadState A → ℤ
load_count s = sub_ℕ s.total s.errors

-- ===== src/Loader/LoadTests.antt =====
-- Concrete runs of the load loop.
use natc.Base.{ℕ, ◌≡◌, refl, true, List, [], ◌∷◌, none, some, length, arith}
use natc.Base.Int.{pos}
use natc.Loader.Batches.{
  Options, Database, done, ReadRow, row, bad, load_all, load_count, load_rows, load_round,
  end_round, execute_round, after_execution, commit_round, finish_load,
}
use natc.Loader.Batch.{IsObliging, good_rows}
use natc.Loader.Batching.{load_all-sent}

abbrev obliging : Database
obliging = record { execute = λ _. done; commit = λ _. true }

obliging-IsObliging : IsObliging obliging
obliging-IsObliging = record { executes = λ _. refl; commits = λ _. refl }

-- Arrays of two, the records from the second one on, a commit for every three.
abbrev by_two : Options
by_two = record { array_count = 2; first_row = some 2; last_row = none; commit_unit = 3 }

abbrev some_reads : List (ReadRow ℕ)
some_reads = row 1 ∷ row 2 ∷ bad ∷ row 3 ∷ row 4 ∷ []

load_all-sent_example :
    ((load_all by_two obliging some_reads).sent ≡ good_rows by_two.first_row 1 some_reads)
    × (load_count (load_all by_two obliging some_reads)
        ≡ pos (length (good_rows by_two.first_row 1 some_reads)))
load_all-sent_example =
    load_all-sent by_two obliging some_reads obliging-IsObliging refl (omega arith)

sent_rows : (load_all by_two obliging some_reads).sent ≡ some 2 ∷ some 3 ∷ some 4 ∷ []
unfolding load_all load_rows load_round end_round execute_round after_execution commit_round
    finish_load
sent_rows = refl

-- Where the last record that is wanted cannot be parsed, the records that wait in the array are never
-- executed.
abbrev up_to_third : Options
up_to_third = record { array_count = 10; first_row = none; last_row = some 3; commit_unit = 0 }

lost_rows : (load_all {A = ℕ} up_to_third obliging (row 1 ∷ row 2 ∷ bad ∷ row 3 ∷ [])).sent ≡ []
unfolding load_all load_rows load_round end_round execute_round after_execution commit_round
    finish_load
lost_rows = refl

-- The same records with a third one that can be parsed.
kept_rows :
    (load_all {A = ℕ} up_to_third obliging (row 1 ∷ row 2 ∷ row 3 ∷ row 4 ∷ [])).sent
    ≡ some 1 ∷ some 2 ∷ some 3 ∷ []
unfolding load_all load_rows load_round end_round execute_round after_execution commit_round
    finish_load
kept_rows = refl

-- ===== src/Loader/Batching.antt =====
-- src/ploader/src/iloLoad.cpp: what reaches the database, whatever the size of the array is.
use natc.Base.{
  ℕ, suc, ◌+◌, ◌-◌, ◌%◌, ◌<◌, ◌≡◌, refl, ap, sym, ◌∙◌, subst, not, ◌==◌, ◌&&◌, if◌then◌else◌, ltb,
  List, [], ◌∷◌, ◌++◌, Option, none, some, arith, if-both, append_assoc, append-nil, length,
  Bool-both, ==→eq,
}
use mathlib.Core.Bool.{false≢true}
use natc.Loader.Batches.{
  Options, Database, ReadRow, row, bad, LoadState, new_load, slots_to, Turn, is_before, is_after,
  is_at, begin_round, load_round, end_round, load_rows, finish_load, load_all, load_count,
}
use natc.Base.Int.{pos, sub_ℕ}
use natc.Loader.Batch.{
  good_rows, tried_rows, bad_rows, IsObliging, with_total, IsBatch, begin_round-IsOpen,
  execute_at_end,
}
use natc.Loader.BatchRounds.{with_row, with_error, load_round-Turned}

module _ {ℓ} {A : Type ℓ} where
  -- The end of the file: what waits is executed.
  end_round-sent :
      (o : Options) (db : Database) (ix : ℕ) (rows : List (Option A)) (s : LoadState A)
      → IsObliging db
      → o.last_row ≡ none
      → 0 < o.array_count
      → IsBatch o ix rows s
      → ((end_round o db ix s).sent ≡ rows)
        × (((end_round o db ix s).total ≡ s.total) × ((end_round o db ix s).errors ≡ s.errors))
  unfolding end_round
  end_round-sent o db ix rows s obliging no_last some_room h =
      let s0 = begin_round o s in
      let g = begin_round-IsOpen o ix rows s some_room h in
      let P =
        λ (t : LoadState A). (t.sent ≡ rows) × ((t.total ≡ s.total) × (t.errors ≡ s.errors)) in
      let s3 = record s0 { real = suc s0.real } in
      if-both P (s0.real == 0) _ _
        (λ empty. (
          sym (append-nil s0.sent)
              ∙ ap (λ n. s0.sent ++ slots_to s0.slots n) (sym (==→eq s0.real 0 empty))
              ∙ g.held,
          (g.total_same, g.errors_same),
        ))
        (λ some_left.
          if-both P (is_before o.first_row ix) _ _
            (λ early.
              let none_there = g.early_still (h.early early) in absurd (ground (arith, none_there)))
            (λ _.
              if-both P (is_after o.last_row ix) _ _
                (λ beyond. absurd (false≢true (sym (ap (λ l. is_after l ix) no_last) ∙ beyond)))
                (λ _.
                  let one_less : suc s0.real - 1 ≡ s0.real = omega arith in
                  subst (λ (t : Turn A). P t.state)
                    (sym (
                      execute_at_end o db (is_at o.last_row ix) s3
                        (obliging.executes s3.executions)))
                    (
                      ap (λ n. s0.sent ++ slots_to s0.slots n) one_less ∙ g.held,
                      (g.total_same, g.errors_same),
                    ))))

  rows_step :
      (o : Options) (ix : ℕ) (read : ReadRow A) (reads : List (ReadRow A)) (rows : List (Option A))
      → with_row o ix read rows ++ good_rows o.first_row (suc ix) reads
        ≡ rows ++ good_rows o.first_row ix (read ∷ reads)
  rows_step o ix (row r) reads rows =
      let rest = good_rows o.first_row (suc ix) reads in
      Bool-both
        (λ b.
          (if b then rows else rows ++ some r ∷ []) ++ rest
          ≡ rows ++ (if b then rest else some r ∷ rest))
        (is_before o.first_row ix) (λ _. refl) (λ _. append_assoc rows (some r ∷ []) rest)
  rows_step o ix bad reads rows =
      let rest = good_rows o.first_row (suc ix) reads in
      Bool-both (λ b. (if b then rows else rows) ++ rest ≡ rows ++ (if b then rest else rest))
        (is_before o.first_row ix) (λ _. refl) (λ _. refl)

  total_step :
      (o : Options) (ix : ℕ) (read : ReadRow A) (reads : List (ReadRow A)) (n : ℕ)
      → with_total o ix n + tried_rows o.first_row (suc ix) reads
        ≡ n + tried_rows o.first_row ix (read ∷ reads)
  total_step o ix read reads n =
      let rest = tried_rows o.first_row (suc ix) reads in
      Bool-both (λ b. (if b then n else suc n) + rest ≡ n + (if b then rest else suc rest))
        (is_before o.first_row ix) (λ _. refl) (λ _. omega arith)

  error_step :
      (o : Options) (ix : ℕ) (read : ReadRow A) (reads : List (ReadRow A)) (n : ℕ)
      → with_error o ix read n + bad_rows o.first_row (suc ix) reads
        ≡ n + bad_rows o.first_row ix (read ∷ reads)
  error_step o ix (row r) reads n =
      let rest = bad_rows o.first_row (suc ix) reads in
      Bool-both (λ b. (if b then n else n) + rest ≡ n + (if b then rest else rest))
        (is_before o.first_row ix) (λ _. refl) (λ _. refl)
  error_step o ix bad reads n =
      let rest = bad_rows o.first_row (suc ix) reads in
      Bool-both (λ b. (if b then n else suc n) + rest ≡ n + (if b then rest else suc rest))
        (is_before o.first_row ix) (λ _. refl) (λ _. omega arith)

  -- What a state has sent and counted.
  abbrev Has : List (Option A) → ℕ → ℕ → LoadState A → Type ℓ
  Has rows total errors s = (s.sent ≡ rows) × ((s.total ≡ total) × (s.errors ≡ errors))

  load_rows-sent :
      (o : Options) (db : Database) (ix : ℕ) (reads : List (ReadRow A)) (rows : List (Option A))
      (s : LoadState A)
      → IsObliging db
      → o.last_row ≡ none
      → 0 < o.array_count
      → IsBatch o ix rows s
      → ((load_rows o db ix reads s).sent ≡ rows ++ good_rows o.first_row ix reads)
        × (((load_rows o db ix reads s).total ≡ s.total + tried_rows o.first_row ix reads)
            × ((load_rows o db ix reads s).errors ≡ s.errors + bad_rows o.first_row ix reads))
  unfolding load_rows
  load_rows-sent o db ix [] rows s obliging no_last some_room h =
      let (sent, (total, errors)) = end_round-sent o db ix rows s obliging no_last some_room h in
      (sent ∙ sym (append-nil rows), (omega (arith, total), omega (arith, errors)))
  load_rows-sent o db ix (read ∷ reads) rows s obliging no_last some_room h =
      let u = load_round-Turned o db ix read rows s obliging no_last some_room h in
      let t = load_round o db ix read s in
      let (sent, (total, errors)) =
        load_rows-sent o db (suc ix) reads (with_row o ix read rows) t.state obliging no_last
          some_room u.batch in
      let total_now = ap (λ n. n + tried_rows o.first_row (suc ix) reads) u.total_now in
      let errors_now = ap (λ n. n + bad_rows o.first_row (suc ix) reads) u.errors_now in
      subst
        (λ b.
          Has (rows ++ good_rows o.first_row ix (read ∷ reads))
            (s.total + tried_rows o.first_row ix (read ∷ reads))
            (s.errors + bad_rows o.first_row ix (read ∷ reads))
            (if b then load_rows o db (suc ix) reads t.state else t.state))
        (sym u.goes_on)
        (
          sent ∙ rows_step o ix read reads rows,
          (
            total ∙ total_now ∙ total_step o ix read reads s.total,
            errors ∙ errors_now ∙ error_step o ix read reads s.errors,
          ),
        )

  finish_load-Has :
      (o : Options) (db : Database) (rows : List (Option A)) (total errors : ℕ) (s : LoadState A)
      → IsObliging db
      → Has rows total errors s
      → Has rows total errors (finish_load o db s)
  unfolding finish_load
  finish_load-Has o db rows total errors s obliging h =
      if-both (Has rows total errors)
        (ltb 0 o.commit_unit && not ((s.loads - 1) % o.commit_unit == 0)) _ _
        (λ _.
          if-both (Has rows total errors) (db.commit s.commits) _ _ (λ _. h)
            (λ refuses. absurd (false≢true (sym refuses ∙ obliging.commits s.commits))))
        (λ _. h)

  bad_and_good :
      (first : Option ℕ) (ix : ℕ) (reads : List (ReadRow A))
      → tried_rows first ix reads ≡ bad_rows first ix reads + length (good_rows first ix reads)
  bad_and_good first ix [] = refl
  bad_and_good first ix (bad ∷ reads) = ground (arith, bad_and_good first (suc ix) reads)
  bad_and_good first ix (row r ∷ reads) = ground (arith, bad_and_good first (suc ix) reads)

difference : (a b n : ℕ) → a ≡ b + n → sub_ℕ a b ≡ pos n
difference a b n e = ground arith

-- The database does what it is asked, and no last record is given. Whatever the size of the array, the
-- commit unit and the first record are, the records from the first one on that could be parsed are
-- given to the database once each and in their order; the count that is printed is their number.
pub load_all-sent {ℓ} :
    {A : Type ℓ} (o : Options) (db : Database) (reads : List (ReadRow A))
    → IsObliging db
    → o.last_row ≡ none
    → 0 < o.array_count
    → ((load_all o db reads).sent ≡ good_rows o.first_row 1 reads)
      × (load_count (load_all o db reads) ≡ pos (length (good_rows o.first_row 1 reads)))
unfolding load_all
load_all-sent {A = A} o db reads obliging no_last positive =
    let start : IsBatch o 1 [] (new_load o) = record {
      within = omega arith;
      size = refl;
      so_far =
          if-both (λ (w : List (Option A)). [] ++ w ≡ []) (0 == o.array_count) _ _ (λ _. refl)
            (λ _. refl);
      early = λ _. refl;
    } in
    let loop = load_rows-sent o db 1 reads [] (new_load o) obliging no_last positive start in
    let (sent, (total, errors)) =
      finish_load-Has o db _ _ _ (load_rows o db 1 reads (new_load o)) obliging loop in
    (sent, difference _ _ _ (omega (arith, total, errors, bad_and_good o.first_row 1 reads)))

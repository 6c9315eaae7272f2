-- ===== src/Loader/BatchRounds.antt =====
-- src/ploader/src/iloLoad.cpp: one round of the loop, for a database that does what it is asked.
use natc.Base.{
  ℕ, suc, ◌<◌, ◌≡◌, refl, ap, sym, ◌∙◌, subst, Bool, false, ◌==◌, ◌||◌, if◌then◌else◌, List, [],
  ◌∷◌, ◌++◌, Option, none, some, update, arith, if-both, append_assoc, Bool-both,
}
use mathlib.Core.Bool.{false≢true}
use natc.Loader.Batches.{
  Options, Database, ReadRow, row, bad, LoadState, slots_to, Turn, stop, go_on, commit_round,
  execute_round, is_before, is_after, is_at, begin_round, load_round,
}
use natc.Loader.Batch.{
  IsObliging, with_total, later, IsBatch, slots_to-update, slots_to-next, IsOpen,
  begin_round-IsOpen, Turned, commit_round-Turned, execute_full,
}

module _ {ℓ} {A : Type ℓ} where
  -- What a record adds to the records so far, and to the errors.
  abbrev pub with_row : Options → ℕ → ReadRow A → List (Option A) → List (Option A)
  with_row o ix read rows =
      if is_before o.first_row ix
      then rows
      else elim read [ row r ↦ rows ++ some r ∷ [] | bad ↦ rows ]

  abbrev pub with_error : Options → ℕ → ReadRow A → ℕ → ℕ
  with_error o ix read n =
      if is_before o.first_row ix then n else elim read [ row r ↦ n | bad ↦ suc n ]

  -- A record before the first one that is wanted.
  skipped :
      (o : Options) (ix : ℕ) (rows : List (Option A)) (s s0 : LoadState A) (kept : Option A)
      → IsOpen o rows s s0
      → s.real ≡ 0
      → Turned o
          (suc ix)
          rows
          s.total
          s.errors
          (go_on false (record s0 { slots = update s0.slots s0.real kept; real = 0 }))
  skipped o ix rows s s0 kept g empty =
      let held : s0.sent ++ [] ≡ rows =
        ap (λ n. s0.sent ++ slots_to s0.slots n) (sym (g.early_still empty)) ∙ g.held in
      record {
        goes_on = refl;
        batch = record {
          within = omega arith;
          size = g.still_size;
          so_far =
              if-both (λ (w : List (Option A)). s0.sent ++ w ≡ rows) (0 == o.array_count) _ _
                (λ _. held) (λ _. held);
          early = λ _. refl;
        };
        total_now = g.total_same;
        errors_now = g.errors_same;
      }

  -- A record that cannot be parsed.
  refused :
      (o : Options) (ix : ℕ) (rows : List (Option A)) (s s0 : LoadState A)
      → IsOpen o rows s s0
      → is_before o.first_row (suc ix) ≡ false
      → Turned o (suc ix) rows (suc s.total) (suc s.errors) (
          go_on false (record s0 {
            slots = update s0.slots s0.real none;
            total = suc s0.total;
            errors = suc s0.errors;
          }))
  refused o ix rows s s0 g late =
      let not_full : (s0.real == o.array_count) ≡ false = ground (arith, g.room) in
      record {
        goes_on = refl;
        batch = record {
          within = omega (arith, g.room);
          size = g.still_size;
          so_far =
              ap
                (λ (b : Bool).
                  s0.sent ++ (if b then [] else slots_to (update s0.slots s0.real none) s0.real))
                not_full
              ∙ ap (λ (w : List (Option A)). s0.sent ++ w)
                  (slots_to-update s0.slots s0.real s0.real none (omega arith))
              ∙ g.held;
          early = λ before. absurd (false≢true (sym late ∙ before));
        };
        total_now = ap suc g.total_same;
        errors_now = ap suc g.errors_same;
      }

  -- A record that is put into the array.
  abbrev stored : LoadState A → A → LoadState A
  stored s0 r = record s0 {
    slots = update s0.slots s0.real (some r);
    total = suc s0.total;
    real = suc s0.real;
  }

  stored-held :
      (o : Options) (rows : List (Option A)) (s s0 : LoadState A) (r : A)
      → IsOpen o rows s s0
      → (stored s0 r).sent ++ slots_to (stored s0 r).slots (stored s0 r).real ≡ rows ++ some r ∷ []
  stored-held o rows s s0 r g =
      ap (λ (w : List (Option A)). s0.sent ++ w) (slots_to-next s0.slots s0.real (some r))
      ∙ sym (append_assoc s0.sent (slots_to s0.slots s0.real) (some r ∷ []))
      ∙ ap (λ (w : List (Option A)). w ++ some r ∷ []) g.held

  counted :
      {o : Options} {ix : ℕ} {rows : List (Option A)} {s s0 : LoadState A} (r : A) {t : Turn A}
      → IsOpen o rows s s0
      → Turned o ix (rows ++ some r ∷ []) (stored s0 r).total (stored s0 r).errors t
      → Turned o ix (rows ++ some r ∷ []) (suc s.total) s.errors t
  counted r g h = record {
    goes_on = h.goes_on;
    batch = h.batch;
    total_now = h.total_now ∙ ap suc g.total_same;
    errors_now = h.errors_now ∙ g.errors_same;
  }

  taken :
      (o : Options) (db : Database) (ix : ℕ) (rows : List (Option A)) (s s0 : LoadState A) (r : A)
      → IsObliging db
      → IsOpen o rows s s0
      → is_before o.first_row (suc ix) ≡ false
      → Turned o (suc ix) (rows ++ some r ∷ []) (suc s.total) s.errors (
          if suc s0.real == o.array_count || false
          then execute_round o db false false (stored s0 r)
          else commit_round o db (stored s0 r))
  taken o db ix rows s s0 r obliging g late =
      let P = Turned o (suc ix) (rows ++ some r ∷ []) (suc s.total) s.errors in
      if-both P (suc s0.real == o.array_count || false) _ _
        (λ full. counted r g (
          execute_full o db (suc ix) (rows ++ some r ∷ []) (stored s0 r) obliging (ground arith)
            g.still_size (stored-held o rows s s0 r g) late))
        (λ open_still.
          let not_full : (suc s0.real == o.array_count) ≡ false = ground arith in
          counted r g (
            commit_round-Turned o db (suc ix) (rows ++ some r ∷ []) (stored s0 r) obliging (record {
              within = omega (arith, g.room);
              size = g.still_size;
              so_far =
                  ap
                    (λ (b : Bool).
                      s0.sent
                      ++ (if b then [] else slots_to (stored s0 r).slots (stored s0 r).real))
                    not_full
                  ∙ stored-held o rows s s0 r g;
              early = λ before. absurd (false≢true (sym late ∙ before));
            })))

  pub load_round-Turned :
      (o : Options) (db : Database) (ix : ℕ) (read : ReadRow A) (rows : List (Option A))
      (s : LoadState A)
      → IsObliging db
      → o.last_row ≡ none
      → 0 < o.array_count
      → IsBatch o ix rows s
      → Turned o
          (suc ix)
          (with_row o ix read rows)
          (with_total o ix s.total)
          (with_error o ix read s.errors)
          (load_round o db ix read s)
  unfolding load_round
  load_round-Turned o db ix read rows s obliging no_last pos h = by_read read
    where
      g : IsOpen o rows s (begin_round o s)
      g = begin_round-IsOpen o ix rows s pos h

      after : is_after o.last_row ix ≡ false
      after = ap (λ l. is_after l ix) no_last

      at : is_at o.last_row ix ≡ false
      at = ap (λ l. is_at l ix) no_last

      by_read :
          (read : ReadRow A)
          → Turned o
              (suc ix)
              (with_row o ix read rows)
              (with_total o ix s.total)
              (with_error o ix read s.errors)
              (load_round o db ix read s)
      by_read bad =
          let s0 = begin_round o s in
          let s1 = record s0 { slots = update s0.slots s0.real none } in
          let refusal = go_on false (record s1 { total = suc s1.total; errors = suc s1.errors }) in
          let rest = if is_after o.last_row ix then stop s1 else refusal in
          Bool-both
            (λ b.
              Turned o (suc ix) (if b then rows else rows) (if b then s.total else suc s.total)
                (if b then s.errors else suc s.errors)
                (if b then go_on false (record s1 { real = 0 }) else rest))
            (is_before o.first_row ix) (λ early. skipped o ix rows s s0 none g (h.early early))
            (λ late.
              if-both (Turned o (suc ix) rows (suc s.total) (suc s.errors)) (is_after o.last_row ix)
                _ _ (λ beyond. absurd (false≢true (sym after ∙ beyond)))
                (λ _. refused o ix rows s s0 g (later o.first_row ix late)))
      by_read (row r) =
          let s0 = begin_round o s in
          let s1 = record s0 { slots = update s0.slots s0.real (some r) } in
          let run = λ (b : Bool).
            if suc s0.real == o.array_count || b
            then execute_round o db false b (stored s0 r)
            else commit_round o db (stored s0 r) in
          let rest = if is_after o.last_row ix then stop s1 else run (is_at o.last_row ix) in
          let longer = rows ++ some r ∷ [] in
          let P = Turned o (suc ix) longer (suc s.total) s.errors in
          Bool-both
            (λ b.
              Turned o (suc ix) (if b then rows else longer) (if b then s.total else suc s.total)
                (if b then s.errors else s.errors)
                (if b then go_on false (record s1 { real = 0 }) else rest))
            (is_before o.first_row ix) (λ early. skipped o ix rows s s0 (some r) g (h.early early))
            (λ late.
              if-both P (is_after o.last_row ix) _ _
                (λ beyond. absurd (false≢true (sym after ∙ beyond)))
                (λ _.
                  subst (λ b. P (run b)) (sym at)
                    (taken o db ix rows s s0 r obliging g (later o.first_row ix late))))

-- ===== src/Psql/Saved.antt =====
-- src/psql/src/iSQLCommandQueue.cpp: the ring of slots holds the last commands of a history.
use natc.Base.{
  ℕ, zero, suc, ◌+◌, ◌%◌, ◌≤◌, ◌<◌, ◌≡◌, refl, ap, sym, ◌∙◌, ◌⊎◌, ==_self, Bool, true, false, ◌==◌,
  if◌then◌else◌, List, [], ◌∷◌, ◌++◌, Option, none, some, same, length, get_elem?, length-append,
  arith, if-both, elim-Option, subst, inl, inr,
}
use natc.Psql.Command.{Command, set_all}
use natc.Psql.History.{Queue, previous, next, save, add_command}
use mathlib.Core.Bool.{false≢true}

-- The slot of the entry with this place in the history.
abbrev pub slot_of : ℕ → ℕ
slot_of k = 1 + k % 20

-- The slot is a copy of the command, in all that `setAll` copies.
abbrev pub Copied : Command → Command → Type 0
Copied c d = set_all c d ≡ d

abbrev pub cur_of : List Command → Option ℕ
cur_of [] = none
cur_of (c ∷ log) = some (slot_of (length (c ∷ log)))

-- The queue holds the last twenty commands of the history, oldest first.
pub record IsHistory (log : List Command) (q : Queue) : Type 0 where
  pub count : q.max ≡ length log
  pub place : q.cur ≡ cur_of log
  pub held :
      (k : ℕ) (c : Command)
      → get_elem? log k ≡ some c
      → length log ≤ k + 20
      → Copied c (q.slots (slot_of k))

abbrev pub last_of : List Command → Option Command
last_of [] = none
last_of (c ∷ []) = some c
last_of (c ∷ d ∷ log) = last_of (d ∷ log)

-- A command is put behind a history, unless it repeats the last one.
abbrev pub unless : Bool → Command → List Command → List Command
unless repeats c log = if repeats then log else log ++ c ∷ []

abbrev pub behind : Option Command → Command → List Command → List Command
behind none c log = c ∷ []
behind (some d) c log = unless (same d.command_str c.command_str) c log

-- The history after a command: a repetition of the last one is not saved.
abbrev pub record_command : Command → List Command → List Command
record_command c log = behind (last_of log) c log

last_of-get :
    (log : List Command) (n : ℕ)
    → length log ≡ suc n
    → (d : Command) × ((last_of log ≡ some d) × (get_elem? log n ≡ some d))
last_of-get [] n h = absurd (omega (arith, h))
last_of-get (c ∷ []) zero h = (c, (refl, refl))
last_of-get (c ∷ []) (suc n) h = absurd (omega (arith, h))
last_of-get (c ∷ d ∷ log) zero h = absurd (omega (arith, h))
last_of-get (c ∷ d ∷ log) (suc n) h = last_of-get (d ∷ log) n (omega (arith, h))

get-append :
    (log : List Command) (c d : Command) (k : ℕ)
    → get_elem? (log ++ c ∷ []) k ≡ some d
    → ((k ≡ length log) × (c ≡ d)) ⊎ ((k < length log) × (get_elem? log k ≡ some d))
get-append [] c d zero h = inl (refl, cc)
get-append [] c d (suc k) h = cc
get-append (e ∷ log) c d zero h = inr (omega arith, h)
get-append (e ∷ log) c d (suc k) h = elim (get-append log c d k h) [
  | inl (a, b) ↦ inl (ap suc a, b)
  | inr (a, b) ↦ inr (omega arith, b)
]

next-slot_of : (n : ℕ) → next (slot_of n) ≡ slot_of (suc n)
next-slot_of n = ground arith

-- The slot before the one of the next entry is the one of the last entry.
pub previous-slot_of : (n : ℕ) → previous (slot_of (suc n)) ≡ slot_of n
previous-slot_of n = ground arith

-- Entries that are less than twenty places apart have slots of their own.
slots_apart : (k n : ℕ) → k < n → n < k + 20 → (slot_of k == slot_of n) ≡ false
slots_apart k n lt close = ground arith

cur_of-append :
    (log : List Command) (c : Command) → cur_of (log ++ c ∷ []) ≡ some (slot_of (suc (length log)))
cur_of-append [] c = refl
cur_of-append (d ∷ log) c =
    let len : length (log ++ c ∷ []) ≡ suc (length log) =
      omega (arith, length-append log (c ∷ [])) in
    ap (λ (k : ℕ). some (slot_of (suc k))) len

-- A command is written behind the last one.
save-IsHistory :
    (c : Command) (log : List Command) (q : Queue)
    → IsHistory log q
    → IsHistory (log ++ c ∷ []) (save c (slot_of (length log)) q)
unfolding save
save-IsHistory c log q h =
    let n = length log in
    let len : length (log ++ c ∷ []) ≡ suc n = omega (arith, length-append log (c ∷ [])) in
    record {
      count = omega (arith, h.count, len);
      place = ap some (next-slot_of n) ∙ sym (cur_of-append log c);
      held = λ k d got close. elim (get-append log c d k got) [
        | inl (at, is_new) ↦
            if-both (Copied d) (slot_of k == slot_of n) _ _
              (λ _. ap (λ e. set_all e (set_all c (q.slots (slot_of n)))) (sym is_new))
              (λ apart.
                absurd (false≢true (sym apart ∙ ap (λ i. slot_of i == slot_of n) at ∙ ==_self _)))
        | inr (lt, old) ↦
            if-both (Copied d) (slot_of k == slot_of n) _ _
              (λ meets.
                absurd (false≢true (sym (slots_apart k n lt (omega (arith, close, len))) ∙ meets)))
              (λ _. h.held k d old (omega (arith, lt, close, len)))
      ];
    }

-- The queue holds the last twenty commands of the history after each command: one that repeats the
-- last one changes nothing, and any other is saved behind it. So it is from the start, when the queue
-- is empty.
pub add_command-IsHistory :
    (c : Command) (log : List Command) (q : Queue)
    → IsHistory log q
    → IsHistory (record_command c log) (add_command c q)
unfolding add_command
add_command-IsHistory c [] q h =
    elim-Option (IsHistory (c ∷ [])) q.cur _ _ (λ _. save-IsHistory c [] q h)
      (λ cur e. let place = h.place in cc)
add_command-IsHistory c (e ∷ log) q h =
    let (d, (l, g)) = last_of-get (e ∷ log) (length log) refl in
    let spec : record_command c (e ∷ log) ≡ unless (same d.command_str c.command_str) c (e ∷ log) =
      ap (λ o. behind o c (e ∷ log)) l in
    let place = h.place in
    elim-Option (IsHistory (record_command c (e ∷ log))) q.cur _ _ (λ gone. cc)
      (λ cur there.
        let at : cur ≡ slot_of (suc (length log)) = cc in
        let before = ap previous at ∙ previous-slot_of (length log) in
        let text : (q.slots (previous cur)).command_str ≡ d.command_str =
          ap (λ i. (q.slots i).command_str) before
          ∙ sym (ap (λ (x : Command). x.command_str) (h.held (length log) d g (omega arith))) in
        let test = ap (λ t. same t c.command_str) (sym text) in
        let log_is =
          λ (b : Bool) (e' : same (q.slots (previous cur)).command_str c.command_str ≡ b).
            sym (spec ∙ ap (λ b. unless b c (e ∷ log)) (test ∙ e')) in
        if-both (IsHistory (record_command c (e ∷ log)))
          (same (q.slots (previous cur)).command_str c.command_str) _ _
          (λ repeats. subst (λ l. IsHistory l q) (log_is true repeats) h)
          (λ differs.
            subst (λ l. IsHistory l (save c cur q)) (log_is false differs)
              (subst (λ i. IsHistory ((e ∷ log) ++ (c ∷ [])) (save c i q)) (sym at)
                (save-IsHistory c (e ∷ log) q h))))

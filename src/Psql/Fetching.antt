-- ===== src/Psql/Fetching.antt =====
-- src/psql/src/iSQLCommandQueue.cpp: what `GetCommand` returns of a history.
use natc.Base.{
  ℕ, zero, suc, ◌+◌, ◌≤◌, ◌<◌, ◌≡◌, refl, ap, sym, ◌∙◌, false, ltb, List, [], ◌∷◌, some, length,
  get_elem?, arith, elim-Option,
}
use natc.Base.Int.{pos}
use natc.Psql.Command.{Command, set_all}
use natc.Psql.History.{
  Queue, Reply, ok, previous, and_then, check_his_num, command_at, number_at, find_command,
  get_command,
}
use natc.Psql.Saved.{slot_of, Copied, cur_of, IsHistory, previous-slot_of}

-- What is read from a copy is what was saved.
read_copy : (c d des : Command) → Copied c d → set_all d des ≡ set_all c des
read_copy c d des copied = ap (λ x. set_all x des) (sym copied)

check_his_num-passes :
    (k cur : ℕ) (q : Queue) → q.cur ≡ some cur → k ≤ 20 → check_his_num (pos k) q ≡ ok tt
unfolding check_his_num
check_his_num-passes k cur q e le =
    let passes : ltb 20 k ≡ false = ground arith in
    elim-Option (λ (r : Reply (Unit {0})). r ≡ ok tt) q.cur _ _ (λ gone. cc)
      (λ cur' _. rw passes refl)

find_command-number :
    (k cur : ℕ) (q : Queue)
    → q.cur ≡ some cur
    → k ≤ 20
    → find_command (pos k) q ≡ command_at k cur q
unfolding find_command number_at
find_command-number k cur q e le =
    ap (λ (r : Reply (Unit {0})). and_then r (λ _. number_at (pos k) q))
      (check_his_num-passes k cur q e le)
    ∙ elim-Option (λ (r : Reply Command). r ≡ command_at k cur q) q.cur _ _ (λ gone. cc)
        (λ cur' e'. let same : cur' ≡ cur = cc in ap (λ i. command_at k i q) same)

slot_of-le : (k : ℕ) → slot_of k ≤ 20
slot_of-le k = omega arith

-- A slot that has been written is within the count.
command_at-slot : (j cur : ℕ) (q : Queue) → 0 < j → j ≤ q.max → command_at j cur q ≡ ok (q.slots j)
unfolding command_at
command_at-slot zero cur q lt le = absurd (omega arith)
command_at-slot (suc j) cur q lt le =
    let passes : ltb q.max (suc j) ≡ false = ground arith in rw passes refl

slot_of-count : (k m : ℕ) → k < m → slot_of k ≤ m
slot_of-count k m lt = omega arith

get_elem-lt : (log : List Command) (k : ℕ) (c : Command) → get_elem? log k ≡ some c → k < length log
get_elem-lt [] k c h = cc
get_elem-lt (d ∷ log) zero c h = omega arith
get_elem-lt (d ∷ log) (suc k) c h = omega (arith, get_elem-lt log k c h)

cur_of-some :
    (log : List Command) (k : ℕ) → k < length log → cur_of log ≡ some (slot_of (length log))
cur_of-some [] k h = absurd (omega arith)
cur_of-some (c ∷ log) k h = refl

-- The entry of the history is in its slot.
pub find_command-IsHistory :
    (log : List Command) (q : Queue) (k : ℕ) (c : Command)
    → IsHistory log q
    → get_elem? log k ≡ some c
    → find_command (pos (slot_of k)) q ≡ ok (q.slots (slot_of k))
find_command-IsHistory log q k c h got =
    let lt = get_elem-lt log k c got in
    find_command-number (slot_of k) _ q (h.place ∙ cur_of-some log k lt) (slot_of-le k)
    ∙ command_at-slot (slot_of k) _ q (omega arith)
        (slot_of-count k q.max (omega (arith, lt, h.count)))

-- Each of the last twenty commands of the history can be fetched by the number of its slot, and the
-- last one by 0 too: the copy has all of it that `setAll` copies, and the rest of what it overwrites.
pub get_command-IsHistory :
    (log : List Command) (q : Queue) (k : ℕ) (c des : Command)
    → IsHistory log q
    → get_elem? log k ≡ some c
    → length log ≤ k + 20
    → (get_command (pos (slot_of k)) q des ≡ ok (set_all c des))
      × (length log ≡ suc k → get_command (pos 0) q des ≡ ok (set_all c des))
unfolding get_command command_at
get_command-IsHistory log q k c des h got close =
    let lt = get_elem-lt log k c got in
    let place = h.place ∙ cur_of-some log k lt in
    let copy = read_copy c (q.slots (slot_of k)) des (h.held k c got close) in
    let fetch = λ (r : Reply Command). and_then r (λ c. ok (set_all c des)) in
    (
      ap fetch (find_command-IsHistory log q k c h got) ∙ ap ok copy,
      λ last.
          let before : previous (slot_of (length log)) ≡ slot_of k =
            ap (λ n. previous (slot_of n)) last ∙ previous-slot_of k in
          ap fetch (find_command-number 0 _ q place (omega arith) ∙ ap (λ i. ok (q.slots i)) before)
          ∙ ap ok copy,
    )

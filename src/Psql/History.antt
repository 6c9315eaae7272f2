-- ===== src/Psql/History.antt =====
-- src/psql/src/iSQLCommandQueue.cpp: the saved commands.
use natc.Base.{
  ℕ, zero, suc, ◌+◌, ◌-◌, Bool, true, false, ◌==◌, ◌||◌, ◌&&◌, if◌then◌else◌, ltb, leb, List, [],
  ◌∷◌, ◌++◌, Option, none, some, Bytes, codes, same, strstr, length, take, drop, update,
}
use natc.Base.Int.{ℤ, pos, negsuc}
use natc.Psql.Strings.{erase_white_space}
use natc.Psql.Command.{Command, set_all}

-- COM_QUEUE_SIZE.
abbrev pub queue_size : ℕ
queue_size = 21

-- `m_Queue`, `m_CurHisNum` (`none` is -1) and `m_MaxHisNum`. The slot 0 is not used.
pub record Queue : Type 0 where
  pub slots : ℕ → Command
  pub cur : Option ℕ
  pub max : ℕ

-- A result, or the message that is printed.
pub data Reply {ℓ} (A : Type ℓ) : Type ℓ where
  ok : A → Reply A
  no_command : Reply A
  wrong_number : Reply A
  not_found : Reply A

-- `IDE_TEST`: what goes wrong ends the call.
abbrev pub and_then {ℓ κ} : {A : Type ℓ} {B : Type κ} → Reply A → (A → Reply B) → Reply B
and_then (ok a) f = f a
and_then no_command f = no_command
and_then wrong_number f = wrong_number
and_then not_found f = not_found

-- The slot before the one that is written next.
abbrev pub previous : ℕ → ℕ
previous cur = (if cur == 1 then queue_size else cur) - 1

abbrev pub next : ℕ → ℕ
next ix = if ix == queue_size - 1 then 1 else ix + 1

-- The end of `AddCommand`: the slot is written, and the numbers go on.
unfoldable pub save : Command → ℕ → Queue → Queue
save c cur q = record q {
  slots = update q.slots cur (set_all c (q.slots cur));
  cur = some (next cur);
  max = q.max + 1;
}

-- `AddCommand`.
unfoldable pub add_command : Command → Queue → Queue
unfolding save
add_command c q = elim q.cur [
  | none ↦ save c 1 q
  | some cur ↦ if same (q.slots (previous cur)).command_str c.command_str then q else save c cur q
]

-- `CheckHisNum`.
unfoldable pub check_his_num : ℤ → Queue → Reply (Unit {0})
check_his_num his_num q = elim q.cur [
  | none ↦ no_command
  | some cur ↦ elim his_num [
    | negsuc k ↦ wrong_number
    | pos k ↦ if ltb (queue_size - 1) k then wrong_number else ok tt
  ]
]

-- The command of a number that `CheckHisNum` has passed: 0 is the last one.
unfoldable pub command_at : ℕ → ℕ → Queue → Reply Command
command_at zero cur q = ok (q.slots (previous cur))
command_at (suc k) cur q = if ltb q.max (suc k) then no_command else ok (q.slots (suc k))

-- The queue's current number is there when `CheckHisNum` has passed, and the number is not negative.
unfoldable pub number_at : ℤ → Queue → Reply Command
unfolding command_at
number_at his_num q = elim q.cur [
  | none ↦ no_command
  | some cur ↦ elim his_num [ negsuc k ↦ wrong_number | pos k ↦ command_at k cur q ]
]

-- The command that a number means, or the message.
unfoldable pub find_command : ℤ → Queue → Reply Command
unfolding check_his_num number_at
find_command his_num q = and_then (check_his_num his_num q) (λ _. number_at his_num q)

-- `GetCommand`: the command is copied into `des`.
unfoldable pub get_command : ℤ → Queue → Command → Reply Command
unfolding find_command
get_command his_num q des = and_then (find_command his_num q) (λ c. ok (set_all c des))

-- The first occurrence of the old text is replaced.
unfoldable pub replace_text : Bytes → Bytes → Bytes → Reply Bytes
replace_text old_str new_str text = elim (strstr text old_str) [
  | none ↦ not_found
  | some rest ↦
      ok (take (length text - length rest) text ++ (new_str ++ drop (length old_str) rest))
]

-- `ChangeCommand`.
unfoldable pub change_command : ℤ → Bytes → Bytes → Queue → Reply Bytes
unfolding find_command replace_text
change_command his_num old_str new_str q =
    and_then (find_command his_num q) (λ c. replace_text old_str new_str c.command_str)

abbrev is_last : Bytes → Bool
is_last [] = true
is_last (c ∷ cs) = false

-- The inner loop of `DisplayHistory`: the lines of a command are put together with an indentation. A
-- last line without an end replaces what was put together so far.
unfoldable pub indent_lines : Bytes → Bytes → Bytes → Bytes
indent_lines so_far line [] = line
indent_lines so_far line (c ∷ cs) =
    let ended = so_far ++ (line ++ (c ∷ codes "     ")) in
    let rest =
      indent_lines (if c == 10 then ended else so_far) (if c == 10 then [] else line ++ (c ∷ []))
        cs in
    if c == 10 && is_last cs then so_far ++ (line ++ (c ∷ [])) else rest

-- The loop of `DisplayHistory` over the slots: the number and the text of each one that is shown.
unfoldable pub display_loop : ℕ → ℕ → Queue → List (ℕ × Bytes)
unfolding indent_lines erase_white_space
display_loop zero ix q = []
display_loop (suc n) ix q =
    let rest = display_loop n (next ix) q in
    if leb ix q.max || ltb (queue_size - 1) q.max
    then (ix, indent_lines [] [] (erase_white_space (q.slots ix).command_str).text) ∷ rest
    else rest

-- `DisplayHistory`.
unfoldable pub display_history : Queue → Reply (List (ℕ × Bytes))
unfolding display_loop
display_history q = elim q.cur [
  | none ↦ no_command
  | some cur ↦
      let ix = if cur == queue_size - 1 then 1 else cur in ok (display_loop (queue_size - 1) ix q)
]

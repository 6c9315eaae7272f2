-- ===== src/Psql/Tests.antt =====
-- Concrete commands and strings, and the theorems at inputs that meet their hypotheses.
use natc.Base.{
  ◌≢◌, ap, subst, some, zero, suc, ◌≡◌, refl, true, false, List, [], ◌∷◌, ◌++◌, none, Bytes, codes,
  length, arith,
}
use natc.Base.Int.{ℤ, pos, ◌+ℤ◌}
use natc.Psql.Strings.{is_space, to_upper, cut_back, cut_end, erase_white_space, remove_last_space}
use natc.Psql.Trimming.{remove_last_space-Trims, Trims, Erases, erase_white_space-Erases}
use natc.Psql.Command.{Command, set_all}
use natc.Psql.History.{Queue, ok, add_command, get_command, change_command}
use natc.Psql.Saved.{IsHistory, add_command-IsHistory}
use natc.Psql.Fetching.{get_command-IsHistory}
use natc.Psql.Changing.{Changed, change_command-Changed}
use natc.Psql.HostVars.{
  char, geometry, double, byte, no_memory, null_access, Element, Vars, done, too_large, no_vars,
  hashing, hash_loop, get_var, find_element, update_element, modify, declared, insert, add_declared,
  add,
}
use natc.Psql.Values.{Parsers, set_value, assign, assign_text}
use natc.Psql.Lookup.{get_var-to_upper}
use natc.Psql.Declaring.{Declares, add-Declares}
use natc.Psql.Assigning.{Sets, in_quotes, set_value-text, set_value-too_large}
use natc.Psql.Values.{put_bind_list, set_host_var, give_all, takes, copied}
use natc.Psql.Binding.{Keeping}
use natc.Psql.Bound.{AllTaken, Reached, fresh, after, adds, binds, set_host_var-Keeping}

abbrev said : Bytes → ℤ → Command
said text colsize = record {
  command_kind = 1;
  help_kind = 0;
  option_kind = 0;
  admin_option = 0;
  path_type = 0;
  query = text;
  command_str = text ++ 10 ∷ [];
  shell_command = [];
  on_off = false;
  is_sysdba = false;
  file_name = [];
  user_name = [];
  passwd = [];
  table_name = [];
  colsize = colsize;
  linesize = pos 80;
  pagesize = pos 0;
  history_no = pos 0;
  timescale = 0;
  old_str = [];
  new_str = [];
  change_no = pos 0;
  change_kind = 0;
  proc_name = [];
  host_var_name = [];
  option_str = [];
}

abbrev blank : Command
blank = said [] (pos 0)

abbrev new_queue : Queue
new_queue = record { slots = λ i. blank; cur = none; max = 0 }

new_queue-IsHistory : IsHistory [] new_queue
new_queue-IsHistory = record { count = refl; place = refl; held = λ k c got close. cc }

abbrev desc : Command
desc = said (codes "desc t1;") (pos 7)

abbrev quit : Command
quit = said (codes "quit;") (pos 0)

abbrev one : List Command
one = desc ∷ []

abbrev with_one : Queue
with_one = add_command desc new_queue

with_one-IsHistory : IsHistory one with_one
with_one-IsHistory = add_command-IsHistory desc [] new_queue new_queue-IsHistory

add_command-IsHistory_example : IsHistory (desc ∷ quit ∷ []) (add_command quit with_one)
add_command-IsHistory_example = add_command-IsHistory quit one with_one with_one-IsHistory

-- The column size of the command is not saved.
get_command-IsHistory_example :
    (get_command (pos 1) with_one quit ≡ ok (set_all desc quit))
    × (length one ≡ suc zero → get_command (pos 0) with_one quit ≡ ok (set_all desc quit))
get_command-IsHistory_example =
    get_command-IsHistory one with_one 0 desc quit with_one-IsHistory refl (omega arith)

change_command-Changed_example :
    Changed
      (codes "desc t1;" ++ 10 ∷ [])
      (codes "t1")
      (codes "t2")
      (change_command (pos 1) (codes "t1") (codes "t2") with_one)
change_command-Changed_example =
    change_command-Changed one with_one 0 desc (codes "t1") (codes "t2") with_one-IsHistory refl
      (omega arith)

remove_last_space-Trims_example : Trims is_space (codes "ab  ") (remove_last_space (codes "ab  "))
remove_last_space-Trims_example = remove_last_space-Trims b'a' (codes "b  ")

erase_white_space-Erases_example : Erases (codes " ab ") (erase_white_space (codes " ab "))
erase_white_space-Erases_example = erase_white_space-Erases (codes " ab ")

-- A string of spaces makes the loop read the byte before it.
remove_blank : (remove_last_space (codes "  ")).is_under ≡ true
unfolding remove_last_space cut_end cut_back
remove_blank = refl

-- A character variable of four bytes.
abbrev with_abc : Vars
with_abc = (add (codes "abc") char (pos 4) [] no_vars).1

abbrev abc : Element
abc = declared (codes "ABC") char (pos 4) [] (pos 4) (pos 0)

abc_there : get_var (codes "aBc") with_abc ≡ some abc
unfolding add add_declared get_var find_element hashing hash_loop insert to_upper
abc_there = refl

get_var-to_upper_example : get_var (codes "ABC") with_abc ≡ get_var (codes "aBc") with_abc
unfolding to_upper
get_var-to_upper_example = get_var-to_upper (codes "aBc") with_abc

add-Declares_example :
    Declares
      (codes "abc")
      char
      (pos 4)
      []
      (pos 4)
      no_vars
      (add (codes "abc") char (pos 4) [] no_vars)
add-Declares_example =
    add-Declares (codes "abc") char (pos 4) [] (pos 4) no_vars refl (omega arith) refl refl

-- The conversions are not used for texts.
abbrev no_parsers : Parsers
no_parsers = record { atof = λ s. 0; atoi = λ s. pos 0; strtoll = λ s. (pos 0, false) }

set_value-text_example :
    Sets
      (codes "aBc")
      (record abc { c_value = some (codes "hi"); is_assigned = true })
      done
      with_abc
      (set_value no_parsers (codes "aBc") (in_quotes (codes "hi")) with_abc)
set_value-text_example =
    set_value-text no_parsers (codes "aBc") b'h' (codes "i") with_abc abc [] abc_there refl refl
      (omega arith)

set_value-too_large_example :
    Sets
      (codes "aBc")
      (record abc { c_value = some [] })
      too_large
      with_abc
      (set_value no_parsers (codes "aBc") (in_quotes (codes "hello")) with_abc)
set_value-too_large_example =
    set_value-too_large no_parsers (codes "aBc") b'h' (codes "ello") with_abc abc [] abc_there refl
      refl (omega arith) refl

-- A declaration anew with a type that cannot be declared takes the text away and leaves the type.
spoiled :
    get_var (codes "abc") (add (codes "abc") geometry (pos 4) [] with_abc).1
    ≡ some (record abc { c_value = none })
unfolding add add_declared get_var find_element update_element modify hashing hash_loop insert
    to_upper
spoiled = refl

-- The variable is bound as the first parameter.
abbrev bound : Vars
bound = (put_bind_list (codes "abc") (pos 1) (pos 1) with_abc).1

bound-Reached : Reached bound
bound-Reached =
    after (after fresh (adds no_vars (codes "abc") char (pos 4) []))
      (binds with_abc (codes "abc") (pos 1) (pos 1))

bound_some : bound.binds ≢ []
unfolding put_bind_list add add_declared get_var find_element hashing hash_loop insert to_upper
bound_some e = absurd (omega (arith, ap length e))

bound_taken : AllTaken bound.binds bound
unfolding put_bind_list add add_declared get_var find_element hashing hash_loop insert to_upper
bound_taken =
    (λ s there. let is_abc : abc ≡ s = cc in subst (λ x. takes t x ≡ true) is_abc refl, tt)
  where
    t : Element
    t = copied abc (pos 1) (pos 1)

set_host_var-Keeping_example : (v' : Vars) × ((set_host_var bound ≡ some v') × Keeping bound v')
set_host_var-Keeping_example = set_host_var-Keeping bound bound-Reached bound_some bound_taken

-- A variable that is declared anew as a floating one while a copy is bound has no buffer for its text.
lost_buffer : set_host_var (add (codes "abc") double (pos 0) [] bound).1 ≡ none
unfolding set_host_var give_all put_bind_list add add_declared get_var find_element update_element
    modify hashing hash_loop insert to_upper
lost_buffer = refl

-- The size of a long BYTE variable is negative as an SInt, and its buffer cannot be allocated.
no_memory_left : (add (codes "abc") byte (pos 2000000000) [] no_vars).0 ≡ no_memory
unfolding add add_declared get_var find_element hashing hash_loop to_upper ◌+ℤ◌
no_memory_left = refl

-- A value for the variable that has lost its text is written through a null pointer.
null_write :
    (set_value no_parsers
      (codes "abc")
      (in_quotes (codes "hi"))
      (add (codes "abc") geometry (pos 4) [] with_abc).1).0
    ≡ null_access
unfolding set_value assign assign_text add add_declared get_var find_element update_element modify
    hashing hash_loop insert to_upper
null_write = refl

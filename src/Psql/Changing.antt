-- ===== src/Psql/Changing.antt =====
-- src/psql/src/iSQLCommandQueue.cpp: what `ChangeCommand` makes of a saved command.
use natc.Base.{
  ℕ, ◌+◌, ◌-◌, ◌≤◌, ◌≡◌, ◌≢◌, refl, ap, ap₂, sym, ◌∙◌, List, [], ◌∷◌, ◌++◌, some, Bytes, strstr,
  length, length-append, take, drop, get_elem?, arith, First, Found, strstr-Found, elim-Option,
  subst,
}
use natc.Base.Int.{pos}
use natc.Psql.Command.{Command}
use natc.Psql.History.{Queue, Reply, ok, not_found, and_then, replace_text, change_command}
use natc.Psql.Saved.{slot_of, IsHistory}
use natc.Psql.Fetching.{find_command-IsHistory}

-- The reply is the text with the first occurrence of the old string replaced, or says that there is
-- none.
pub data Changed (text old_str new_str : Bytes) : Reply Bytes → Type 0 where
  replaced :
      (before after : Bytes)
      → text ≡ before ++ (old_str ++ after)
      → ((a b : Bytes) → text ≡ a ++ (old_str ++ b) → length before ≤ length a)
      → Changed text old_str new_str (ok (before ++ (new_str ++ after)))
  missing : ((a b : Bytes) → text ≢ a ++ (old_str ++ b)) → Changed text old_str new_str not_found

take-append : (xs ys : Bytes) → take (length xs) (xs ++ ys) ≡ xs
take-append [] ys = refl
take-append (x ∷ xs) ys = ap (◌∷◌ x) (take-append xs ys)

drop-append : (xs ys : Bytes) → drop (length xs) (xs ++ ys) ≡ ys
drop-append [] ys = refl
drop-append (x ∷ xs) ys = drop-append xs ys

replace_text-Changed :
    (text old_str new_str : Bytes)
    → Changed text old_str new_str (replace_text old_str new_str text)
unfolding replace_text
replace_text-Changed text old_str new_str =
    let found = strstr-Found text old_str in
    elim-Option (Changed text old_str new_str) (strstr text old_str) _ _
      (λ e. missing (subst (Found text old_str) e found))
      (λ rest e.
        let f : First text old_str rest = subst (Found text old_str) e found in
        let count : length text - length rest ≡ length f.before =
          omega (arith, ap length f.whole, length-append f.before rest) in
        let before : take (length text - length rest) text ≡ f.before =
          ap (λ n. take n text) count
          ∙ ap (take (length f.before)) f.whole
          ∙ take-append f.before rest in
        let after : drop (length old_str) rest ≡ f.after =
          ap (drop (length old_str)) f.here ∙ drop-append old_str f.after in
        subst (λ r. Changed text old_str new_str (ok r))
          (sym (ap₂ (λ (a b : Bytes). a ++ (new_str ++ b)) before after))
          (replaced f.before f.after (f.whole ∙ ap (λ b. f.before ++ b) f.here) f.earliest))

-- The text of each of the last twenty commands can be changed by the number of its slot: the first
-- occurrence of the old string is replaced by the new one and all else stays, or the reply says that
-- there is no occurrence.
pub change_command-Changed :
    (log : List Command) (q : Queue) (k : ℕ) (c : Command) (old_str new_str : Bytes)
    → IsHistory log q
    → get_elem? log k ≡ some c
    → length log ≤ k + 20
    → Changed c.command_str old_str new_str (change_command (pos (slot_of k)) old_str new_str q)
unfolding change_command
change_command-Changed log q k c old_str new_str h got close =
    let slot = q.slots (slot_of k) in
    let text : slot.command_str ≡ c.command_str =
      sym (ap (λ (x : Command). x.command_str) (h.held k c got close)) in
    let reply : change_command (pos (slot_of k)) old_str new_str q
        ≡ replace_text old_str new_str slot.command_str =
      ap (λ r. and_then r (λ c. replace_text old_str new_str c.command_str))
        (find_command-IsHistory log q k c h got) in
    subst (Changed c.command_str old_str new_str)
      (sym (reply ∙ ap (replace_text old_str new_str) text))
      (replace_text-Changed c.command_str old_str new_str)

-- ===== src/Psql/Declaring.antt =====
-- src/psql/src/iSQLHostVarMgr.cpp: what the table of host variables holds after a declaration (`add`).
use natc.Base.{
  true, ◌≤◌, ◌≡◌, ◌≢◌, refl, ap, sym, ◌∙◌, false, ltb, ◌∷◌, some, Bytes, length, arith, elim-Option,
  update, if-both,
}
use mathlib.Core.Bool.{false≢true}
use natc.Base.Int.{ℤ, pos}
use natc.Psql.Strings.{to_upper}
use natc.Psql.Hashing.{hashing-to_upper}
use natc.Psql.HostVars.{
  VarType, Element, Vars, Status, done, hashing, find_element, get_var, modify, size_of, has_room,
  declared, insert, add_declared, is_bad, max_name_len, add,
}
use natc.Psql.Lookup.{
  to_upper_twice, get_var-to_upper, get_var-same, apart, find-hit, find-miss, get-bucket,
  same_bucket, get_var-modify, get_var-modify-other,
}

pub get_var-insert :
    (name : Bytes) (e : Element) (v : Vars)
    → e.name ≡ to_upper name
    → get_var name (insert e v) ≡ some e
unfolding get_var insert
get_var-insert name e v h =
    let key : hashing name ≡ hashing e.name = sym (ap hashing h ∙ hashing-to_upper name) in
    ap
      (λ k.
        find_element (to_upper name)
          (update v.table (hashing e.name) (e ∷ v.table (hashing e.name)) k))
      key
    ∙ ap (find_element (to_upper name)) (same_bucket (hashing e.name) v.table _)
    ∙ find-hit (to_upper name) e (v.table (hashing e.name)) h

pub get_var-insert-other :
    (other : Bytes) (e : Element) (v : Vars)
    → e.name ≢ to_upper other
    → get_var other (insert e v) ≡ get_var other v
unfolding get_var insert
get_var-insert-other other e v h =
    get-bucket (hashing e.name) (hashing other) v.table _ (to_upper other) (λ k.
      find-miss (to_upper other) e (v.table (hashing e.name)) (apart e.name (to_upper other) h)
      ∙ ap (λ i. find_element (to_upper other) (v.table i)) (sym k))

-- The variable is declared as it was asked for, and no other one is touched.
pub record Declares (name : Bytes) (type : VarType) (precision : ℤ) (scale : Bytes) (size : ℤ)
    (v : Vars) (r : Status × Vars) : Type 0 where
  pub success : r.0 ≡ done
  pub para_order : ℤ
  pub found :
      (alike : Bytes)
      → to_upper alike ≡ to_upper name
      → get_var alike r.1 ≡ some (declared (to_upper name) type precision scale size para_order)
  pub others :
      (other : Bytes) → to_upper name ≢ to_upper other → get_var other r.1 ≡ get_var other v

add_declared-Declares :
    (name : Bytes) (type : VarType) (precision : ℤ) (scale : Bytes) (size : ℤ) (v : Vars)
    → size_of type precision ≡ some size
    → has_room type size ≡ true
    → Declares name type precision scale size v
        (add_declared (to_upper name) type precision scale v)
unfolding add_declared
add_declared-Declares name type precision scale size v h room =
    let P = Declares name type precision scale size v in
    let upper = to_upper name in
    elim-Option P (get_var upper v) _ _
      (λ new.
        elim-Option P (size_of type precision) _ _ (λ bad'. cc)
          (λ size' e.
            let fits : size' ≡ size = cc in
            let d = declared upper type precision scale size' (pos 0) in
            if-both P (has_room type size') _ _
              (λ _. record {
                success = refl;
                para_order = pos 0;
                found = λ alike same_name.
                    get_var-same alike name (insert d v) same_name
                    ∙ get_var-insert name d v refl
                    ∙ ap (λ s. some (declared upper type precision scale s (pos 0))) fits;
                others = λ other h'. get_var-insert-other other d v h';
              })
              (λ none_left. absurd (false≢true (sym none_left ∙ ap (has_room type) fits ∙ room)))))
      (λ old is_old.
        elim-Option P (size_of type precision) _ _ (λ bad'. cc)
          (λ size' e.
            let fits : size' ≡ size = cc in
            let f = λ (x : Element). declared upper type precision scale size' x.para_order in
            if-both P (has_room type size') _ _
              (λ _. record {
                success = refl;
                para_order = old.para_order;
                found = λ alike same_name.
                    get_var-same alike name (modify upper f v) same_name
                    ∙ sym (get_var-to_upper name (modify upper f v))
                    ∙ get_var-modify upper f v old (λ x _. sym (to_upper_twice name)) is_old
                    ∙ ap (λ s. some (declared upper type precision scale s old.para_order)) fits;
                others = λ other h'.
                    get_var-modify-other upper other f v (λ x _. sym (to_upper_twice name))
                      (λ x. h' (sym (to_upper_twice name) ∙ x));
              })
              (λ none_left. absurd (false≢true (sym none_left ∙ ap (has_room type) fits ∙ room)))))

-- A declaration with a type that has a size whose buffer can be allocated, and a name of at most forty
-- bytes, succeeds: the lookup
-- finds the variable in any case of its name, with the type, precision, scale and size asked for and
-- no value, whether it was declared before or not, and finds the other variables as before.
pub add-Declares :
    (name : Bytes) (type : VarType) (precision : ℤ) (scale : Bytes) (size : ℤ) (v : Vars)
    → is_bad type ≡ false
    → length name ≤ max_name_len
    → size_of type precision ≡ some size
    → has_room type size ≡ true
    → Declares name type precision scale size v (add name type precision scale v)
unfolding add
add-Declares name type precision scale size v good short h room =
    let P = Declares name type precision scale size v in
    let fits : ltb max_name_len (length name) ≡ false = ground arith in
    if-both P (is_bad type) _ _ (λ bad'. cc)
      (λ _.
        if-both P (ltb max_name_len (length name)) _ _ (λ long. cc)
          (λ _. add_declared-Declares name type precision scale size v h room))

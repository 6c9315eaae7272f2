-- ===== src/Psql/Binding.antt =====
-- src/psql/src/iSQLHostVarMgr.cpp: the variables that are bound to a statement are declared, however
-- the operations on the table follow each other.
use natc.Base.{
  ◌≡◌, refl, ap, sym, ◌∙◌, ltb, none, some, Bytes, codes, same, same→eq, same_self, length,
  elim-Option, if-both, Bool-cases, inl, inr,
}
use mathlib.Core.Bool.{false≢true}
use natc.Base.Int.{ℤ, pos}
use natc.Psql.Strings.{to_upper}
use natc.Psql.HostVars.{
  VarType, Element, Vars, Status, get_var, modify, size_of, has_room, declared, insert,
  add_declared, is_bad, max_name_len, add,
}
use natc.Psql.Values.{Parsers, assign, assign_null, set_null, set_value}
use natc.Psql.Lookup.{KeepsName, to_upper_twice, get_var-same, get_var-modify, get_var-modify-other}
use natc.Psql.Declaring.{get_var-insert, get_var-insert-other}
use natc.Psql.Assigning.{assign-Keeps}

-- The lookup finds a variable of the name.
abbrev pub IsDeclared : Bytes → Vars → Type 0
IsDeclared name v = (e : Element) × (get_var name v ≡ some e)

-- What is declared stays so.
abbrev pub Grows : Vars → Vars → Type 0
Grows v v' = (name : Bytes) → IsDeclared name v → IsDeclared name v'

modify-Grows :
    (name : Bytes) (f : Element → Element) (v : Vars)
    → KeepsName (to_upper name) f
    → Grows v (modify name f v)
modify-Grows name f v keeps other (e, h) =
    elim (Bool-cases (same (to_upper name) (to_upper other))) [
      | inl yes' ↦
          let alike = same→eq (to_upper name) (to_upper other) yes' in
          (
            f e,
            sym (get_var-same name other (modify name f v) alike)
                ∙ get_var-modify name f v e keeps (get_var-same name other v alike ∙ h),
          )
      | inr no' ↦ (
        e,
        get_var-modify-other name other f v keeps (λ x.
              false≢true
                (sym no' ∙ ap (λ n. same n (to_upper other)) x ∙ same_self (to_upper other)))
            ∙ h,
      )
    ]

insert-Grows :
    (name : Bytes) (d : Element) (v : Vars) → d.name ≡ to_upper name → Grows v (insert d v)
insert-Grows name d v named other (e, h) = elim (Bool-cases (same d.name (to_upper other))) [
  | inl yes' ↦ (d, get_var-insert other d v (same→eq d.name (to_upper other) yes'))
  | inr no' ↦ (
    e,
    get_var-insert-other other d v (λ x.
          false≢true (sym no' ∙ ap (λ n. same n (to_upper other)) x ∙ same_self (to_upper other)))
        ∙ h,
  )
]

-- The table grows and the bound copies stay.
pub record Keeping (v v' : Vars) : Type 0 where
  pub grows : Grows v v'
  pub same_binds : v'.binds ≡ v.binds

pub modify-Keeping :
    (name : Bytes) (f : Element → Element) (v : Vars)
    → KeepsName (to_upper name) f
    → Keeping v (modify name f v)
unfolding modify
modify-Keeping name f v keeps = record { grows = modify-Grows name f v keeps; same_binds = refl }

stays : (v : Vars) → Keeping v v
stays v = record { grows = λ n h. h; same_binds = refl }

add_declared-Keeping :
    (name : Bytes) (type : VarType) (precision : ℤ) (scale : Bytes) (v : Vars)
    → Keeping v (add_declared (to_upper name) type precision scale v).1
unfolding add_declared insert
add_declared-Keeping name type precision scale v =
    let upper = to_upper name in
    let P = λ (r : Status × Vars). Keeping v r.1 in
    elim-Option P (get_var upper v) _ _
      (λ new.
        elim-Option P (size_of type precision) _ _ (λ _. stays v)
          (λ size _.
            if-both P (has_room type size) _ _
              (λ _. record {
                grows = insert-Grows name (declared upper type precision scale size (pos 0)) v refl;
                same_binds = refl;
              })
              (λ _. stays v)))
      (λ old _.
        elim-Option P (size_of type precision) _ _
          (λ _. modify-Keeping upper (λ e. record e { c_value = none }) v (λ e h. h))
          (λ size _.
            if-both P (has_room type size) _ _
              (λ _.
                modify-Keeping upper (λ e. declared upper type precision scale size e.para_order) v
                  (λ e _. sym (to_upper_twice name)))
              (λ _. stays v)))

pub add-Keeping :
    (name : Bytes) (type : VarType) (precision : ℤ) (scale : Bytes) (v : Vars)
    → Keeping v (add name type precision scale v).1
unfolding add
add-Keeping name type precision scale v =
    let P = λ (r : Status × Vars). Keeping v r.1 in
    if-both P (is_bad type) _ _ (λ _. stays v)
      (λ _.
        if-both P (ltb max_name_len (length name)) _ _ (λ _. stays v)
          (λ _. add_declared-Keeping name type precision scale v))

pub set_null-Keeping : (name : Bytes) (v : Vars) → Keeping v (set_null name v).1
unfolding set_null
set_null-Keeping name v =
    elim-Option (λ (r : Status × Vars). Keeping v r.1) (get_var name v) _ _ (λ _. stays v)
      (λ e _. modify-Keeping name assign_null v (λ x h. h))

pub set_value-Keeping :
    (p : Parsers) (name value : Bytes) (v : Vars) → Keeping v (set_value p name value v).1
unfolding set_value
set_value-Keeping p name value v =
    let P = λ (r : Status × Vars). Keeping v r.1 in
    elim-Option P (get_var name v) _ _ (λ _. stays v)
      (λ e _.
        if-both P (same (to_upper value) (codes "NULL")) _ _
          (λ _. set_null-Keeping (to_upper name) v)
          (λ _.
            modify-Keeping name (assign p e value).1 v (assign-Keeps p e value (to_upper name))))

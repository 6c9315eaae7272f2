-- ===== src/Psql/Bound.antt =====
-- src/psql/src/iSQLHostVarMgr.cpp: `setHostVar` finds every variable that is bound.
use natc.Base.{
  ℕ, ◌+◌, ◌≡◌, ◌≢◌, refl, ap, sym, ◌∙◌, List, [], ◌∷◌, ◌++◌, Option, none, some, Bytes, All,
  All-append, elim-Option, if-both, same, same→eq, subst, true, Bool-cases, inl, inr, same_self,
}
use mathlib.Core.Bool.{false≢true}
use natc.Base.Int.{ℤ}
use natc.Psql.Strings.{to_upper}
use natc.Psql.HostVars.{VarType, Element, Vars, Status, no_vars, find_element, get_var, modify, add}
use natc.Psql.Values.{
  Parsers, Kind, as_text, as_number, as_double, as_real, as_none, kind_of, set_null, set_value,
  copied, put_bind_list, init_bind_list, give_back, give_all, set_host_var, takes, text_fits,
  is_readable,
}
use natc.Psql.Lookup.{
  KeepsName, get_var-to_upper, get_var-same, get_var-modify, get_var-modify-other,
}
use natc.Psql.Binding.{
  IsDeclared, Grows, Keeping, modify-Keeping, add-Keeping, set_null-Keeping, set_value-Keeping,
}

-- One operation on the host variables. A statement's values are given back where it has parameters.
pub data Step : Vars → Vars → Type 0 where
  adds :
      (v : Vars) (name : Bytes) (type : VarType) (precision : ℤ) (scale : Bytes)
      → Step v (add name type precision scale v).1
  clears : (v : Vars) (name : Bytes) → Step v (set_null name v).1
  sets : (v : Vars) (p : Parsers) (name value : Bytes) → Step v (set_value p name value v).1
  binds :
      (v : Vars) (name : Bytes) (order para_order : ℤ)
      → Step v (put_bind_list name order para_order v).1
  frees : (v : Vars) → Step v (init_bind_list v)
  gives : (v v' : Vars) → set_host_var v ≡ some v' → Step v v'

-- What the operations make of the new table.
pub data Reached : Vars → Type 0 where
  fresh : Reached no_vars
  after : {v v' : Vars} → Reached v → Step v v' → Reached v'

-- Every bound copy has its variable.
abbrev AllDeclared : List Element → Vars → Type 0
AllDeclared ts v = All (λ t. IsDeclared t.name v) ts

grow : (ts : List Element) (v v' : Vars) → Grows v v' → AllDeclared ts v → AllDeclared ts v'
grow [] v v' g a = tt
grow (t ∷ ts) v v' g a = (g t.name a.0, grow ts v v' g a.1)

keep : (v v' : Vars) → Keeping v v' → AllDeclared v.binds v → AllDeclared v'.binds v'
keep v v' k a = subst (λ ts. AllDeclared ts v') (sym k.same_binds) (grow v.binds v v' k.grows a)

by_value :
    (P : Element → Type 0) (k : Kind) (x y z : Element)
    → P x
    → P y
    → P z
    → P (elim k [ as_double ↦ x | as_real ↦ y | _ ↦ z ])
by_value P as_text x y z a b c = c
by_value P as_number x y z a b c = c
by_value P as_double x y z a b c = a
by_value P as_real x y z a b c = b
by_value P as_none x y z a b c = c

give_back-KeepsName : (t : Element) (n : Bytes) → KeepsName n (give_back t)
give_back-KeepsName t n s h = by_value (λ x. x.name ≡ n) (kind_of t.type) _ _ _ h h h

-- Each bound copy finds a buffer with room in its variable.
abbrev pub AllTaken : List Element → Vars → Type 0
AllTaken ts v = All (λ t. (s : Element) → get_var t.name v ≡ some s → takes t s ≡ true) ts

text_fits-other :
    (a b o : Option Bytes) (n : ℤ)
    → text_fits b o n ≡ true
    → text_fits a o n ≡ true
    → text_fits a b n ≡ true
text_fits-other none b o n h k = cc
text_fits-other (some w) none o n h k = cc
text_fits-other (some w) (some u) none n h k = cc
text_fits-other (some w) (some u) (some old) n h k = k

text_fits-give_back :
    (t' t s : Element)
    → takes t' s ≡ true
    → text_fits t.c_value s.c_value s.size ≡ true
    → text_fits t.c_value (give_back t' s).c_value (give_back t' s).size ≡ true
text_fits-give_back t' t s h k = by_kind (kind_of t'.type) h
  where
    by_kind :
        (c : Kind)
        → elim c [ as_double ↦ true | as_real ↦ true | _ ↦ text_fits t'.c_value s.c_value s.size ]
          ≡ true
        → (let x : Element = elim c [
          | as_double ↦ record s { d_value = t'.d_value; is_assigned = true }
          | as_real ↦ record s { f_value = t'.f_value; is_assigned = true }
          | _ ↦ record s { c_value = t'.c_value; is_assigned = true }
        ] in
            text_fits t.c_value x.c_value x.size ≡ true)
    by_kind as_text h = text_fits-other t.c_value t'.c_value s.c_value s.size h k
    by_kind as_number h = text_fits-other t.c_value t'.c_value s.c_value s.size h k
    by_kind as_none h = text_fits-other t.c_value t'.c_value s.c_value s.size h k
    by_kind as_double h = k
    by_kind as_real h = k

takes-give_back :
    (t' t s : Element) → takes t' s ≡ true → takes t s ≡ true → takes t (give_back t' s) ≡ true
takes-give_back t' t s h k = by_kind (kind_of t.type) k
  where
    by_kind :
        (c : Kind)
        → elim c [ as_double ↦ true | as_real ↦ true | _ ↦ text_fits t.c_value s.c_value s.size ]
          ≡ true
        → elim c [
          | as_double ↦ true
          | as_real ↦ true
          | _ ↦ text_fits t.c_value (give_back t' s).c_value (give_back t' s).size
        ]
          ≡ true
    by_kind as_text k = text_fits-give_back t' t s h k
    by_kind as_number k = text_fits-give_back t' t s h k
    by_kind as_none k = text_fits-give_back t' t s h k
    by_kind as_double k = refl
    by_kind as_real k = refl

-- A value that is given back leaves room for the others.
AllTaken-modify :
    (t' : Element) (v : Vars) (s' : Element) (ts : List Element)
    → get_var t'.name v ≡ some s'
    → takes t' s' ≡ true
    → AllTaken ts v
    → AllTaken ts (modify t'.name (give_back t') v)
AllTaken-modify t' v s' [] found room a = tt
AllTaken-modify t' v s' (t ∷ ts) found room (a, rest) = (
  λ s there. elim (Bool-cases (same (to_upper t'.name) (to_upper t.name))) [
    | inl yes' ↦
        let alike = same→eq (to_upper t'.name) (to_upper t.name) yes' in
        let v1 = modify t'.name (give_back t') v in
        let now =
          get_var-same t.name t'.name v1 (sym alike)
          ∙ get_var-modify t'.name (give_back t') v s' (give_back-KeepsName t' (to_upper t'.name))
              found in
        let before = get_var-same t.name t'.name v (sym alike) ∙ found in
        let is_s : give_back t' s' ≡ s = cc in
        subst (λ x. takes t x ≡ true) is_s (takes-give_back t' t s' room (a s' before))
    | inr no' ↦ a s (
        sym (
          get_var-modify-other t'.name t.name (give_back t') v
            (give_back-KeepsName t' (to_upper t'.name))
            (λ x.
              false≢true
                (sym no' ∙ ap (λ n. same n (to_upper t.name)) x ∙ same_self (to_upper t.name))))
        ∙ there)
  ],
  AllTaken-modify t' v s' ts found room rest,
)

-- The loop ends where each copy has its variable with room, and keeps what is declared.
give_all-Some :
    (ts : List Element) (v : Vars)
    → AllDeclared ts v
    → AllTaken ts v
    → (v' : Vars) × ((give_all ts v ≡ some v') × Keeping v v')
unfolding give_all
give_all-Some [] v a room = (v, (refl, record { grows = λ n h. h; same_binds = refl }))
give_all-Some (t ∷ ts) v a room =
    let v1 = modify t.name (give_back t) v in
    let k1 = modify-Keeping t.name (give_back t) v (give_back-KeepsName t (to_upper t.name)) in
    let s' = (a.0).0 in
    let found = (a.0).1 in
    let fits = room.0 s' found in
    let (v', (e, k)) =
      give_all-Some ts v1 (grow ts v v1 k1.grows a.1)
        (AllTaken-modify t v s' ts found fits room.1) in
    (
      v',
      (
        elim-Option (λ (r : Option Vars). r ≡ some v') (get_var t.name v) _ _ (λ gone. cc)
            (λ s there. rw (room.0 s there) e),
        record {
          grows = λ n h. k.grows n (k1.grows n h);
          same_binds = k.same_binds ∙ k1.same_binds;
        },
      ),
    )

-- The loop goes on where it does not fail.
give_all-Keeping : (ts : List Element) (v v' : Vars) → give_all ts v ≡ some v' → Keeping v v'
unfolding give_all
give_all-Keeping [] v v' e =
    let is_end : v ≡ v' = cc in
    subst (Keeping v) is_end (record { grows = λ n h. h; same_binds = refl })
give_all-Keeping (t ∷ ts) v v' e =
    let v1 = modify t.name (give_back t) v in
    let k1 = modify-Keeping t.name (give_back t) v (give_back-KeepsName t (to_upper t.name)) in
    let P = λ (r : Option Vars). r ≡ some v' → Keeping v v' in
    elim-Option P (get_var t.name v) _ _ (λ _ none_left. cc)
      (λ s _.
        if-both P (takes t s) _ _
          (λ _ e'.
            let k = give_all-Keeping ts v1 v' e' in
            record {
              grows = λ n h. k.grows n (k1.grows n h);
              same_binds = k.same_binds ∙ k1.same_binds;
            })
          (λ _ none_left. cc))
      e

find_element-name :
    (name : Bytes) (es : List Element) (e : Element) → find_element name es ≡ some e → e.name ≡ name
unfolding find_element
find_element-name name [] e h = cc
find_element-name name (d ∷ es) e h =
    if-both (λ (o : Option Element). o ≡ some e → e.name ≡ name) (same d.name name) (some d)
      (find_element name es)
      (λ hit found.
        let is_e : e ≡ d = cc in ap (λ (x : Element). x.name) is_e ∙ same→eq d.name name hit)
      (λ miss. find_element-name name es e) h

get_var-name :
    (name : Bytes) (v : Vars) (e : Element) → get_var name v ≡ some e → e.name ≡ to_upper name
unfolding get_var
get_var-name name v e h = find_element-name (to_upper name) _ e h

-- The lookup reads the table only.
same_table :
    (v : Vars) (ts : List Element) (n : ℕ) → Grows v (record v { binds = ts; bind_count = n })
unfolding get_var
same_table v ts n name h = h

put_bind_list-AllDeclared :
    (v : Vars) (name : Bytes) (order para_order : ℤ)
    → AllDeclared v.binds v
    → (let v' = (put_bind_list name order para_order v).1 in AllDeclared v'.binds v')
unfolding put_bind_list
put_bind_list-AllDeclared v name order para_order a =
    elim-Option (λ (r : Status × Vars). AllDeclared (r.1).binds r.1) (get_var name v) _ _ (λ _. a)
      (λ e found.
        if-both (λ (r : Status × Vars). AllDeclared (r.1).binds r.1) (is_readable e) _ _
          (λ _.
            let t = copied e order para_order in
            let v' = record v { binds = v.binds ++ t ∷ []; bind_count = v.bind_count + 1 } in
            let g = same_table v (v.binds ++ t ∷ []) (v.bind_count + 1) in
            let mine : IsDeclared e.name v = (
              e,
              ap (λ n. get_var n v) (get_var-name name v e found) ∙ get_var-to_upper name v ∙ found,
            ) in
            All-append (λ t. IsDeclared t.name v') v.binds (t ∷ []) (grow v.binds v v' g a)
              (g e.name mine, tt))
          (λ _. a))

given-Keeping :
    (ts : List Element) (v v' : Vars)
    → elim ts [ [] ↦ none | t ∷ us ↦ give_all (t ∷ us) v ] ≡ some v'
    → Keeping v v'
given-Keeping [] v v' e = cc
given-Keeping (t ∷ us) v v' e = give_all-Keeping (t ∷ us) v v' e

Step-AllDeclared : {v v' : Vars} → Step v v' → AllDeclared v.binds v → AllDeclared v'.binds v'
unfolding set_host_var
Step-AllDeclared (adds v name type precision scale) a =
    keep v _ (add-Keeping name type precision scale v) a
Step-AllDeclared (clears v name) a = keep v _ (set_null-Keeping name v) a
Step-AllDeclared (sets v p name value) a = keep v _ (set_value-Keeping p name value v) a
Step-AllDeclared (binds v name order para_order) a =
    put_bind_list-AllDeclared v name order para_order a
Step-AllDeclared (frees v) a = tt
Step-AllDeclared (gives v v' e) a = keep v v' (given-Keeping v.binds v v' e) a

Reached-AllDeclared : {v : Vars} → Reached v → AllDeclared v.binds v
Reached-AllDeclared fresh = tt
Reached-AllDeclared (after r s) = Step-AllDeclared s (Reached-AllDeclared r)

give_back-Some :
    (ts : List Element) (v : Vars)
    → AllDeclared ts v
    → AllTaken ts v
    → ts ≢ []
    → (v' : Vars) × ((elim ts [ [] ↦ none | t ∷ us ↦ give_all (t ∷ us) v ] ≡ some v')
        × Keeping v v')
give_back-Some [] v a room h = absurd (h refl)
give_back-Some (t ∷ ts) v a room h = give_all-Some (t ∷ ts) v a room

-- After any sequence of operations on the host variables, if a variable is bound, and each variable of a
-- bound copy with a text has a buffer with room for it, then the values of all the bound copies can be
-- given back one after the other: each copy still has its variable, no buffer is overrun, no declared
-- variable is lost and the list of copies stays.
pub set_host_var-Keeping :
    (v : Vars)
    → Reached v
    → v.binds ≢ []
    → AllTaken v.binds v
    → (v' : Vars) × ((set_host_var v ≡ some v') × Keeping v v')
unfolding set_host_var
set_host_var-Keeping v r h room = give_back-Some v.binds v (Reached-AllDeclared r) room h

-- ===== src/Psql/Lookup.antt =====
-- src/psql/src/iSQLHostVarMgr.cpp: the lookup in the table of host variables after an assignment.
use natc.Base.{
  ℕ, ◌≡◌, ◌≢◌, refl, ap, ap₂, sym, ◌∙◌, true, false, ◌==◌, ==_self, ==→eq, if◌then◌else◌, List, [],
  ◌∷◌, Option, some, Bytes, same, same_self, same→eq, update, arith, if-both, Bool-cases, inl, inr,
}
use natc.Psql.Strings.{to_upper, upper_byte}
use natc.Psql.Hashing.{hashing-to_upper}
use natc.Psql.HostVars.{Element, Vars, hashing, find_element, get_var, update_element, modify}

upper_byte_twice : (c : ℕ) → upper_byte (upper_byte c) ≡ upper_byte c
upper_byte_twice c = ground arith

pub to_upper_twice : (s : Bytes) → to_upper (to_upper s) ≡ to_upper s
unfolding to_upper
to_upper_twice [] = refl
to_upper_twice (c ∷ s) = ap₂ (◌∷◌) (upper_byte_twice c) (to_upper_twice s)

-- The lookup does not depend on the case of the name: it computes the key of the name as it is given,
-- and that is the key of the name in upper case, since the size of the table divides the distance of
-- the two cases of a letter.
pub get_var-to_upper : (name : Bytes) (v : Vars) → get_var (to_upper name) v ≡ get_var name v
unfolding get_var
get_var-to_upper name v =
    ap₂ (λ n k. find_element n (v.table k)) (to_upper_twice name) (hashing-to_upper name)

pub apart : (a b : Bytes) → a ≢ b → same a b ≡ false
apart a b h = elim (Bool-cases (same a b)) [
  | inl yes' ↦ absurd (h (same→eq a b yes'))
  | inr no' ↦ no'
]

-- An assignment to the element of the name leaves the name.
abbrev pub KeepsName : Bytes → (Element → Element) → Type 0
KeepsName name f = (e : Element) → e.name ≡ name → (f e).name ≡ name

module _ (name : Bytes) (e : Element) (es : List Element) where
  pub find-hit : e.name ≡ name → find_element name (e ∷ es) ≡ some e
  unfolding find_element
  find-hit h =
      let yes' : same e.name name ≡ true = ap (λ n. same n name) h ∙ same_self name in rw yes' refl

  pub find-miss : same e.name name ≡ false → find_element name (e ∷ es) ≡ find_element name es
  unfolding find_element
  find-miss h = rw h refl

  update-hit : (f : Element → Element) → e.name ≡ name → update_element name f (e ∷ es) ≡ f e ∷ es
  unfolding update_element
  update-hit f h =
      let yes' : same e.name name ≡ true = ap (λ n. same n name) h ∙ same_self name in rw yes' refl

  update-miss :
      (f : Element → Element)
      → same e.name name ≡ false
      → update_element name f (e ∷ es) ≡ e ∷ update_element name f es
  unfolding update_element
  update-miss f h = rw h refl

find-update-same :
    (name : Bytes) (f : Element → Element) (es : List Element) (e : Element)
    → KeepsName name f
    → find_element name es ≡ some e
    → find_element name (update_element name f es) ≡ some (f e)
unfolding find_element update_element
find-update-same name f [] e keeps h = cc
find-update-same name f (d ∷ es) e keeps h = elim (Bool-cases (same d.name name)) [
  | inl hit ↦
      let named = same→eq d.name name hit in
      let is_e = sym (find-hit name d es named) ∙ h in
      let found : d ≡ e = cc in
      ap (find_element name) (update-hit name d es f named)
      ∙ find-hit name (f d) es (keeps d named)
      ∙ ap (λ x. some (f x)) found
  | inr miss ↦
      ap (find_element name) (update-miss name d es f miss)
      ∙ find-miss name d (update_element name f es) miss
      ∙ find-update-same name f es e keeps (sym (find-miss name d es miss) ∙ h)
]

behind_head :
    (n : Bytes) (d : Element) (es es' : List Element)
    → find_element n es' ≡ find_element n es
    → find_element n (d ∷ es') ≡ find_element n (d ∷ es)
unfolding find_element
behind_head n d es es' h = ap (λ (o : Option Element). if same d.name n then some d else o) h

find-update-other :
    (name other : Bytes) (f : Element → Element) (es : List Element)
    → KeepsName name f
    → name ≢ other
    → find_element other (update_element name f es) ≡ find_element other es
unfolding find_element update_element
find-update-other name other f [] keeps h = refl
find-update-other name other f (d ∷ es) keeps h = elim (Bool-cases (same d.name name)) [
  | inl hit ↦
      let named = same→eq d.name name hit in
      let new_apart = apart (f d).name other (λ x. h (sym (keeps d named) ∙ x)) in
      let old_apart = apart d.name other (λ x. h (sym named ∙ x)) in
      ap (find_element other) (update-hit name d es f named)
      ∙ find-miss other (f d) es new_apart
      ∙ sym (find-miss other d es old_apart)
  | inr miss ↦
      ap (find_element other) (update-miss name d es f miss)
      ∙ behind_head other d es (update_element name f es)
          (find-update-other name other f es keeps h)
]

-- The table where one bucket is replaced.
pub get-bucket :
    (key k : ℕ) (table : ℕ → List Element) (es : List Element) (n : Bytes)
    → (k ≡ key → find_element n es ≡ find_element n (table k))
    → find_element n (update table key es k) ≡ find_element n (table k)
get-bucket key k table es n h =
    if-both (λ (l : List Element). find_element n l ≡ find_element n (table k)) (k == key) _ _
      (λ hit. h (==→eq k key hit)) (λ _. refl)

pub same_bucket :
    (key : ℕ) (table : ℕ → List Element) (es : List Element) → update table key es key ≡ es
same_bucket key table es = rw (==_self key) refl

-- An assignment to the variable of a name that is in the table is seen by the lookup, in any case.
pub get_var-modify :
    (name : Bytes) (f : Element → Element) (v : Vars) (e : Element)
    → KeepsName (to_upper name) f
    → get_var name v ≡ some e
    → get_var name (modify name f v) ≡ some (f e)
unfolding get_var modify
get_var-modify name f v e keeps h =
    ap (find_element (to_upper name)) (same_bucket (hashing name) v.table _)
    ∙ find-update-same (to_upper name) f (v.table (hashing name)) e keeps h

-- The other variables are not touched.
pub get_var-modify-other :
    (name other : Bytes) (f : Element → Element) (v : Vars)
    → KeepsName (to_upper name) f
    → to_upper name ≢ to_upper other
    → get_var other (modify name f v) ≡ get_var other v
unfolding get_var modify
get_var-modify-other name other f v keeps h =
    get-bucket (hashing name) (hashing other) v.table _ (to_upper other) (λ e.
      find-update-other (to_upper name) (to_upper other) f (v.table (hashing name)) keeps h
      ∙ ap (λ k. find_element (to_upper other) (v.table k)) (sym e))

-- Names that are alike in upper case name the same variable.
pub get_var-same : (a b : Bytes) (v : Vars) → to_upper a ≡ to_upper b → get_var a v ≡ get_var b v
get_var-same a b v h = sym (get_var-to_upper a v) ∙ ap (λ n. get_var n v) h ∙ get_var-to_upper b v

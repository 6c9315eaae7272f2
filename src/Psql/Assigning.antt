-- ===== src/Psql/Assigning.antt =====
-- src/psql/src/iSQLHostVarMgr.cpp: what `setValue` leaves in the table of host variables.
use natc.Base.{
  ℕ, ◌≡◌, ◌≢◌, refl, ap, ◌∙◌, true, false, [], ◌∷◌, ◌++◌, some, Bytes, codes, same, length, arith,
  elim-Option, if-both, subst,
}
use natc.Base.Int.{pos, ltb_ℤ, ◌≤ℤ◌}
use natc.Psql.Strings.{to_upper}
use natc.Psql.HostVars.{Element, Vars, Status, done, too_large, get_var, modify}
use natc.Psql.Lookup.{KeepsName, get_var-modify, get_var-modify-other}
use natc.Psql.Values.{
  Parsers, before_last, Quoted, unquoted, unclosed, blank, text, quoted_of, quoted, Assigned,
  assign_text, assign_plain, in_range, assign_number, Kind, as_text, as_number, as_double, as_real,
  as_none, kind_of, assign, set_value,
}

-- An assignment leaves the name of every element.
abbrev pub Keeps : Assigned → Type 0
Keeps r = (n : Bytes) → KeepsName n r.1

assign_text-Keeps : (e : Element) (q : Quoted) → Keeps (assign_text e q)
unfolding assign_text
assign_text-Keeps e unquoted = λ n x h. h
assign_text-Keeps e unclosed = λ n x h. h
assign_text-Keeps e blank = λ n x h. h
assign_text-Keeps e (text s) =
    elim-Option Keeps e.c_value _ _ (λ _ n x h. h)
      (λ _ _. if-both Keeps (ltb_ℤ e.size (pos (length s))) _ _ (λ _ n x h. h) (λ _ n x h. h))

assign_plain-Keeps : (q : Quoted) (r : Assigned) → Keeps r → Keeps (assign_plain q r)
unfolding assign_plain
assign_plain-Keeps unquoted r k = k
assign_plain-Keeps unclosed r k = λ n x h. h
assign_plain-Keeps blank r k = λ n x h. h
assign_plain-Keeps (text s) r k = λ n x h. h

assign_number-Keeps : (p : Parsers) (e : Element) (value : Bytes) → Keeps (assign_number p e value)
unfolding assign_number
assign_number-Keeps p e value =
    elim-Option Keeps e.c_value _ _ (λ _ n x h. h)
      (λ _ _.
        if-both Keeps (ltb_ℤ e.size (pos (length value))) _ _ (λ _ n x h. h)
          (λ _. if-both Keeps (in_range p e.type value) _ _ (λ _ n x h. h) (λ _ n x h. h)))

by_kind :
    (P : Assigned → Type 0) (k : Kind) (t n d r o : Assigned)
    → P t
    → P n
    → P d
    → P r
    → P o
    → P (elim k [ as_text ↦ t | as_number ↦ n | as_double ↦ d | as_real ↦ r | as_none ↦ o ])
by_kind P as_text t n d r o a b c e f = a
by_kind P as_number t n d r o a b c e f = b
by_kind P as_double t n d r o a b c e f = c
by_kind P as_real t n d r o a b c e f = e
by_kind P as_none t n d r o a b c e f = f

of_text :
    (k : Kind) (t n d r o : Assigned)
    → k ≡ as_text
    → elim k [ as_text ↦ t | as_number ↦ n | as_double ↦ d | as_real ↦ r | as_none ↦ o ] ≡ t
of_text as_text t n d r o h = refl
of_text as_number t n d r o h = cc
of_text as_double t n d r o h = cc
of_text as_real t n d r o h = cc
of_text as_none t n d r o h = cc

pub assign-Keeps : (p : Parsers) (e : Element) (value : Bytes) → Keeps (assign p e value)
unfolding assign
assign-Keeps p e value =
    by_kind Keeps (kind_of e.type) _ _ _ _ _ (assign_text-Keeps e (quoted value))
      (assign_plain-Keeps (quoted value) _ (assign_number-Keeps p e value))
      (assign_plain-Keeps (quoted value) _ (λ n x h. h))
      (assign_plain-Keeps (quoted value) _ (λ n x h. h)) (λ n x h. h)

-- The variable has the new value, the reply is the status, and no other variable is touched.
pub record Sets (name : Bytes) (e : Element) (status : Status) (v : Vars) (r : Status × Vars)
    : Type 0 where
  pub reply : r.0 ≡ status
  pub found : get_var name r.1 ≡ some e
  pub others :
      (other : Bytes) → to_upper name ≢ to_upper other → get_var other r.1 ≡ get_var other v

set_value-Sets :
    (p : Parsers) (name value : Bytes) (v : Vars) (e : Element)
    → get_var name v ≡ some e
    → same (to_upper value) (codes "NULL") ≡ false
    → Sets name ((assign p e value).1 e) (assign p e value).0 v (set_value p name value v)
unfolding set_value
set_value-Sets p name value v e h no_null =
    let P = Sets name ((assign p e value).1 e) (assign p e value).0 v in
    let sets : P ((assign p e value).0, modify name (assign p e value).1 v) = record {
      reply = refl;
      found =
          get_var-modify name (assign p e value).1 v e (assign-Keeps p e value (to_upper name)) h;
      others = λ other apart.
          get_var-modify-other name other (assign p e value).1 v
            (assign-Keeps p e value (to_upper name)) apart;
    } in
    elim-Option P (get_var name v) _ _ (λ gone. cc)
      (λ e' there.
        let is_e : e ≡ e' = cc in
        if-both P (same (to_upper value) (codes "NULL")) _ _ (λ null. cc)
          (λ _.
            subst (λ x. P ((assign p x value).0, modify name (assign p x value).1 v)) is_e sets))

before_last-append : (s : Bytes) → before_last (s ++ 39 ∷ []) ≡ some s
before_last-append [] = refl
before_last-append (c ∷ s) = rw (before_last-append s) refl

-- A text in quotes.
abbrev pub in_quotes : Bytes → Bytes
in_quotes s = 39 ∷ (s ++ 39 ∷ [])

assign-quoted :
    (p : Parsers) (e : Element) (c : ℕ) (s : Bytes)
    → kind_of e.type ≡ as_text
    → assign p e (in_quotes (c ∷ s)) ≡ assign_text e (text (c ∷ s))
unfolding assign
assign-quoted p e c s k =
    let content : quoted (in_quotes (c ∷ s)) ≡ text (c ∷ s) =
      ap quoted_of (before_last-append (c ∷ s)) in
    of_text (kind_of e.type) _ _ _ _ _ k ∙ ap (assign_text e) content

-- A text in quotes that is not empty and fits the size of a declared variable of a character type
-- that has a buffer is accepted and is its value then; the other variables keep theirs.
pub set_value-text :
    (p : Parsers) (name : Bytes) (c : ℕ) (s : Bytes) (v : Vars) (e : Element) (old : Bytes)
    → get_var name v ≡ some e
    → kind_of e.type ≡ as_text
    → e.c_value ≡ some old
    → pos (length (c ∷ s)) ≤ℤ e.size
    → Sets name
        (record e { c_value = some (c ∷ s); is_assigned = true })
        done
        v
        (set_value p name (in_quotes (c ∷ s)) v)
unfolding assign_text to_upper
set_value-text p name c s v e old h k buffer fits =
    let room : ltb_ℤ e.size (pos (length (c ∷ s))) ≡ false = ground arith in
    let r = set_value p name (in_quotes (c ∷ s)) v in
    let is_set : assign_text e (text (c ∷ s))
        ≡ (done, λ e. record e { c_value = some (c ∷ s); is_assigned = true }) =
      rw (buffer, room) refl in
    subst (λ (a : Assigned). Sets name (a.1 e) a.0 v r) (assign-quoted p e c s k ∙ is_set)
      (set_value-Sets p name (in_quotes (c ∷ s)) v e h refl)

-- A text that is too large for a variable of a character type that has a buffer is refused, but the old
-- value is lost: the buffer is cleared and the variable counts as assigned if it did before, now with an empty text.
pub set_value-too_large :
    (p : Parsers) (name : Bytes) (c : ℕ) (s : Bytes) (v : Vars) (e : Element) (old : Bytes)
    → get_var name v ≡ some e
    → kind_of e.type ≡ as_text
    → e.c_value ≡ some old
    → pos 0 ≤ℤ e.size
    → ltb_ℤ e.size (pos (length (c ∷ s))) ≡ true
    → Sets name
        (record e { c_value = some [] })
        too_large
        v
        (set_value p name (in_quotes (c ∷ s)) v)
unfolding assign_text to_upper
set_value-too_large p name c s v e old h k buffer nonneg large =
    let r = set_value p name (in_quotes (c ∷ s)) v in
    let is_set : assign_text e (text (c ∷ s)) ≡ (too_large, λ e. record e { c_value = some [] }) =
      rw (buffer, large) refl in
    subst (λ (a : Assigned). Sets name (a.1 e) a.0 v r) (assign-quoted p e c s k ∙ is_set)
      (set_value-Sets p name (in_quotes (c ∷ s)) v e h refl)

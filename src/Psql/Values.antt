-- ===== src/Psql/Values.antt =====
-- src/psql/src/iSQLHostVarMgr.cpp: the values of host variables (`setValue`) and their copies for the
-- parameters of a statement (`putBindList`, `setHostVar`, `initBindList`).
use natc.Base.{
  ℕ, ◌+◌, Bool, true, false, not, ◌==◌, ◌||◌, if◌then◌else◌, List, [], ◌∷◌, ◌++◌, Option, none,
  some, Bytes, codes, same, length,
}
use natc.Base.Int.{ℤ, pos, negsuc, ltb_ℤ}
use natc.Psql.Strings.{to_upper}
use natc.Psql.HostVars.{
  VarType, bad, bigint, blob, char, date, decimal, double, float, byte, nibble, integer, number,
  numeric, real, smallint, varchar, geometry, Element, Vars, Status, done, not_defined,
  type_mismatch, too_large, out_of_range, null_access, get_var, modify,
}

-- The C library's conversions: `atof` (the bits of the value), `atoi`, and `strtoll` with whether it
-- reports a value out of range.
pub record Parsers : Type 0 where
  pub atof : Bytes → ℕ
  pub atoi : Bytes → ℤ
  pub strtoll : Bytes → ℤ × Bool

-- `strchr(value, '\'')`: what stands behind the first quote.
abbrev pub behind_quote : Bytes → Option Bytes
behind_quote [] = none
behind_quote (c ∷ s) = if c == 39 then some s else behind_quote s

-- `strrchr(text, '\'')`: what stands before the last quote.
abbrev pub before_last : Bytes → Option Bytes
before_last [] = none
before_last (c ∷ s) = elim (before_last s) [
  | some t ↦ some (c ∷ t)
  | none ↦ if c == 39 then some [] else none
]

-- A value in quotes: there are none, the last one is missing, nothing is in them, or a text.
pub data Quoted : Type 0 where
  unquoted unclosed blank : Quoted
  text : Bytes → Quoted

abbrev pub quoted_of : Option Bytes → Quoted
quoted_of none = unclosed
quoted_of (some []) = blank
quoted_of (some (c ∷ s)) = text (c ∷ s)

abbrev pub quoted : Bytes → Quoted
quoted value = elim (behind_quote value) [ none ↦ unquoted | some s ↦ quoted_of (before_last s) ]

-- What `setValue` does to the element, and what it returns.
abbrev pub Assigned : Type 0
Assigned = Status × (Element → Element)

abbrev pub assign_null : Element → Element
assign_null e = record e { is_assigned = false }

-- The text of a character type. The buffer is cleared before the test for its size.
unfoldable pub assign_text : Element → Quoted → Assigned
assign_text e unquoted = (type_mismatch, λ e. e)
assign_text e unclosed = (type_mismatch, λ e. e)
assign_text e blank = (done, assign_null)
assign_text e (text s) = elim e.c_value [
  | none ↦ (null_access, λ e. e)
  | some old ↦
      if ltb_ℤ e.size (pos (length s))
      then (too_large, λ e. record e { c_value = some [] })
      else (done, λ e. record e { c_value = some s; is_assigned = true })
]

-- Where no text in quotes may stand.
unfoldable pub assign_plain : Quoted → Assigned → Assigned
assign_plain unquoted r = r
assign_plain unclosed r = (type_mismatch, λ e. e)
assign_plain blank r = (done, assign_null)
assign_plain (text s) r = (type_mismatch, λ e. e)

abbrev pub is_in : ℤ → ℤ → ℤ → Bool
is_in lo hi n = if ltb_ℤ hi n || ltb_ℤ n lo then false else true

-- The range of the two types that are tested; others are not.
unfoldable pub in_range : Parsers → VarType → Bytes → Bool
in_range p smallint value = is_in (negsuc 32766) (pos 32767) (p.atoi value)
in_range p integer value =
    let (n, is_over) = p.strtoll value in
    if is_over then false else is_in (negsuc 2147483646) (pos 2147483647) n
in_range p _ value = true

-- The text of a number. It is in the buffer before its range is tested.
unfoldable pub assign_number : Parsers → Element → Bytes → Assigned
unfolding in_range
assign_number p e value = elim e.c_value [
  | none ↦ (null_access, λ e. e)
  | some old ↦
      if ltb_ℤ e.size (pos (length value))
      then (too_large, λ e. record e { c_value = some [] })
      else if in_range p e.type value
      then (done, λ e. record e { c_value = some value; is_assigned = true })
      else (out_of_range, λ e. record e { c_value = some value })
]

-- The kinds of types that the switch tells apart.
pub data Kind : Type 0 where
  as_text as_number as_double as_real as_none : Kind

abbrev pub kind_of : VarType → Kind
kind_of bad = as_none
kind_of bigint = as_number
kind_of blob = as_none
kind_of char = as_text
kind_of date = as_text
kind_of decimal = as_number
kind_of double = as_double
kind_of float = as_number
kind_of byte = as_text
kind_of nibble = as_text
kind_of integer = as_number
kind_of number = as_number
kind_of numeric = as_number
kind_of real = as_real
kind_of smallint = as_number
kind_of varchar = as_text
kind_of geometry = as_none

-- The switch of `setValue`.
unfoldable pub assign : Parsers → Element → Bytes → Assigned
unfolding assign_text assign_plain assign_number
assign p e value = elim (kind_of e.type) [
  | as_text ↦ assign_text e (quoted value)
  | as_number ↦ assign_plain (quoted value) (assign_number p e value)
  | as_double ↦
      assign_plain (quoted value)
        (done, λ e. record e { d_value = p.atof value; is_assigned = true })
  | as_real ↦
      assign_plain (quoted value)
        (done, λ e. record e { f_value = p.atof value; is_assigned = true })
  | as_none ↦ (type_mismatch, λ e. e)
]

-- `setValue(name)`.
unfoldable pub set_null : Bytes → Vars → Status × Vars
unfolding get_var modify
set_null name v = elim (get_var name v) [
  | none ↦ (not_defined, v)
  | some e ↦ (done, modify name assign_null v)
]

-- `setValue(name, value)`; the comparison with NULL ignores the case. The name is in upper case after
-- the first lookup.
unfoldable pub set_value : Parsers → Bytes → Bytes → Vars → Status × Vars
unfolding get_var modify set_null assign
set_value p name value v = elim (get_var name v) [
  | none ↦ (not_defined, v)
  | some e ↦
      if same (to_upper value) (codes "NULL")
      then set_null (to_upper name) v
      else (let (status, f) = assign p e value in (status, modify name f v))
]

-- The value of a copy for a parameter.
abbrev pub copied_text : Element → Option Bytes
copied_text e = if e.is_assigned then e.c_value else some []

abbrev pub copied : Element → ℤ → ℤ → Element
copied e order para_order = record e {
  order = order;
  para_order = para_order;
  d_value = elim (kind_of e.type) [ as_double ↦ e.d_value | _ ↦ 0 ];
  f_value = elim (kind_of e.type) [ as_real ↦ e.f_value | _ ↦ 0 ];
  c_value = elim (kind_of e.type) [ as_double ↦ none | as_real ↦ none | _ ↦ copied_text e ];
}

-- Can the value be copied? The text of a variable that counts as assigned is read.
abbrev pub is_readable : Element → Bool
is_readable e = elim (kind_of e.type) [
  | as_double ↦ true
  | as_real ↦ true
  | _ ↦ elim e.c_value [ none ↦ not e.is_assigned | some s ↦ true ]
]

-- `putBindList`.
unfoldable pub put_bind_list : Bytes → ℤ → ℤ → Vars → Status × Vars
unfolding get_var
put_bind_list name order para_order v = elim (get_var name v) [
  | none ↦ (not_defined, v)
  | some e ↦
      if is_readable e
      then (
        done,
        record v {
          binds = v.binds ++ copied e order para_order ∷ [];
          bind_count = v.bind_count + 1;
        },
      )
      else (null_access, v)
]

-- `initBindList`.
abbrev pub init_bind_list : Vars → Vars
init_bind_list v = record v { binds = []; bind_count = 0 }

-- The value of a parameter goes back to its variable.
abbrev pub give_back : Element → Element → Element
give_back t s = elim (kind_of t.type) [
  | as_double ↦ record s { d_value = t.d_value; is_assigned = true }
  | as_real ↦ record s { f_value = t.f_value; is_assigned = true }
  | _ ↦ record s { c_value = t.c_value; is_assigned = true }
]

-- Is there a buffer with room for the text of the copy?
abbrev pub text_fits : Option Bytes → Option Bytes → ℤ → Bool
text_fits none buffer size = false
text_fits (some s) none size = false
text_fits (some s) (some old) size = not (ltb_ℤ size (pos (length s)))

abbrev pub takes : Element → Element → Bool
takes t s = elim (kind_of t.type) [
  | as_double ↦ true
  | as_real ↦ true
  | _ ↦ text_fits t.c_value s.c_value s.size
]

-- The loop of `setHostVar`; `none` is an access through a null pointer, for a variable or a buffer that
-- is not there, or behind the end of a buffer.
unfoldable pub give_all : List Element → Vars → Option Vars
unfolding get_var modify
give_all [] v = some v
give_all (t ∷ ts) v =
    let rest = give_all ts (modify t.name (give_back t) v) in
    elim (get_var t.name v) [ none ↦ none | some s ↦ if takes t s then rest else none ]

-- `setHostVar`, which reads the first node of the list without a test.
unfoldable pub set_host_var : Vars → Option Vars
unfolding give_all
set_host_var v = elim v.binds [ [] ↦ none | t ∷ ts ↦ give_all (t ∷ ts) v ]

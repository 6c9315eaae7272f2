-- ===== src/Psql/HostVars.antt =====
-- src/psql: iSQLHostVarMgr (include/iSQLHostVarMgr.h, src/iSQLHostVarMgr.cpp), the table of host
-- variables: hashing, lookup and declaration. The nodes of a bucket are a list, the latest first.
-- An allocation is taken to succeed unless its size, as an unsigned number, is that of a negative one.
use natc.Base.{
  ℕ, ◌+◌, ◌-◌, ◌*◌, ◌%◌, ◌^◌, Bool, true, false, not, ◌&&◌, if◌then◌else◌, ltb, List, [], ◌∷◌,
  Option, none, some, Bytes, same, length, update,
}
use natc.Base.Int.{ℤ, pos, negsuc, pos_part, neg_part, sub_ℕ, ltb_ℤ, ◌+ℤ◌}
use natc.Psql.Strings.{to_upper}

-- `iSQLVarType`.
pub data VarType : Type 0 where
  bad bigint blob char date decimal double float byte nibble : VarType
  integer number numeric real smallint varchar geometry : VarType

-- MAX_TABLE_ELEMENTS, QP_MAX_NAME_LEN, DATE_SIZE.
abbrev pub max_table_elements : ℕ
max_table_elements = 32

abbrev pub max_name_len : ℕ
max_name_len = 40

abbrev pub date_size : ℤ
date_size = pos 19

-- `HostVarElement`; a null `c_value` is `none`, and a floating value is its bit pattern.
pub record Element : Type 0 where
  pub name : Bytes
  pub type : VarType
  pub precision : ℤ
  pub scale : Bytes
  pub size : ℤ
  pub c_value : Option Bytes
  pub f_value : ℕ
  pub d_value : ℕ
  pub is_assigned : Bool
  pub order : ℤ
  pub para_order : ℤ

-- `m_SymbolTable`, the list that begins at `m_Head`, and `m_BindListCnt`.
pub record Vars : Type 0 where
  pub table : ℕ → List Element
  pub binds : List Element
  pub bind_count : ℕ

-- What an operation returns or prints; or the program ends, with the message on memory or at a null
-- pointer.
pub data Status : Type 0 where
  done not_defined invalid_datatype name_len_error type_mismatch too_large out_of_range : Status
  no_memory null_access : Status

-- The constructor.
abbrev pub no_vars : Vars
no_vars = record { table = λ key. []; binds = []; bind_count = 0 }

-- A byte as it is added to the 64-bit key: bytes above 127 are negative.
abbrev pub signed_byte : ℕ → ℕ
signed_byte c = if ltb c 128 then c else 2 ^ 64 - (256 - c)

unfoldable pub hash_loop : ℕ → Bytes → ℕ
hash_loop key [] = key
hash_loop key (c ∷ s) = hash_loop ((key * 31 + signed_byte c) % 2 ^ 64) s

-- `hashing`.
unfoldable pub hashing : Bytes → ℕ
unfolding hash_loop
hashing name = hash_loop 0 name % max_table_elements

-- The walk over a bucket.
unfoldable pub find_element : Bytes → List Element → Option Element
find_element name [] = none
find_element name (e ∷ es) = if same e.name name then some e else find_element name es

-- `getVar(name)`: the key is computed first, and then the name is put into upper case.
unfoldable pub get_var : Bytes → Vars → Option Element
unfolding hashing find_element to_upper
get_var name v = find_element (to_upper name) (v.table (hashing name))

-- `lookup`.
abbrev pub lookup : Bytes → Vars → Bool
lookup name v = elim (get_var name v) [ none ↦ false | some e ↦ true ]

-- An assignment to the node that `find_element` points to.
unfoldable pub update_element : Bytes → (Element → Element) → List Element → List Element
update_element name f [] = []
update_element name f (e ∷ es) = if same e.name name then f e ∷ es else e ∷ update_element name f es

unfoldable pub modify : Bytes → (Element → Element) → Vars → Vars
unfolding update_element
modify name f v =
    let key = hashing name in
    record v { table = update v.table key (update_element (to_upper name) f (v.table key)) }

-- A number as an SInt holds it.
abbrev pub wrap_int : ℤ → ℤ
wrap_int n =
    let word = (pos_part n + (2 ^ 32 - neg_part n % 2 ^ 32)) % 2 ^ 32 in
    if ltb word (2 ^ 31) then pos word else sub_ℕ word (2 ^ 32)

-- The size by the type; other types cannot be declared.
abbrev pub size_of : VarType → ℤ → Option ℤ
size_of bad precision = none
size_of bigint precision = some (pos 21)
size_of blob precision = some precision
size_of char precision = some precision
size_of date precision = some date_size
size_of decimal precision = some (pos 21)
size_of double precision = some (pos 0)
size_of float precision = some (pos 21)
size_of byte precision = some (wrap_int (precision +ℤ precision))
size_of nibble precision = some precision
size_of integer precision = some (pos 21)
size_of number precision = some (pos 21)
size_of numeric precision = some (pos 21)
size_of real precision = some (pos 0)
size_of smallint precision = some (pos 21)
size_of varchar precision = some precision
size_of geometry precision = none

-- The text buffer of a new value: none for the floating types.
abbrev pub new_text : VarType → Option Bytes
new_text double = none
new_text real = none
new_text _ = some []

-- Can the buffer of a type and a size be allocated? Its size is an SInt, plus one for the zero.
abbrev pub has_room : VarType → ℤ → Bool
has_room double size = true
has_room real size = true
has_room _ size = not (ltb_ℤ size (negsuc 0)) && ltb_ℤ size (pos (2 ^ 31 - 1))

-- A variable as it is declared; a declaration anew keeps the order among parameters, which a new
-- variable has as 0.
abbrev pub declared : Bytes → VarType → ℤ → Bytes → ℤ → ℤ → Element
declared name type precision scale size para_order = record {
  name = name;
  type = type;
  precision = precision;
  scale = scale;
  size = size;
  c_value = new_text type;
  f_value = 0;
  d_value = 0;
  is_assigned = false;
  order = pos 0;
  para_order = para_order;
}

-- A new node at the head of its bucket.
unfoldable pub insert : Element → Vars → Vars
unfolding hashing
insert e v = let key = hashing e.name in record v { table = update v.table key (e ∷ v.table key) }

-- `add`, the switch on the type: a variable that is declared anew with a type that cannot be declared
-- has lost its text.
unfoldable pub add_declared : Bytes → VarType → ℤ → Bytes → Vars → Status × Vars
unfolding get_var insert modify
add_declared name type precision scale v = elim (get_var name v) [
  | none ↦ elim (size_of type precision) [
    | none ↦ (invalid_datatype, v)
    | some size ↦
        if has_room type size
        then (done, insert (declared name type precision scale size (pos 0)) v)
        else (no_memory, v)
  ]
  | some found ↦ elim (size_of type precision) [
    | none ↦ (invalid_datatype, modify name (λ e. record e { c_value = none }) v)
    | some size ↦
        if has_room type size
        then (done, modify name (λ e. declared name type precision scale size e.para_order) v)
        else (no_memory, v)
  ]
]

abbrev pub is_bad : VarType → Bool
is_bad bad = true
is_bad _ = false

-- `add`.
unfoldable pub add : Bytes → VarType → ℤ → Bytes → Vars → Status × Vars
unfolding add_declared to_upper
add name type precision scale v =
    if is_bad type
    then (invalid_datatype, v)
    else if ltb max_name_len (length name)
    then (name_len_error, v)
    else add_declared (to_upper name) type precision scale v

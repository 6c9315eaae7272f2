-- ===== src/Loader/RoundTrip.antt =====
-- src/ploader/src/iloDataFile.cpp: a printed record is read back.
use natc.Base.{
  length-map, ℕ, zero, suc, ◌+◌, ◌<◌, ◌≡◌, refl, ap, sym, ◌∙◌, false, if◌then◌else◌, List, [], ◌∷◌,
  ◌++◌, none, some, Bytes, length, arith, append_assoc, get_elem?, map, inl, inr, ap₂,
}
use natc.Loader.Unread.{unread, dos, HasNoReturn, dos-append}
use natc.Loader.Token.{Token, tfield_term, trow_term, DataFile}
use natc.Loader.Split.{ended, split_text, text_left, IsPlain, pending, Keeps}
use natc.Loader.Field.{IsField, split-field}
use natc.Loader.Record.{
  Column, column_text, column_end, print_one_record, Table, attr_count, set_attr, set_read_count,
  success, Answer, with_token, read_attrs, read_one_record,
}
use natc.Loader.Storing.{len_of, store, attr_count-set_attr, attr_count-store, store_at}
use natc.Loader.Reading.{
  plain_flags, pass_none, Leaves, to_end, end_of_field, end_of_row, end_of_attrs,
}

-- The fields of a record: no terminator ends inside one.
abbrev pub AreFields : Bytes → Bytes → List Column → Type 0
AreFields ft rt [] = Unit {0}
AreFields ft rt (c ∷ []) = IsField ft rt (column_text c) trow_term rt
AreFields ft rt (c ∷ d ∷ cols) =
    IsField ft rt (column_text c) tfield_term ft × AreFields ft rt (d ∷ cols)

-- One column, without an enclosing string.
print_step :
    (f : DataFile) (c : Column) (cols : List Column)
    → f.set_enclosing ≡ false
    → print_one_record false f (c ∷ cols)
      ≡ column_text c ++ (column_end false f cols ++ print_one_record false f cols)
unfolding print_one_record
print_step f c cols e =
    let rest = print_one_record false f cols in
    ap
      (λ b.
        let around = if b then f.enclosing else [] in
        around ++ (column_text c ++ (around ++ (column_end false f cols ++ rest))))
      e

print_nothing : (f : DataFile) → print_one_record false f [] ≡ []
unfolding print_one_record
print_nothing f = refl

print_append :
    (f : DataFile) (c : Column) (cols : List Column) (after : Bytes)
    → f.set_enclosing ≡ false
    → print_one_record false f (c ∷ cols) ++ after
      ≡ column_text c ++ (column_end false f cols ++ (print_one_record false f cols ++ after))
print_append f c cols after e =
    let rest = print_one_record false f cols in
    ap (λ (s : Bytes). s ++ after) (print_step f c cols e)
    ∙ append_assoc (column_text c) (column_end false f cols ++ rest) after
    ∙ ap (λ (s : Bytes). column_text c ++ s) (append_assoc (column_end false f cols) rest after)

print_append_last :
    (f : DataFile) (c : Column) (after : Bytes)
    → f.set_enclosing ≡ false
    → print_one_record false f (c ∷ []) ++ after ≡ column_text c ++ (f.row_term ++ after)
print_append_last f c after e =
    let none_behind = print_nothing f in
    print_append f c [] after e
    ∙ ap (λ (s : Bytes). column_text c ++ (f.row_term ++ (s ++ after))) none_behind

-- What the record's fields leave: its values stored from the attribute at `i` on, the text behind it.
record Stored (w : DataFile) (i : ℕ) (vs : List Bytes) (after : Bytes) (tab : Table) (o : Answer)
    : Type 0 where
  file : DataFile
  answered : o ≡ some (success, (set_read_count (attr_count tab) (store i vs tab), file))
  left : Leaves w after file

Leaves-trans : (w f g : DataFile) (text : Bytes) → Keeps w f → Leaves f text g → Leaves w text g
Leaves-trans w f g text k l = record {
  none_left = l.none_left;
  behind = l.behind;
  keeps = (l.keeps.0 ∙ k.0, ((l.keeps.1).0 ∙ (k.1).0, (l.keeps.1).1));
}

-- The first field that the writer `w` has printed.
split_printed :
    (w f : DataFile) (v : Bytes) (t : Token) (term text : Bytes)
    → Keeps w f
    → IsField w.field_term w.row_term v t term
    → 0 < length term
    → text_left f ≡ v ++ (term ++ text)
    → split_text f.field_term f.row_term [] (text_left f) ≡ ended t v text
split_printed w f v t term text k h pos e =
    ap₂ (λ (a b : Bytes). split_text a b [] (text_left f)) k.0 ((k.1).0)
    ∙ ap (split_text w.field_term w.row_term []) e
    ∙ split-field w.field_term w.row_term v t term text h pos

read_row :
    (fuel i : ℕ) (w f : DataFile) (tab : Table) (c : Column) (cols : List Column) (after : Bytes)
    → IsPlain w
    → Keeps w f
    → pending f ≡ none
    → text_left f ≡ print_one_record false w (c ∷ cols) ++ after
    → AreFields w.field_term w.row_term (c ∷ cols)
    → i + length (c ∷ cols) ≡ attr_count tab
    → length (c ∷ cols) < fuel
    → Stored w i
        (map column_text (c ∷ cols))
        after
        tab
        (with_token f (λ token f'. read_attrs fuel plain_flags i token f' tab))
read_row zero i w f tab c cols after p k none_left e h n l = absurd (omega (arith, l))
read_row (suc zero) i w f tab c cols after p k none_left e h n l = absurd (omega (arith, l))
read_row (suc (suc fuel)) i w f tab c [] after p k none_left e h n l =
    let v = column_text c in
    let split =
      split_printed w f v trow_term w.row_term after k h p.rt_pos
        (e ∙ print_append_last w c after p.no_enclosing) in
    let (g, (step, left)) =
      to_end (suc fuel) i f tab trow_term v after ((k.1).1) none_left split (inr refl)
        (omega (arith, n)) h.narrow in
    let tab' = set_attr i v (len_of v) tab in
    let count = attr_count-set_attr i v (len_of v) tab in
    record {
      file = g;
      answered =
          step
          ∙ end_of_row (read_attrs (suc fuel) plain_flags) i g tab' (omega (arith, n, count))
          ∙ end_of_attrs fuel (suc i) trow_term g tab' (omega (arith, n, count))
          ∙ ap (λ m. some (success, (set_read_count m tab', g))) count;
      left = Leaves-trans w f g after k left;
    }
read_row (suc (suc fuel)) i w f tab c (d ∷ cols) after p k none_left e h n l =
    let v = column_text c in
    let rest = print_one_record false w (d ∷ cols) ++ after in
    let split =
      split_printed w f v tfield_term w.field_term rest k h.0 p.ft_pos
        (e ∙ print_append w c (d ∷ cols) after p.no_enclosing) in
    let (g, (step, left)) =
      to_end (suc fuel) i f tab tfield_term v rest ((k.1).1) none_left split (inl refl)
        (omega (arith, n)) h.0.narrow in
    let tab' = set_attr i v (len_of v) tab in
    let count = attr_count-set_attr i v (len_of v) tab in
    let l' = Leaves-trans w f g rest k left in
    let ih =
      read_row (suc fuel) (suc i) w g tab' d cols after p l'.keeps l'.none_left l'.behind h.1
        (omega (arith, n, count)) (omega (arith, l)) in
    record {
      file = ih.file;
      answered =
          step
          ∙ end_of_field (read_attrs (suc fuel) plain_flags) i g tab' (omega (arith, n, count))
          ∙ ih.answered
          ∙ ap
              (λ m. some (
                success,
                (set_read_count m (store (suc i) (map column_text (d ∷ cols)) tab'), ih.file),
              ))
              count;
      left = ih.left;
    }

-- A record that was read: the values, each with its length, the number of attributes, and the text
-- behind the record, with no token pending.
pub record Read (w : DataFile) (vs : List Bytes) (after : Bytes) (o : Answer) : Type 0 where
  pub table : Table
  pub file : DataFile
  pub answered : o ≡ some (success, (table, file))
  pub values :
      (k : ℕ) (v : Bytes)
      → get_elem? vs k ≡ some v
      → table.cells k ≡ some (record { value = v; len = len_of v })
  pub counted : table.read_count ≡ length vs
  pub width : attr_count table ≡ length vs
  pub none_left : pending file ≡ none
  pub behind : text_left file ≡ after
  pub keeps : Keeps w file

-- The same for the text that is left, from which the carriage returns have been dropped.
pub text_left-Read :
    (w f : DataFile) (tab : Table) (c : Column) (cols : List Column) (after : Bytes)
    → IsPlain w
    → Keeps w f
    → pending f ≡ none
    → text_left f ≡ print_one_record false w (c ∷ cols) ++ after
    → AreFields w.field_term w.row_term (c ∷ cols)
    → attr_count tab ≡ length (c ∷ cols)
    → Read w (map column_text (c ∷ cols)) after (read_one_record plain_flags f tab)
unfolding read_one_record
text_left-Read w f tab c cols after p k none_left e h n =
    let first_round = λ (i : ℕ).
      with_token f (λ token f'. read_attrs (suc (attr_count tab)) plain_flags i token f' tab) in
    let vs = map column_text (c ∷ cols) in
    let count = length-map column_text (c ∷ cols) in
    let r =
      read_row (suc (attr_count tab)) 0 w f tab c cols after p k none_left e h (omega (arith, n))
        (omega (arith, n)) in
    record {
      table = set_read_count (attr_count tab) (store 0 vs tab);
      file = r.file;
      answered = ap first_round (pass_none tab 0 0) ∙ r.answered;
      values = λ j v got.
          let place : 0 + j ≡ j = omega arith in
          ap (λ m. (store 0 vs tab).cells m) (sym place)
          ∙ store_at 0 vs tab j v (omega (arith, n, count)) got;
      counted = n ∙ sym count;
      width = attr_count-store 0 vs tab ∙ n ∙ sym count;
      none_left = r.left.none_left;
      behind = r.left.behind;
      keeps = r.left.keeps;
    }

-- A writer and a reader with the same terminators, of ASCII bytes and without an enclosing string, no
-- token pending. The bytes to come of the file begin with a record that the writer has printed, which
-- holds no carriage return (the reader drops it in front of another byte); no terminator ends inside one
-- of its fields, and each is shorter than 32768 bytes. The table has an attribute for each column, and
-- none is a timestamp to be added. Then `ReadOneRecord` succeeds: each attribute holds its column's
-- value, an empty one as the null value, and what stands behind the record is left for the next call.
pub read_one_record-print_one_record :
    (w f : DataFile) (tab : Table) (c : Column) (cols : List Column) (after : Bytes)
    → IsPlain w
    → Keeps w f
    → pending f ≡ none
    → unread f.source ≡ print_one_record false w (c ∷ cols) ++ after
    → HasNoReturn (print_one_record false w (c ∷ cols))
    → AreFields w.field_term w.row_term (c ∷ cols)
    → attr_count tab ≡ length (c ∷ cols)
    → Read w (map column_text (c ∷ cols)) (dos after) (read_one_record plain_flags f tab)
read_one_record-print_one_record w f tab c cols after p k none_left e solid h n =
    text_left-Read w f tab c cols (dos after) p k none_left (ap dos e ∙ dos-append _ after solid) h
      n

-- ===== src/Agent/RecoveryLoading.antt =====
-- src/ats2/recpointManager.cpp: the points that a list leaves in the map.
use natc.Base.{
  ℕ, suc, ◌-◌, ◌^◌, ◌<◌, ◌≡◌, refl, ap, ap₂, ◌∙◌, subst, true, false, if◌then◌else◌, List, [], ◌∷◌,
  ◌++◌, Option, none, some, Bytes, codes, same, map, ◌>>=◌, All, lt→ltb, Bool-cases, inl, inr,
  same→eq,
}
use natc.Agent.Maps.{Map, find, map_put, find-map_put, find-put_other}
use natc.Agent.RecoveryFile.{
  RecPoint, ScanBuffers, is_white, digits, print_int, point_of, add_point, load_point_lines,
  load_points,
}
use natc.Agent.RecoveryLines.{entries_text, fgets_lines-entries}
use natc.Agent.RecoveryScanning.{
  digits-solid, Entry, IsEntry, entry_line, entry_buffers, scan_point-entry_line,
}

-- `strip` takes nothing from a text without a white byte.
abbrev pub Strips : (Bytes → Bytes) → Type 0
Strips strip = (w : Bytes) → All (λ c. is_white c ≡ false) w → strip w ≡ w

-- The point that an entry names.
abbrev pub entry_point : Entry → RecPoint
entry_point e = record {
  rec_point_id = e.id;
  filename = e.file;
  line_number = e.number;
  query_string =
      codes "execute enable_recptr( '"
      ++ (e.id
          ++ (codes "', 'KILL', 0, 0, 0, '"
              ++ (e.file ++ (codes "', " ++ (digits (suc e.number) e.number ++ codes ")")))));
}

-- The first entry of an id.
abbrev pub first_entry : Bytes → List Entry → Option RecPoint
first_entry id [] = none
first_entry id (e ∷ es) = if same e.id id then some (entry_point e) else first_entry id es

print_int-digits : (n : ℕ) → n < 2 ^ 31 → print_int n ≡ digits (suc n) n
print_int-digits n l =
    let below_zero = b'-' ∷ digits (suc (2 ^ 32 - n)) (2 ^ 32 - n) in
    ap (λ b. if b then digits (suc n) n else below_zero) (lt→ltb _ _ l)

point_of-entry :
    (strip : Bytes → Bytes) (e : Entry)
    → Strips strip
    → IsEntry e
    → point_of strip (entry_buffers e) ≡ entry_point e
point_of-entry strip e strips h =
    let id_same = strips e.id h.id_word.solid in
    let file_same = strips e.file h.file_word.solid in
    let kill_same = strips (codes "KILL") (refl, (refl, (refl, (refl, tt)))) in
    let zero_same = strips (codes "0") (refl, tt) in
    let number_same =
      ap strip (print_int-digits e.number h.in_int)
      ∙ strips (digits (suc e.number) e.number) (digits-solid (suc e.number) e.number) in
    let built : Bytes → Bytes → Bytes → Bytes → Bytes → Bytes → RecPoint =
      λ id again file kill null number. record {
        rec_point_id = id;
        filename = file;
        line_number = e.number;
        query_string =
            codes "execute enable_recptr( '"
            ++ (again
                ++ (codes "', '"
                    ++ (kill
                        ++ (codes "', "
                            ++ (null
                                ++ (codes ", 0, "
                                    ++ (null
                                        ++ (codes ", '"
                                            ++ (file
                                                ++ (codes "', " ++ (number ++ codes ")")))))))))));
      } in
    let number = digits (suc e.number) e.number in
    let printed = strip (print_int e.number) in
    let kill = strip (codes "KILL") in
    let null = strip (codes "0") in
    ap₂ (λ id again. built id again (strip e.file) kill null printed) id_same
      (ap strip id_same ∙ id_same)
    ∙ ap₂ (λ file n. built e.id e.id file kill null n) file_same number_same
    ∙ ap₂ (λ kill null. built e.id e.id e.file kill null number) kill_same zero_same

add_point-other :
    (p : RecPoint) (m : Map RecPoint) (id : Bytes)
    → same p.rec_point_id id ≡ false
    → find id (add_point p m) ≡ find id m
unfolding add_point
add_point-other p m id h = by_find (find p.rec_point_id m)
  where
    by_find :
        (o : Option RecPoint)
        → find id (elim o [ none ↦ map_put p.rec_point_id p m | some q ↦ m ]) ≡ find id m
    by_find none = find-put_other p.rec_point_id id p m h
    by_find (some q) = refl

-- What is found, or else the other.
abbrev or_else : Option RecPoint → Option RecPoint → Option RecPoint
or_else none o = o
or_else (some p) o = some p

add_point-own :
    (p : RecPoint) (m : Map RecPoint)
    → find p.rec_point_id (add_point p m) ≡ or_else (find p.rec_point_id m) (some p)
unfolding add_point
add_point-own p m = by_find (find p.rec_point_id m) refl
  where
    by_find :
        (o : Option RecPoint)
        → find p.rec_point_id m ≡ o
        → find p.rec_point_id (elim o [ none ↦ map_put p.rec_point_id p m | some q ↦ m ])
          ≡ or_else o (some p)
    by_find none e = find-map_put p.rec_point_id p m
    by_find (some q) e = e

abbrev pub add_entries : List Entry → Map RecPoint → Map RecPoint
add_entries [] m = m
add_entries (e ∷ es) m = add_entries es (add_point (entry_point e) m)

find-add_entries :
    (es : List Entry) (m : Map RecPoint) (id : Bytes)
    → find id (add_entries es m) ≡ or_else (find id m) (first_entry id es)
find-add_entries [] m id = by_find (find id m)
  where
    by_find : (o : Option RecPoint) → o ≡ or_else o none
    by_find none = refl
    by_find (some p) = refl
find-add_entries (e ∷ es) m id =
    let p = entry_point e in
    find-add_entries es (add_point p m) id ∙ elim (Bool-cases (same e.id id)) [
      | inl hit ↦
          let own : e.id ≡ id = same→eq e.id id hit in
          ap (λ o. or_else o (first_entry id es))
            (subst (λ (k : Bytes). find k (add_point p m) ≡ or_else (find k m) (some p)) own
              (add_point-own p m))
          ∙ rw hit (twice (find id m) p (first_entry id es))
      | inr miss ↦
          ap (λ o. or_else o (first_entry id es)) (add_point-other p m id miss) ∙ rw miss refl
    ]
  where
    twice :
        (o : Option RecPoint) (p : RecPoint) (o' : Option RecPoint)
        → or_else (or_else o (some p)) o' ≡ or_else o (some p)
    twice none p o' = refl
    twice (some q) p o' = refl

load-entries :
    (strip : Bytes → Bytes) (es : List Entry) (b : ScanBuffers) (m : Map RecPoint)
    → Strips strip
    → All IsEntry es
    → load_point_lines strip (map entry_line es) b m ≡ some (add_entries es m)
unfolding load_point_lines
load-entries strip [] b m strips h = refl
load-entries strip (e ∷ es) b m strips h =
    let next = λ (b' : ScanBuffers).
      load_point_lines strip (map entry_line es) b' (add_point (point_of strip b') m) in
    ap (λ o. o >>= next) (scan_point-entry_line e (record b { line = 0 }) h.0)
    ∙ ap (λ p. load_point_lines strip (map entry_line es) (entry_buffers e) (add_point p m))
        (point_of-entry strip e strips h.0)
    ∙ load-entries strip es (entry_buffers e) (add_point (entry_point e) m) strips h.1

-- `strip` takes nothing from a text without a white byte. Of a file that holds a list of entries, one to a
-- line, each with a file name and an id that have no white and no zero byte and fit into their buffers, and
-- with a line number below 2 ^ 31, the whole of a line being shorter than 1024 bytes, `load` succeeds
-- whatever its buffers held. What is found by an id in the map, which was empty, is the first entry of
-- that id, with its name, its number and the query that enables it, and nothing where no entry has the id.
pub load_points-entries :
    (strip : Bytes → Bytes) (es : List Entry) (b : ScanBuffers)
    → Strips strip
    → All IsEntry es
    → (m : Map RecPoint) × ((load_points strip (some (entries_text es)) b [] ≡ some (m, true))
        × ((id : Bytes) → find id m ≡ first_entry id es))
unfolding load_points
load_points-entries strip es b strips h = (
  add_entries es [],
  (
    ap (λ (o : Option (Map RecPoint)). o >>= λ m. some (m, true))
        (ap (λ texts. load_point_lines strip texts b []) (fgets_lines-entries es h)
          ∙ load-entries strip es b [] strips h),
    find-add_entries es [],
  ),
)

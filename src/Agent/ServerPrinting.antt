-- ===== src/Agent/ServerPrinting.antt =====
-- src/ats2/serverManager.cpp: a file of servers that is written line by line, and what the loader stores
-- for each line.
use natc.Base.{
  is_nil, is_nil-snoc, ◌≡◌, refl, ap, sym, ◌∙◌, Bool, true, false, ◌==◌, ◌||◌, ◌&&◌, if◌then◌else◌,
  List, [], ◌∷◌, ◌++◌, Bytes, ℕ, All, arith, append_assoc, append-nil,
}
use natc.Agent.Maps.{map_put}
use natc.Agent.ServerFile.{
  Servers, Pair, is_blank, header_name, open_section, add_byte, scan_server_bytes, store_pair,
  no_pair, load_line,
}

-- A section: a server's name, and its parameters in the order of the file.
abbrev pub Section : Type 0
Section = Bytes × List (Bytes × Bytes)

abbrev pub header_line : Bytes → Bytes
header_line name = b'[' ∷ (name ++ b']' ∷ 10 ∷ [])

abbrev pub param_line : Bytes × Bytes → Bytes
param_line (name, value) = name ++ b'=' ∷ (value ++ 10 ∷ [])

abbrev pub param_lines : List (Bytes × Bytes) → List Bytes
param_lines [] = []
param_lines (p ∷ ps) = param_line p ∷ param_lines ps

abbrev pub print_sections : List Section → List Bytes
print_sections [] = []
print_sections ((name, ps) ∷ sections) =
    header_line name ∷ (param_lines ps ++ print_sections sections)

-- A byte that is no blank and begins neither a comment nor a section.
abbrev pub IsPlainByte : ℕ → Type 0
IsPlainByte c = (is_blank c ≡ false) × (((c == b'#') ≡ false) × ((c == b'[') ≡ false))

abbrev pub IsName : Bytes → Type 0
IsName s = All (λ c. IsPlainByte c × ((c == b'=') ≡ false)) s

-- A value does not begin with the sign that stands before it.
abbrev pub IsValue : Bytes → Type 0
IsValue [] = Unit {0}
IsValue (c ∷ v) = ((c == b'=') ≡ false) × All IsPlainByte (c ∷ v)

-- A parameter has a name.
abbrev pub IsParam : Bytes × Bytes → Type 0
IsParam (name, value) = (is_nil name ≡ false) × (IsName name × IsValue value)

-- A server's name does not hold the sign that ends it.
abbrev pub IsServer : Bytes → Type 0
IsServer s = (is_nil s ≡ false) × All (λ c. (c == b']') ≡ false) s

scan_plain :
    (line s : Bytes) (c : ℕ) (p : Pair) (m : Servers)
    → IsPlainByte c
    → scan_server_bytes line (c ∷ s) p m ≡ scan_server_bytes line s (add_byte c p) m
unfolding scan_server_bytes
scan_plain line s c p m (blank, (hash, bracket)) = rw (blank, hash, bracket) refl

abbrev naming : Bytes → Pair
naming name = record { name = name; value = []; is_value = false }

abbrev valued : Bytes → Bytes → Pair
valued name value = record { name = name; value = value; is_value = true }

scan_name :
    (line done name s : Bytes) (m : Servers)
    → IsName name
    → scan_server_bytes line (name ++ s) (naming done) m
      ≡ scan_server_bytes line s (naming (done ++ name)) m
scan_name line done [] s m h =
    ap (λ (n : Bytes). scan_server_bytes line s (naming n) m) (sym (append-nil done))
scan_name line done (c ∷ name) s m (h, t) =
    let added : add_byte c (naming done) ≡ naming (done ++ c ∷ []) = rw (h.1) refl in
    scan_plain line (name ++ s) c (naming done) m h.0
    ∙ ap (λ p. scan_server_bytes line (name ++ s) p m) added
    ∙ scan_name line (done ++ c ∷ []) name s m t
    ∙ ap (λ (n : Bytes). scan_server_bytes line s (naming n) m) (append_assoc done (c ∷ []) name)

scan_value :
    (line name done value s : Bytes) (m : Servers)
    → is_nil done ≡ false
    → All IsPlainByte value
    → scan_server_bytes line (value ++ s) (valued name done) m
      ≡ scan_server_bytes line s (valued name (done ++ value)) m
scan_value line name done [] s m full h =
    ap (λ (v : Bytes). scan_server_bytes line s (valued name v) m) (sym (append-nil done))
scan_value line name done (c ∷ value) s m full (h, t) =
    let no_sign : (c == b'=' && is_nil done) ≡ false = ground (arith, full) in
    let added : add_byte c (valued name done) ≡ valued name (done ++ c ∷ []) = rw no_sign refl in
    scan_plain line (value ++ s) c (valued name done) m h
    ∙ ap (λ p. scan_server_bytes line (value ++ s) p m) added
    ∙ scan_value line name (done ++ c ∷ []) value s m (is_nil-snoc done c) t
    ∙ ap (λ (v : Bytes). scan_server_bytes line s (valued name v) m)
        (append_assoc done (c ∷ []) value)

scan_first :
    (line name value s : Bytes) (m : Servers)
    → IsValue value
    → scan_server_bytes line (value ++ s) (valued name []) m
      ≡ scan_server_bytes line s (valued name value) m
scan_first line name [] s m h = refl
scan_first line name (c ∷ value) s m (first, (h, t)) =
    let added : add_byte c (valued name []) ≡ valued name (c ∷ []) = rw first refl in
    scan_plain line (value ++ s) c (valued name []) m h
    ∙ ap (λ p. scan_server_bytes line (value ++ s) p m) added
    ∙ scan_value line name (c ∷ []) value s m refl t

scan_equals :
    (line s name : Bytes) (m : Servers)
    → scan_server_bytes line (b'=' ∷ s) (naming name) m
      ≡ scan_server_bytes line s (valued name []) m
unfolding scan_server_bytes
scan_equals line s name m = refl

scan_end : (line : Bytes) (p : Pair) (m : Servers) → scan_server_bytes line (10 ∷ []) p m ≡ (p, m)
unfolding scan_server_bytes
scan_end line p m = refl

-- A parameter's line.
scan_param :
    (line name value : Bytes) (m : Servers)
    → IsName name
    → IsValue value
    → scan_server_bytes line (param_line (name, value)) no_pair m ≡ (valued name value, m)
scan_param line name value m n v =
    scan_name line [] name (b'=' ∷ (value ++ 10 ∷ [])) m n
    ∙ scan_equals line (value ++ 10 ∷ []) name m
    ∙ scan_first line name value (10 ∷ []) m v
    ∙ scan_end line (valued name value) m

pub load_line-param :
    (name value : Bytes) (m : Servers)
    → IsParam (name, value)
    → is_nil m.server ≡ false
    → load_line (param_line (name, value)) m ≡ record m {
      params = map_put name value m.params;
      servers = map_put m.server (map_put name value m.params) m.servers;
    }
unfolding load_line store_pair
load_line-param name value m (some_name, (n, v)) inside =
    ap (λ (r : Pair × Servers). store_pair r.0 r.1)
      (scan_param (param_line (name, value)) name value m n v)
    ∙ ap
        (λ b. if b then m else record m {
          params = map_put name value m.params;
          servers = map_put m.server (map_put name value m.params) m.servers;
        })
        complete
  where
    complete : (is_nil name || is_nil m.server) ≡ false
    complete = rw some_name inside

header_name_lem :
    (name s : Bytes)
    → All (λ c. (c == b']') ≡ false) name
    → header_name (name ++ b']' ∷ s) ≡ (name, true)
unfolding header_name
header_name_lem [] s h = refl
header_name_lem (c ∷ name) s (h, t) =
    let rest = header_name (name ++ b']' ∷ s) in
    ap (λ b. if b then ([], true) else (c ∷ rest.0, rest.1)) h
    ∙ ap (λ (r : Bytes × Bool). (c ∷ r.0, r.1)) (header_name_lem name s t)

-- A section's header.
pub load_line-header :
    (name : Bytes) (m : Servers)
    → IsServer name
    → load_line (header_line name) m ≡ record m { server = name; params = [] }
unfolding load_line scan_server_bytes store_pair open_section
load_line-header name m (named, closed) =
    ap (λ (r : Bytes × Bool). record m { server = r.0; params = if r.1 then [] else m.params })
      (header_name_lem name (10 ∷ []) closed)

-- ===== src/Agent/ServerLoading.antt =====
-- src/ats2/serverManager.cpp: what a file of servers leaves in the table.
use natc.Base.{is_nil, ◌≡◌, refl, ap, ◌∙◌, true, false, List, [], ◌∷◌, ◌++◌, some, Bytes, All}
use natc.Agent.Maps.{Map, map_put, map_put-map_put}
use natc.Agent.ServerFile.{Params, Servers, load_line, load_server_lines, load_servers}
use natc.Agent.ServerPrinting.{
  Section, header_line, param_line, param_lines, print_sections, IsParam, IsServer, load_line-param,
  load_line-header,
}

-- The parameters of a section, in the order of the file.
abbrev pub params_of : List (Bytes × Bytes) → Params → Params
params_of [] m = m
params_of ((name, value) ∷ ps) m = params_of ps (map_put name value m)

-- The table: each section that has a parameter is stored under its name.
abbrev pub table_of : List Section → Map Params → Map Params
table_of [] m = m
table_of ((name, []) ∷ sections) m = table_of sections m
table_of ((name, p ∷ ps) ∷ sections) m = table_of sections (map_put name (params_of (p ∷ ps) []) m)

abbrev pub IsSection : Section → Type 0
IsSection (name, ps) = IsServer name × All IsParam ps

-- A line that is not empty is loaded before the others.
next_line :
    (line : Bytes) (lines : List Bytes) (m : Servers)
    → is_nil line ≡ false
    → load_server_lines (line ∷ lines) m ≡ load_server_lines lines (load_line line m)
unfolding load_server_lines
next_line line lines m h = rw h refl

param_line-not_nil : (p : Bytes × Bytes) → is_nil (param_line p) ≡ false
param_line-not_nil ([], value) = refl
param_line-not_nil (c ∷ name, value) = refl

-- A server's state after some of its parameters.
abbrev in_section : Bytes → Params → Map Params → Servers
in_section name ps m = record { params = ps; servers = map_put name ps m; server = name }

-- The lines of a section's parameters, behind the first of them.
more_params :
    (name : Bytes) (ps : List (Bytes × Bytes)) (done : Params) (m : Map Params) (lines : List Bytes)
    → is_nil name ≡ false
    → All IsParam ps
    → load_server_lines (param_lines ps ++ lines) (in_section name done m)
      ≡ load_server_lines lines (in_section name (params_of ps done) m)
more_params name [] done m lines h a = refl
more_params name ((k, v) ∷ ps) done m lines h (p, a) =
    next_line (param_line (k, v)) (param_lines ps ++ lines) (in_section name done m)
      (param_line-not_nil (k, v))
    ∙ ap (load_server_lines (param_lines ps ++ lines))
        (load_line-param k v (in_section name done m) p h)
    ∙ ap
        (λ (t : Map Params).
          load_server_lines (param_lines ps ++ lines)
            (record { params = map_put k v done; servers = t; server = name }))
        (map_put-map_put name done (map_put k v done) m)
    ∙ more_params name ps (map_put k v done) m lines h a

load-sections :
    (sections : List Section) (m : Servers)
    → All IsSection sections
    → (load_server_lines (print_sections sections) m).servers ≡ table_of sections m.servers
unfolding load_server_lines
load-sections [] m a = refl
load-sections ((name, []) ∷ sections) m ((h, _), a) =
    ap (λ (r : Servers). r.servers)
      (next_line (header_line name) (print_sections sections) m refl
        ∙ ap (load_server_lines (print_sections sections)) (load_line-header name m h))
    ∙ load-sections sections (record m { server = name; params = [] }) a
load-sections ((name, (k, v) ∷ ps) ∷ sections) m ((h, (p, rest)), a) =
    let lines = print_sections sections in
    let opened = record m { server = name; params = [] } in
    ap (λ (r : Servers). r.servers)
      (next_line (header_line name) (param_lines ((k, v) ∷ ps) ++ lines) m refl
        ∙ ap (load_server_lines (param_lines ((k, v) ∷ ps) ++ lines)) (load_line-header name m h)
        ∙ next_line (param_line (k, v)) (param_lines ps ++ lines) opened (param_line-not_nil (k, v))
        ∙ ap (load_server_lines (param_lines ps ++ lines)) (load_line-param k v opened p h.0)
        ∙ more_params name ps (map_put k v []) m.servers lines h.0 rest)
    ∙ load-sections sections (in_section name (params_of ((k, v) ∷ ps) []) m.servers) a

-- A file of sections that is written line by line, `[name]` and below it a line `name=value` for each
-- parameter. No name is empty or holds a sign that has a meaning, and no value holds a blank, a `#` or a
-- `[`, or begins with `=`; it may be empty. The file is loaded, and the table holds each section that has
-- a parameter under its name, with its own parameters only, the last value for each. A section that
-- stands twice has the parameters of its last place.
pub load_servers-print_sections :
    (sections : List Section) (m : Servers)
    → All IsSection sections
    → ((load_servers (some (print_sections sections)) m).0.servers ≡ table_of sections m.servers)
      × ((load_servers (some (print_sections sections)) m).1 ≡ true)
unfolding load_servers
load_servers-print_sections sections m a =
    (load-sections sections (record m { server = [] }) a, refl)

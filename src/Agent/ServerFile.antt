-- ===== src/Agent/ServerFile.antt =====
-- src/ats2/serverManager.cpp: `ServerManager::load`, which reads the parameters of the servers.
use natc.Base.{
  is_nil, Bool, true, false, ◌==◌, ◌||◌, ◌&&◌, if◌then◌else◌, List, [], ◌∷◌, ◌++◌, Option, none,
  some, Bytes, ℕ,
}
use natc.Agent.Maps.{Map, map_put}

abbrev pub Params : Type 0
Params = Map Bytes

-- `mSrvParam`, `mSrvMap` and the local `sServer`.
pub record Servers : Type 0 where
  pub params : Params
  pub servers : Map Params
  pub server : Bytes

-- `sName`, `sValue` and `sIsValue`.
pub record Pair : Type 0 where
  pub name : Bytes
  pub value : Bytes
  pub is_value : Bool

abbrev pub is_blank : ℕ → Bool
is_blank c = c == b' ' || (c == 10 || c == 9)

-- The server's name, from the second byte of the line on, and whether it is closed.
unfoldable pub header_name : Bytes → Bytes × Bool
header_name [] = ([], false)
header_name (c ∷ s) =
    let (name, closed) = header_name s in if c == b']' then ([], true) else (c ∷ name, closed)

abbrev pub behind_first : Bytes → Bytes
behind_first [] = []
behind_first (c ∷ s) = s

-- A section's header, in the line `line`.
unfoldable pub open_section : Bytes → Servers → Servers
unfolding header_name
open_section line m =
    let (name, closed) = header_name (behind_first line) in
    record m { server = name; params = if closed then [] else m.params }

-- A byte of a name or of a value.
abbrev pub add_byte : ℕ → Pair → Pair
add_byte c p =
    if c == b'=' && is_nil p.value
    then record p { is_value = true }
    else if p.is_value
    then record p { value = p.value ++ c ∷ [] }
    else record p { name = p.name ++ c ∷ [] }

-- The loop over the bytes of a line.
unfoldable pub scan_server_bytes : Bytes → Bytes → Pair → Servers → Pair × Servers
unfolding open_section
scan_server_bytes line [] p m = (p, m)
scan_server_bytes line (c ∷ s) p m =
    let rest = λ (p' : Pair). scan_server_bytes line s p' m in
    if is_blank c
    then rest p
    else if c == b'#'
    then (p, m)
    else if c == b'['
    then (p, open_section line m)
    else rest (add_byte c p)

-- The end of a line: the parameter is stored, and the section with it.
unfoldable pub store_pair : Pair → Servers → Servers
store_pair p m = if is_nil p.name || is_nil m.server then m else record m {
  params = map_put p.name p.value m.params;
  servers = map_put m.server (map_put p.name p.value m.params) m.servers;
}

abbrev pub no_pair : Pair
no_pair = record { name = []; value = []; is_value = false }

unfoldable pub load_line : Bytes → Servers → Servers
unfolding scan_server_bytes store_pair
load_line line m = let (p, m') = scan_server_bytes line line no_pair m in store_pair p m'

-- The loop over the lines; one that begins with a zero byte ends it.
unfoldable pub load_server_lines : List Bytes → Servers → Servers
load_server_lines [] m = m
load_server_lines (line ∷ lines) m =
    if is_nil line then m else load_server_lines lines (load_line line m)

-- `load`; `none` stands for a file that cannot be opened.
unfoldable pub load_servers : Option (List Bytes) → Servers → Servers × Bool
unfolding load_server_lines
load_servers none m = (m, false)
load_servers (some lines) m = (load_server_lines lines (record m { server = [] }), true)

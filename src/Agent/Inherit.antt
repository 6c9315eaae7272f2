-- ===== src/Agent/Inherit.antt =====
-- src/ats2/serviceThread.cpp: the part of `Servicer::load` that gives each server the parameters of the
-- server DEFAULT.
use natc.Base.{is_nil, if◌then◌else◌, List, [], ◌∷◌, none, some, Bytes, codes, same}
use natc.Agent.Maps.{Map, find, map_put}
use natc.Agent.ServerFile.{Params}

abbrev pub default_server : Bytes
default_server = codes "DEFAULT"

-- `map[key]` as a value: a missing key has an empty one.
abbrev pub value_at : Bytes → Params → Bytes
value_at key m = elim (find key m) [ none ↦ [] | some v ↦ v ]

abbrev pub params_at : Bytes → Map Params → Params
params_at name m = elim (find name m) [ none ↦ [] | some p ↦ p ]

-- `mServerMap["DEFAULT"][key] = value`.
unfoldable pub set_default : Bytes × Bytes → Map Params → Map Params
set_default (key, value) m =
    map_put default_server (map_put key value (params_at default_server m)) m

-- The environment of the request: the paths, and the words of `mEnvAll` as the STAF library takes them
-- apart into a name and a value.
pub record Environment : Type 0 where
  pub home : Bytes
  pub path : Bytes
  pub lang : Bytes
  pub result : Bytes
  pub case : Bytes
  pub words : List (Bytes × Bytes)

unfoldable pub set_defaults : List (Bytes × Bytes) → Map Params → Map Params
set_defaults [] m = m
set_defaults (p ∷ ps) m = set_defaults ps (set_default p m)

abbrev pub fixed : Environment → List (Bytes × Bytes)
fixed e =
    (codes "ALTIBASE_HOME", e.home)
    ∷ (codes "PATH", e.path)
    ∷ (codes "LANG", e.lang)
    ∷ (codes "ATAF_TEST_RESULT", e.result)
    ∷ (codes "ATC_HOME", e.case)
    ∷ (codes "ATC_WORK", e.result)
    ∷ []

-- The loop over the parameters of DEFAULT, `own` as it was before.
unfoldable pub fill : Params → Params → Params → Params
fill [] own p = p
fill ((key, value) ∷ defaults) own p =
    if is_nil (value_at key own)
    then fill defaults own (map_put key value p)
    else fill defaults own p

-- The loop over the servers.
unfoldable pub inherit_all : Params → Map Params → Map Params
inherit_all defaults [] = []
inherit_all defaults ((name, own) ∷ m) =
    (name, if same name default_server then own else fill defaults own own) ∷ inherit_all defaults m

-- The whole part.
unfoldable pub inherit_defaults : Environment → Map Params → Map Params
inherit_defaults e m =
    let m' = set_defaults e.words (set_defaults (fixed e) m) in
    inherit_all (params_at default_server m') m'

-- ===== src/Agent/Tests.antt =====
-- Concrete files of servers and requests, and the theorems at inputs that meet their hypotheses.
use natc.Base.{All, ◌≡◌, refl, true, false, List, [], ◌∷◌, ◌++◌, some, Bytes, codes, arith, update}
use natc.Agent.Maps.{Map, find}
use natc.Agent.ServerFile.{
  Params, Servers, load_servers, load_server_lines, load_line, scan_server_bytes, open_section,
  header_name, store_pair,
}
use natc.Agent.ServerPrinting.{Section, print_sections}
use natc.Agent.ServerLoading.{IsSection, table_of, load_servers-print_sections}
use natc.Agent.Inherit.{
  Environment, params_at, default_server, set_defaults, fixed, inherit_defaults,
}
use natc.Agent.Filling.{effective}
use natc.Agent.Inheriting.{find-inherit_defaults}
use natc.Agent.Services.{RunAnswers, begin_run, handle_status, freed_read, shown, exception}
use natc.Agent.Tracking.{IsSteady, IsTracked, State, begins, Reach, here, next, is_none}
use natc.Agent.Showing.{none_running, sound, Reach-shown, begin_run-freed_read}

abbrev no_servers : Servers
no_servers = record { params = []; servers = []; server = [] }

abbrev two_servers : List Section
two_servers =
    (codes "DEFAULT", (codes "P", codes "1") ∷ (codes "Q", []) ∷ [])
    ∷ (codes "a b", (codes "P", codes "x=y") ∷ [])
    ∷ []

abbrev printed_lines : List Bytes
printed_lines =
    (codes "[DEFAULT]" ++ (10 ∷ []))
    ∷ (codes "P=1" ++ (10 ∷ []))
    ∷ (codes "Q=" ++ (10 ∷ []))
    ∷ (codes "[a b]" ++ (10 ∷ []))
    ∷ (codes "P=x=y" ++ (10 ∷ []))
    ∷ []

printed_as_said : print_sections two_servers ≡ printed_lines
printed_as_said = refl

two_servers-IsSection : All IsSection two_servers
two_servers-IsSection = ground arith

load_servers-print_sections_example :
    ((load_servers (some (print_sections two_servers)) no_servers).0.servers
      ≡ table_of two_servers [])
    × ((load_servers (some (print_sections two_servers)) no_servers).1 ≡ true)
load_servers-print_sections_example =
    load_servers-print_sections two_servers no_servers two_servers-IsSection

-- A blank before the sign that begins a section: the name starts with the sign.
abbrev servers_of : List Bytes → Map Params
servers_of lines = (load_servers (some lines) no_servers).0.servers

blank_header :
    servers_of ((codes " [a]" ++ (10 ∷ [])) ∷ (codes "P=1" ++ (10 ∷ [])) ∷ [])
    ≡ (codes "[a", (codes "P", codes "1") ∷ []) ∷ []
unfolding load_servers load_server_lines load_line scan_server_bytes open_section header_name
    store_pair
blank_header = refl

abbrev environment : Environment
environment = record {
  home = codes "/altibase";
  path = codes "/bin";
  lang = codes "ko";
  result = codes "/result";
  case = codes "/case";
  words = (codes "X", codes "1") ∷ [];
}

abbrev loaded : Map Params
loaded =
    (codes "DEFAULT", (codes "P", codes "1") ∷ (codes "PATH", codes "/usr") ∷ [])
    ∷ (codes "rep", (codes "P", []) ∷ (codes "LANG", codes "en") ∷ [])
    ∷ []

find-inherit_defaults_example :
    let defaults =
      params_at default_server
        (set_defaults environment.words (set_defaults (fixed environment) loaded)) in
    (p : Params) × ((find (codes "rep") (inherit_defaults environment loaded) ≡ some p)
      × (((key : Bytes)
            → find key p
              ≡ effective ((codes "P", []) ∷ (codes "LANG", codes "en") ∷ []) defaults key)
          × (params_at default_server (inherit_defaults environment loaded) ≡ defaults)))
find-inherit_defaults_example =
    find-inherit_defaults environment loaded (codes "rep")
      ((codes "P", []) ∷ (codes "LANG", codes "en") ∷ []) (refl, (refl, tt)) refl refl

abbrev all_well : RunAnswers
all_well = record {
  allocated = true;
  initialized = true;
  adding = sound;
  started = true;
  joined = true;
  removing = sound;
  destroyed = true;
}

all_well-IsSteady : IsSteady all_well
all_well-IsSteady = record {
  add_locks = refl;
  add_unlocks = refl;
  remove_locks = refl;
  remove_unlocks = refl;
  starts = refl;
  joins = refl;
}

abbrev one_running : State
one_running = (
  update none_running.0 7 (is_none (begin_run all_well 7 none_running.1).1),
  (begin_run all_well 7 none_running.1).0,
)

one_running-Reach : Reach none_running one_running
one_running-Reach = next here (begins all_well 7 all_well-IsSteady refl refl)

Reach-shown_example :
    IsTracked one_running.0 one_running.1
    × ((handle_status sound (λ _. codes "running") one_running.1).1
        ≡ shown (codes "running" ++ (10 ∷ [])))
unfolding begin_run
Reach-shown_example = Reach-shown one_running (λ _. codes "running") one_running-Reach

begin_run-freed_read_example :
    ((begin_run (record all_well { started = false }) 7 none_running.1).1 ≡ some (exception 4))
    × ((handle_status sound
          (λ _. codes "running")
          (begin_run (record all_well { started = false }) 7 none_running.1).0).1
        ≡ freed_read)
begin_run-freed_read_example =
    begin_run-freed_read (record all_well { started = false }) 7 none_running.1
      (λ _. codes "running") refl refl refl refl

-- ===== src/Agent/Inheriting.antt =====
-- src/ats2/serviceThread.cpp: what a server has from DEFAULT.
use natc.Base.{
  ◌≡◌, refl, ap, sym, ◌∙◌, Bool, false, if◌then◌else◌, List, [], ◌∷◌, Option, none, some, Bytes,
  same, same→eq, Bool-cases, inl, inr, subst, same_comm,
}
use natc.Agent.Maps.{Map, find, map_put, find-map_put, find-put_other}
use natc.Agent.ServerFile.{Params}
use natc.Agent.Inherit.{
  default_server, params_at, set_default, Environment, set_defaults, fixed, fill, inherit_all,
  inherit_defaults,
}
use natc.Agent.Filling.{IsMap, effective, filled_own, find-fill, map_put-IsMap}

-- Each other server, by its name.
find-inherit_all :
    (defaults : Params) (m : Map Params) (name : Bytes) (own : Params)
    → same name default_server ≡ false
    → find name m ≡ some own
    → find name (inherit_all defaults m) ≡ some (fill defaults own own)
unfolding inherit_all
find-inherit_all defaults [] name own other e = cc
find-inherit_all defaults ((k, p) ∷ m) name own other e = elim (Bool-cases (same k name)) [
  | inl hit ↦
      let eq = same→eq k name hit in
      let own_here : some p ≡ some own =
        sym (ap (λ (b : Bool). if b then some p else find name m) hit) ∙ e in
      let mine : p ≡ own = cc in
      let named : same k default_server ≡ false = ap (λ s. same s default_server) eq ∙ other in
      ap
        (λ (b : Bool).
          if b
          then some (if same k default_server then p else fill defaults p p)
          else find name (inherit_all defaults m))
        hit
      ∙ ap (λ (b : Bool). some (if b then p else fill defaults p p)) named
      ∙ ap (λ (q : Params). some (fill defaults q q)) mine
  | inr miss ↦
      let behind = sym (ap (λ (b : Bool). if b then some p else find name m) miss) ∙ e in
      ap
        (λ (b : Bool).
          if b
          then some (if same k default_server then p else fill defaults p p)
          else find name (inherit_all defaults m))
        miss
      ∙ find-inherit_all defaults m name own other behind
]

find-inherit_all_default :
    (defaults : Params) (m : Map Params)
    → find default_server (inherit_all defaults m) ≡ find default_server m
unfolding inherit_all
find-inherit_all_default defaults [] = refl
find-inherit_all_default defaults ((k, p) ∷ m) = elim (Bool-cases (same k default_server)) [
  | inl hit ↦ rw hit refl
  | inr miss ↦ rw miss (find-inherit_all_default defaults m)
]

-- Setting parameters of DEFAULT leaves the other servers alone, and its own ones stay a map.
find-set_defaults :
    (ps : List (Bytes × Bytes)) (m : Map Params) (name : Bytes)
    → same default_server name ≡ false
    → find name (set_defaults ps m) ≡ find name m
unfolding set_defaults set_default
find-set_defaults [] m name h = refl
find-set_defaults ((k, v) ∷ ps) m name h =
    find-set_defaults ps _ name h
    ∙ find-put_other default_server name (map_put k v (params_at default_server m)) m h

set_defaults-IsMap :
    (ps : List (Bytes × Bytes)) (m : Map Params)
    → IsMap (params_at default_server m)
    → IsMap (params_at default_server (set_defaults ps m))
unfolding set_defaults set_default
set_defaults-IsMap [] m h = h
set_defaults-IsMap ((k, v) ∷ ps) m h =
    let p = map_put k v (params_at default_server m) in
    set_defaults-IsMap ps (map_put default_server p m) (
      subst (λ (o : Option Params). IsMap (elim o as (λ _. Params) [ none ↦ [] | some q ↦ q ]))
        (sym (find-map_put default_server p m)) (map_put-IsMap k v (params_at default_server m) h))

-- The parameters of DEFAULT are a map. Then every other server keeps its place, and each of its
-- parameters is its own value, if it has one that is not empty, and otherwise what DEFAULT has after the
-- paths and the words of the environment are set there; DEFAULT itself has just these.
pub find-inherit_defaults :
    (e : Environment) (m : Map Params) (name : Bytes) (own : Params)
    → IsMap (params_at default_server m)
    → same name default_server ≡ false
    → find name m ≡ some own
    → let defaults = params_at default_server (set_defaults e.words (set_defaults (fixed e) m)) in
      (p : Params) × ((find name (inherit_defaults e m) ≡ some p)
        × (((key : Bytes) → find key p ≡ effective own defaults key)
            × (params_at default_server (inherit_defaults e m) ≡ defaults)))
unfolding inherit_defaults
find-inherit_defaults e m name own h other here =
    let m1 = set_defaults (fixed e) m in
    let m2 = set_defaults e.words m1 in
    let defaults = params_at default_server m2 in
    let apart = same_comm default_server name ∙ other in
    let is_map = set_defaults-IsMap e.words m1 (set_defaults-IsMap (fixed e) m h) in
    let still =
      find-set_defaults e.words m1 name apart ∙ find-set_defaults (fixed e) m name apart ∙ here in
    (
      fill defaults own own,
      (
        find-inherit_all defaults m2 name own other still,
        (
          (λ key. find-fill defaults own own key is_map ∙ filled_own defaults own key),
          ap (λ (o : Option Params). elim o as (λ _. Params) [ none ↦ [] | some q ↦ q ])
              (find-inherit_all_default defaults m2),
        ),
      ),
    )

-- ===== src/Agent/Filling.antt =====
-- src/ats2/serviceThread.cpp: the parameters of a server that are taken from those of DEFAULT.
use natc.Base.{
  is_nil, ◌≡◌, refl, ap, sym, ◌∙◌, Bool, false, if◌then◌else◌, [], ◌∷◌, Option, none, some, Bytes,
  same, same_self, same→eq, Bool-cases, inl, inr, subst, same_comm, if-both,
}
use natc.Agent.Maps.{find, map_put, find-map_put, find-put_other}
use natc.Agent.ServerFile.{Params}
use natc.Agent.Inherit.{value_at, fill}

-- No key stands twice, as in a `std::map`.
abbrev pub IsMap : Params → Type 0
IsMap [] = Unit {0}
IsMap ((k, v) ∷ m) = (find k m ≡ none) × IsMap m

-- The value of a parameter: the server's own one, if it is not empty, else that of DEFAULT, if it has
-- one, else what the server has.
abbrev pub effective : Params → Params → Bytes → Option Bytes
effective own defaults key = elim (find key defaults) [
  | none ↦ find key own
  | some value ↦ if is_nil (value_at key own) then some value else find key own
]

unfoldable pub filled : Params → Params → Params → Bytes → Option Bytes
filled defaults own p key = elim (find key defaults) [
  | none ↦ find key p
  | some value ↦ if is_nil (value_at key own) then some value else find key p
]

pub filled_own :
    (defaults own : Params) (key : Bytes) → filled defaults own own key ≡ effective own defaults key
unfolding filled
filled_own defaults own key = refl

absent :
    (defaults own p : Params) (key : Bytes)
    → find key defaults ≡ none
    → filled defaults own p key ≡ find key p
unfolding filled
absent defaults own p key e =
    ap
      (λ (o : Option Bytes). elim o [
        | none ↦ find key p
        | some value ↦ if is_nil (value_at key own) then some value else find key p
      ])
      e

-- The first parameter of DEFAULT, and another one.
filled_hit :
    (k v : Bytes) (defaults own p : Params)
    → filled ((k, v) ∷ defaults) own p k ≡ (if is_nil (value_at k own) then some v else find k p)
unfolding filled
filled_hit k v defaults own p =
    ap
      (λ b. elim (if b then some v else find k defaults) as (λ _. Option Bytes) [
        | none ↦ find k p
        | some value ↦ if is_nil (value_at k own) then some value else find k p
      ])
      (same_self k)

filled_miss :
    (k v : Bytes) (defaults own p q : Params) (key : Bytes)
    → same k key ≡ false
    → find key q ≡ find key p
    → filled defaults own q key ≡ filled ((k, v) ∷ defaults) own p key
unfolding filled
filled_miss k v defaults own p q key miss e =
    ap
      (λ (f : Option Bytes). elim (find key defaults) as (λ _. Option Bytes) [
        | none ↦ f
        | some value ↦ if is_nil (value_at key own) then some value else f
      ])
      e
    ∙ sym (
        ap
          (λ (b : Bool). elim (if b then some v else find key defaults) as (λ _. Option Bytes) [
            | none ↦ find key p
            | some value ↦ if is_nil (value_at key own) then some value else find key p
          ])
          miss)

pub find-fill :
    (defaults own p : Params) (key : Bytes)
    → IsMap defaults
    → find key (fill defaults own p) ≡ filled defaults own p key
unfolding fill
find-fill [] own p key h = unfold filled in refl
find-fill ((k, v) ∷ defaults) own p key (fresh, h) =
    let with_it = find-fill defaults own (map_put k v p) key h in
    let without = find-fill defaults own p key h in
    let P = λ (q : Params). find key q ≡ filled ((k, v) ∷ defaults) own p key in
    elim (Bool-cases (same k key)) [
      | inl hit ↦
          let eq = same→eq k key hit in
          let gone : find key defaults ≡ none = ap (λ s. find s defaults) (sym eq) ∙ fresh in
          let first : filled ((k, v) ∷ defaults) own p key
              ≡ (if is_nil (value_at key own) then some v else find key p) =
            subst
              (λ s.
                filled ((k, v) ∷ defaults) own p s
                ≡ (if is_nil (value_at s own) then some v else find s p))
              eq (filled_hit k v defaults own p) in
          let stored : find key (map_put k v p) ≡ some v =
            ap (λ s. find s (map_put k v p)) (sym eq) ∙ find-map_put k v p in
          let choose = λ (b : Bool). if b then some v else find key p in
          if-both P (is_nil (value_at k own)) _ _
            (λ empty.
              with_it
              ∙ absent defaults own (map_put k v p) key gone
              ∙ stored
              ∙ sym (ap choose (ap (λ s. is_nil (value_at s own)) (sym eq) ∙ empty))
              ∙ sym first)
            (λ kept.
              without
              ∙ absent defaults own p key gone
              ∙ sym (ap choose (ap (λ s. is_nil (value_at s own)) (sym eq) ∙ kept))
              ∙ sym first)
      | inr miss ↦
          if-both P (is_nil (value_at k own)) _ _
            (λ _.
              with_it
              ∙ filled_miss k v defaults own p (map_put k v p) key miss
                  (find-put_other k key v p miss))
            (λ _. without ∙ filled_miss k v defaults own p p key miss refl)
    ]

pub map_put-IsMap : (key value : Bytes) (m : Params) → IsMap m → IsMap (map_put key value m)
map_put-IsMap key value [] h = (refl, tt)
map_put-IsMap key value ((k, v) ∷ m) (fresh, h) = elim (Bool-cases (same k key)) [
  | inl hit ↦ rw hit (fresh, h)
  | inr miss ↦
      let unlike : same key k ≡ false = same_comm key k ∙ miss in
      rw miss (find-put_other key k value m unlike ∙ fresh, map_put-IsMap key value m h)
]

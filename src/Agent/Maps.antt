-- ===== src/Agent/Maps.antt =====
-- `std::map` from strings, as a list of pairs: only what is found by a key is used of it.
use natc.Base.{
  ◌≡◌, refl, ap, ◌∙◌, false, if◌then◌else◌, List, [], ◌∷◌, Option, none, some, Bytes, same,
  same_self, same→eq, Bool-cases, inl, inr,
}

abbrev pub Map {ℓ} : Type ℓ → Type ℓ
Map A = List (Bytes × A)

-- `find`.
abbrev pub find {ℓ} : {A : Type ℓ} → Bytes → Map A → Option A
find key [] = none
find key ((k, v) ∷ m) = if same k key then some v else find key m

-- `map[key] = value`.
abbrev pub map_put {ℓ} : {A : Type ℓ} → Bytes → A → Map A → Map A
map_put key value [] = (key, value) ∷ []
map_put key value ((k, v) ∷ m) = if same k key then (k, value) ∷ m else (k, v) ∷ map_put key value m

pub find-map_put {ℓ} :
    {A : Type ℓ} (key : Bytes) (value : A) (m : Map A) → find key (map_put key value m) ≡ some value
find-map_put key value [] = ap (λ b. if b then some value else none) (same_self key)
find-map_put key value ((k, v) ∷ m) = elim (Bool-cases (same k key)) [
  | inl hit ↦ rw (hit, hit) refl
  | inr miss ↦ rw (miss, miss) (find-map_put key value m)
]

pub find-put_other {ℓ} :
    {A : Type ℓ} (key other : Bytes) (value : A) (m : Map A)
    → same key other ≡ false
    → find other (map_put key value m) ≡ find other m
find-put_other key other value [] h = ap (λ b. if b then some value else none) h
find-put_other key other value ((k, v) ∷ m) h = elim (Bool-cases (same k key)) [
  | inl hit ↦
      let unlike : same k other ≡ false =
        ap (λ (s : Bytes). same s other) (same→eq k key hit) ∙ h in
      rw (hit, unlike) refl
  | inr miss ↦
      let rest = find-put_other key other value m h in
      rw miss (ap (λ o. if same k other then some v else o) rest)
]

-- The last value that is stored under a key stays.
pub map_put-map_put {ℓ} :
    {A : Type ℓ} (key : Bytes) (a b : A) (m : Map A)
    → map_put key b (map_put key a m) ≡ map_put key b m
map_put-map_put key a b [] =
    ap (λ c. if c then (key, b) ∷ [] else (key, a) ∷ (key, b) ∷ []) (same_self key)
map_put-map_put key a b ((k, v) ∷ m) = elim (Bool-cases (same k key)) [
  | inl hit ↦ rw (hit, hit) refl
  | inr miss ↦ rw (miss, miss) (ap (◌∷◌ (k, v)) (map_put-map_put key a b m))
]

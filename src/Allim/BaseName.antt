-- ===== src/Allim/BaseName.antt =====
-- src/allim/lib/allib.c: the loop of `allimPointPass` that drops the directories of a file name.
use natc.Base.{
  ℕ, zero, suc, ◌<◌, ◌≡◌, refl, Bool, false, ◌||◌, ◌==◌, arith, [], ◌∷◌, ◌++◌, none, some, Bytes,
  length, length-append, Bool-cases, inl, inr, ◌⊎◌,
}
use natc.Allim.Points.{after_slash, base_name_loop, base_name}

-- Does a name hold a slash?
abbrev pub has_slash : Bytes → Bool
has_slash [] = false
has_slash (c ∷ cs) = c == b'/' || has_slash cs

after_slash-none : (s : Bytes) → has_slash s ≡ false → after_slash s ≡ none
unfolding after_slash
after_slash-none [] h = refl
after_slash-none (c ∷ cs) h = ground (arith, after_slash-none cs)

-- A directory before the last name is dropped in one or more rounds.
after_slash-append :
    (d f : Bytes)
    → (e : Bytes) × (after_slash (d ++ b'/' ∷ f) ≡ some e)
      × ((e ≡ f) ⊎ ((d' : Bytes) × (e ≡ d' ++ b'/' ∷ f) × (length d' < length d)))
unfolding after_slash
after_slash-append [] f = (f, refl, inl refl)
after_slash-append (c ∷ d) f = elim (Bool-cases (c == b'/')) [
  | inl slash ↦ (d ++ b'/' ∷ f, rw slash, inr (d, refl, omega arith))
  | inr other ↦ (let (e, found, how) = after_slash-append d f in (e, rw other found, longer e how))
]
  where
    longer :
        (e : Bytes)
        → ((e ≡ f) ⊎ ((d' : Bytes) × (e ≡ d' ++ b'/' ∷ f) × (length d' < length d)))
        → (e ≡ f) ⊎ ((d' : Bytes) × (e ≡ d' ++ b'/' ∷ f) × (length d' < suc (length d)))
    longer e (inl p) = inl p
    longer e (inr (d', p, lt)) = inr (d', p, omega arith)

base_name_loop-file : (fuel : ℕ) (f : Bytes) → has_slash f ≡ false → base_name_loop fuel f ≡ f
unfolding base_name_loop
base_name_loop-file zero f h = refl
base_name_loop-file (suc fuel) f h = rw (base_name_loop, after_slash-none f h)

base_name_loop-append :
    (fuel : ℕ) (d f : Bytes)
    → has_slash f ≡ false
    → length d < fuel
    → base_name_loop fuel (d ++ b'/' ∷ f) ≡ f
unfolding base_name_loop
base_name_loop-append zero d f h lt = absurd (omega arith)
base_name_loop-append (suc fuel) d f h lt =
    let (e, found, how) = after_slash-append d f in
    rw (base_name_loop, found)
      (rest e how (λ d' less. base_name_loop-append fuel d' f h (omega arith)))
  where
    rest :
        (e : Bytes)
        → ((e ≡ f) ⊎ ((d' : Bytes) × (e ≡ d' ++ b'/' ∷ f) × (length d' < length d)))
        → ((d' : Bytes) → length d' < length d → base_name_loop fuel (d' ++ b'/' ∷ f) ≡ f)
        → base_name_loop fuel e ≡ f
    rest e (inl p) shorter = rw p (base_name_loop-file fuel f h)
    rest e (inr (d', p, less)) shorter = rw p (shorter d' less)

-- The loop ends at the part of the name behind the last slash, or at the whole name if it has none.
pub base_name-append :
    (d f : Bytes) → has_slash f ≡ false → (base_name (d ++ b'/' ∷ f) ≡ f) × (base_name f ≡ f)
unfolding base_name
base_name-append d f h = (
  base_name_loop-append (length (d ++ b'/' ∷ f)) d f h (omega (arith, length-append d (b'/' ∷ f))),
  base_name_loop-file (length f) f h,
)

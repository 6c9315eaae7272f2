-- ===== src/Loader/Storing.antt =====
-- src/ploader/src/iloDataFile.cpp: the values that a record stores.
use natc.Base.{
  ℕ, zero, suc, ◌+◌, ◌≤◌, ◌<◌, ◌≡◌, refl, ap, ◌∙◌, false, if◌then◌else◌, ltb, List, [], ◌∷◌, some,
  Bytes, length, arith, ◌==◌, get_elem?, ==_self, lt→ltb, if-both,
}
use natc.Loader.Record.{nts, null_data, Len, Table, attr_count, set_attr}

abbrev pub len_of : Bytes → Len
len_of [] = null_data
len_of (c ∷ v) = nts

-- The values of a record, stored from the attribute at `i` on.
abbrev pub store : ℕ → List Bytes → Table → Table
store i [] t = t
store i (v ∷ vs) t = store (suc i) vs (set_attr i v (len_of v) t)

pub attr_count-set_attr :
    (i : ℕ) (v : Bytes) (len : Len) (tab : Table)
    → attr_count (set_attr i v len tab) ≡ attr_count tab
unfolding set_attr
attr_count-set_attr i v len tab =
    if-both (λ (t : Table). attr_count t ≡ attr_count tab) (ltb i (attr_count tab)) _ _ (λ _. refl)
      (λ _. refl)

pub attr_count-store :
    (i : ℕ) (vs : List Bytes) (tab : Table) → attr_count (store i vs tab) ≡ attr_count tab
attr_count-store i [] tab = refl
attr_count-store i (v ∷ vs) tab =
    attr_count-store (suc i) vs (set_attr i v (len_of v) tab)
    ∙ attr_count-set_attr i v (len_of v) tab

cells-set_attr :
    (i : ℕ) (v : Bytes) (len : Len) (tab : Table)
    → i < attr_count tab
    → (set_attr i v len tab).cells i ≡ some (record { value = v; len = len })
unfolding set_attr
cells-set_attr i v len tab l = rw (lt→ltb _ _ l, ==_self i) refl

cells-set_attr_other :
    (i j : ℕ) (v : Bytes) (len : Len) (tab : Table)
    → j < i
    → (set_attr i v len tab).cells j ≡ tab.cells j
unfolding set_attr
cells-set_attr_other i j v len tab l =
    let apart : (j == i) ≡ false = ground arith in
    if-both (λ (t : Table). t.cells j ≡ tab.cells j) (ltb i (attr_count tab)) _ _
      (λ _. ap (λ b. if b then some (record { value = v; len = len }) else tab.cells j) apart)
      (λ _. refl)

store_below :
    (i : ℕ) (vs : List Bytes) (tab : Table) (j : ℕ) → j < i → (store i vs tab).cells j ≡ tab.cells j
store_below i [] tab j l = refl
store_below i (v ∷ vs) tab j l =
    store_below (suc i) vs (set_attr i v (len_of v) tab) j (omega (arith, l))
    ∙ cells-set_attr_other i j v (len_of v) tab l

-- Each value stands at its place.
pub store_at :
    (i : ℕ) (vs : List Bytes) (tab : Table) (k : ℕ) (v : Bytes)
    → i + length vs ≤ attr_count tab
    → get_elem? vs k ≡ some v
    → (store i vs tab).cells (i + k) ≡ some (record { value = v; len = len_of v })
store_at i [] tab k v l e = cc
store_at i (u ∷ vs) tab zero v l e =
    let same : u ≡ v = cc in
    let place : i + 0 ≡ i = omega arith in
    ap (λ j. (store i (u ∷ vs) tab).cells j) place
    ∙ store_below (suc i) vs (set_attr i u (len_of u) tab) i (omega arith)
    ∙ cells-set_attr i u (len_of u) tab (omega (arith, l))
    ∙ ap (λ (w : Bytes). some (record { value = w; len = len_of w })) same
store_at i (u ∷ vs) tab (suc k) v l e =
    let place : i + suc k ≡ suc i + k = omega arith in
    let count = attr_count-set_attr i u (len_of u) tab in
    ap (λ j. (store i (u ∷ vs) tab).cells j) place
    ∙ store_at (suc i) vs (set_attr i u (len_of u) tab) k v (omega (arith, l, count)) e

-- ===== src/Allim/Slots.antt =====
-- src/allim/lib/allib.c: the table of threads, as `allimPointPass` and `allimPointDone` use it.
use natc.Base.{
  ℕ, zero, suc, ◌+◌, ◌≤◌, ◌<◌, ◌≡◌, ◌≢◌, ◌⊎◌, inl, inr, ◌||◌, ◌==◌, arith, Bool-cases, dec_lt, sym,
  ◌∙◌,
}
use natc.Allim.State.{max_threads}
use natc.Allim.Points.{find_slot}

-- What the search finds from slot `i` on, with `k` slots to look at: a slot `r` that is the thread's
-- own or free, with no such slot before it; `r ≡ i + k` if there is none.
pub record Finds (self : ℕ) (ids : ℕ → ℕ) (k i r : ℕ) : Type 0 where
  pub from : i ≤ r
  pub upto : r ≤ i + k
  pub fits : r < i + k → (ids r ≡ self) ⊎ (ids r ≡ 0)
  pub before : (j : ℕ) → i ≤ j → j < r → (ids j ≢ self) × (ids j ≢ 0)

module _ (self : ℕ) (ids : ℕ → ℕ) (k i r : ℕ) where
  Finds-suc : ids i ≢ self → ids i ≢ 0 → Finds self ids k (i + 1) r → Finds self ids (suc k) i r
  Finds-suc other used later = record {
    from = omega (arith, later.from);
    upto = omega (arith, later.upto);
    fits = λ h. later.fits (omega arith);
    before = λ j h h'. elim (dec_lt i j) [
      | yes above ↦ later.before j (omega arith) h'
      | no at ↦ (let e : j ≡ i = omega arith in rw e (other, used))
    ];
  }

pub find_slot-Finds :
    (self : ℕ) (ids : ℕ → ℕ) (k i : ℕ) → Finds self ids k i (find_slot self ids k i)
unfolding find_slot
find_slot-Finds self ids zero i = record {
  from = omega arith;
  upto = omega arith;
  fits = λ h. absurd (omega arith);
  before = λ j h h'. absurd (omega arith);
}
find_slot-Finds self ids (suc k) i = elim (Bool-cases (self == ids i || 0 == ids i)) [
  | inl here ↦ rw here (record {
    from = omega arith;
    upto = omega arith;
    fits = λ h. ground arith;
    before = λ j h h'. absurd (omega arith);
  })
  | inr other ↦
      rw other (
        Finds-suc self ids k i _ (ground arith) (ground arith) (find_slot-Finds self ids k (i + 1)))
]

-- The search finds the first slot that fits.
pub find_slot-first :
    (self : ℕ) (ids : ℕ → ℕ) (r : ℕ)
    → r < max_threads
    → (ids r ≡ self) ⊎ (ids r ≡ 0)
    → ((j : ℕ) → j < r → (ids j ≢ self) × (ids j ≢ 0))
    → find_slot self ids max_threads 0 ≡ r
find_slot-first self ids r lt fits before = compare_slots (dec_lt found r) (dec_lt r found)
  where
    found : ℕ
    found = find_slot self ids max_threads 0

    finds : Finds self ids max_threads 0 found
    finds = find_slot-Finds self ids max_threads 0

    clash : (j : ℕ) → (ids j ≡ self) ⊎ (ids j ≡ 0) → (ids j ≢ self) × (ids j ≢ 0) → ⊥
    clash j (inl e) n = n.0 e
    clash j (inr e) n = n.1 e

    compare_slots : Dec (found < r) → Dec (r < found) → found ≡ r
    compare_slots (yes h) _ = absurd (clash found (finds.fits (omega arith)) (before found h))
    compare_slots (no _) (yes h) = absurd (clash r fits (finds.before r (omega arith) h))
    compare_slots (no h) (no k) = omega arith

-- No free slot lies before a used one, and no thread holds two slots: the first `n` slots are used.
pub record IsPacked (n : ℕ) (ids : ℕ → ℕ) : Type 0 where
  pub used : (j : ℕ) → j < n → ids j ≢ 0
  pub free : (j : ℕ) → n ≤ j → j < max_threads → ids j ≡ 0
  pub distinct : (i j : ℕ) → i < n → j < n → ids i ≡ ids j → i ≡ j

module _ {n self : ℕ} {ids : ℕ → ℕ} (packed : IsPacked n ids) (room : n ≤ max_threads) where
  -- In a packed table with room, a thread that holds a slot finds that one.
  pub find_slot-own : (i : ℕ) → i < n → ids i ≡ self → find_slot self ids max_threads 0 ≡ i
  find_slot-own i lt own =
      find_slot-first self ids i (omega arith) (inl own)
        (λ j h. (λ e. absurd (apart j h e), packed.used j (omega arith)))
    where
      apart : (j : ℕ) → j < i → ids j ≡ self → ⊥
      apart j h e =
          let same_slot : j ≡ i = packed.distinct j i (omega arith) lt (e ∙ sym own) in omega arith

  -- And a thread that holds none finds the first slot behind the used ones.
  pub find_slot-new :
      n < max_threads → ((j : ℕ) → j < n → ids j ≢ self) → find_slot self ids max_threads 0 ≡ n
  find_slot-new lt other =
      find_slot-first self ids n lt (inr (packed.free n (omega arith) lt))
        (λ j h. (other j h, packed.used j h))

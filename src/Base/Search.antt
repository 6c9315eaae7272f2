-- ===== src/Base/Search.antt =====
-- The search for an occurrence in a string.
use Prim.Native.Nat.{ℕ, ◌≤◌}
use mathlib.Core.Path.{◌≡◌, refl, ap, sym, ◌∙◌}
use mathlib.Core.Logic.{◌≢◌}
use mathlib.Core.Bool.{true, false, false≢true}
use mathlib.Core.List.{[], ◌∷◌, ◌++◌}
use mathlib.Core.Option.{Option, none, some}
use native.Mathlib.Omega.{arith}
use natc.Base.Tests.{==_self, if-both}
use natc.Base.Lists.{length}
use natc.Base.Text.{Bytes, begins, strstr}

pub begins-split : (p s : Bytes) → begins p s ≡ true → (rest : Bytes) × (s ≡ p ++ rest)
begins-split [] s h = (s, refl)
begins-split (c ∷ p) [] h = cc
begins-split (c ∷ p) (d ∷ s) h =
    let (rest, e) = begins-split p s (ground arith) in let same : c ≡ d = ground arith in (rest, cc)

pub begins-append : (p rest : Bytes) → begins p (p ++ rest) ≡ true
begins-append [] rest = refl
begins-append (c ∷ p) rest = rw (==_self c) (begins-append p rest)

-- The first occurrence: what stands before it, and no occurrence begins earlier.
pub record First (s p : Bytes) (rest : Bytes) : Type 0 where
  pub before : Bytes
  pub after : Bytes
  pub whole : s ≡ before ++ rest
  pub here : rest ≡ p ++ after
  pub earliest : (a b : Bytes) → s ≡ a ++ (p ++ b) → length before ≤ length a

-- What `strstr` returns: the first occurrence, or none.
abbrev pub Found : Bytes → Bytes → Option Bytes → Type 0
Found s p none = (a b : Bytes) → s ≢ a ++ (p ++ b)
Found s p (some rest) = First s p rest

not_here : (p s : Bytes) → begins p s ≡ false → (b : Bytes) → s ≢ p ++ b
not_here p s h b e = false≢true (sym h ∙ ap (begins p) e ∙ begins-append p b)

none-behind :
    (c : ℕ) (s p : Bytes) → begins p (c ∷ s) ≡ false → Found s p none → Found (c ∷ s) p none
none-behind c s p h f [] b e = not_here p (c ∷ s) h b e
none-behind c s p h f (d ∷ a) b e = let rest : s ≡ a ++ (p ++ b) = cc in f a b rest

none-empty : (p : Bytes) → begins p [] ≡ false → Found [] p none
none-empty p h [] b e = not_here p [] h b e
none-empty p h (d ∷ a) b e = absurd (omega (arith, ap length e))

earliest-behind :
    (c : ℕ) (s p rest : Bytes) (f : First s p rest)
    → begins p (c ∷ s) ≡ false
    → (a b : Bytes) → c ∷ s ≡ a ++ (p ++ b)
    → length (c ∷ f.before) ≤ length a
earliest-behind c s p rest f h [] b e = absurd (not_here p (c ∷ s) h b e)
earliest-behind c s p rest f h (d ∷ a) b e =
    let behind : s ≡ a ++ (p ++ b) = cc in omega (arith, f.earliest a b behind)

Found-behind :
    (c : ℕ) (s p : Bytes) (o : Option Bytes)
    → begins p (c ∷ s) ≡ false
    → Found s p o
    → Found (c ∷ s) p o
Found-behind c s p none h f = none-behind c s p h f
Found-behind c s p (some rest) h f = record {
  before = c ∷ f.before;
  after = f.after;
  whole = ap (◌∷◌ c) f.whole;
  here = f.here;
  earliest = earliest-behind c s p rest f h;
}

at_front : (s p : Bytes) → begins p s ≡ true → First s p s
at_front s p hit =
    let (after, e) = begins-split p s hit in
    record { before = []; after = after; whole = refl; here = e; earliest = λ a b e. omega arith }

-- The search finds the first occurrence, or there is none.
pub strstr-Found : (s p : Bytes) → Found s p (strstr s p)
strstr-Found [] p = if-both (Found [] p) (begins p []) _ _ (at_front [] p) (none-empty p)
strstr-Found (c ∷ s) p =
    if-both (Found (c ∷ s) p) (begins p (c ∷ s)) _ _ (at_front (c ∷ s) p)
      (λ miss. Found-behind c s p (strstr s p) miss (strstr-Found s p))

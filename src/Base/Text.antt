-- ===== src/Base/Text.antt =====
-- C strings as lists of bytes, the terminating zero left out: comparison and search.
use Prim.Native.Char.{code}
use Prim.Native.String.{String}
use Prim.Native.Nat.{ℕ}
use mathlib.Core.Path.{◌≡◌, refl, ap₂}
use mathlib.Core.Bool.{Bool, true, false, ◌&&◌}
use mathlib.Core.List.{List, [], ◌∷◌, ◌++◌}
use mathlib.Core.Option.{Option, none, some}
use native.Mathlib.Omega.{arith}
use natc.Base.Tests.{◌==◌, ==_self, ==_comm, if◌then◌else◌}

abbrev pub Bytes : Type 0
Bytes = List ℕ

-- The bytes of an ASCII literal.
abbrev pub codes : String → Bytes
codes String.[] = []
codes (String.◌∷◌ c s) = code c ∷ codes s

abbrev pub is_nil : Bytes → Bool
is_nil [] = true
is_nil (c ∷ s) = false

pub is_nil-snoc : (s : Bytes) (c : ℕ) → is_nil (s ++ c ∷ []) ≡ false
is_nil-snoc [] c = refl
is_nil-snoc (d ∷ s) c = refl

-- `strcmp(a, b) == 0`.
abbrev pub same : Bytes → Bytes → Bool
same [] [] = true
same [] (d ∷ ds) = false
same (c ∷ cs) [] = false
same (c ∷ cs) (d ∷ ds) = c == d && same cs ds

pub same_self : (s : Bytes) → same s s ≡ true
same_self [] = refl
same_self (c ∷ cs) = ground (arith, ==_self c, same_self cs)

pub same_comm : (s t : Bytes) → same s t ≡ same t s
same_comm [] [] = refl
same_comm [] (d ∷ ds) = refl
same_comm (c ∷ cs) [] = refl
same_comm (c ∷ cs) (d ∷ ds) = ap₂ ◌&&◌ (==_comm c d) (same_comm cs ds)

pub same→eq : (s t : Bytes) → same s t ≡ true → s ≡ t
same→eq [] [] h = refl
same→eq [] (d ∷ ds) h = cc
same→eq (c ∷ cs) [] h = cc
same→eq (c ∷ cs) (d ∷ ds) h = ground (arith, same→eq cs ds)

-- Does `s` begin with `p`?
abbrev pub begins : Bytes → Bytes → Bool
begins [] s = true
begins (c ∷ cs) [] = false
begins (c ∷ cs) (d ∷ ds) = c == d && begins cs ds

-- `strstr(s, p)`: what stands from the first occurrence on.
abbrev pub strstr : Bytes → Bytes → Option Bytes
strstr [] p = if begins p [] then some [] else none
strstr (c ∷ s) p = if begins p (c ∷ s) then some (c ∷ s) else strstr s p

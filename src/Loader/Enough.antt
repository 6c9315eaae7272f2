-- ===== src/Loader/Enough.antt =====
-- src/ploader/src/iloDataFile.cpp: the bytes to come bound the rounds of `GetToken`.
use natc.Base.{ℕ, zero, suc, ◌+◌, ◌≤◌, ◌<◌, [], ◌∷◌, Bytes, length, drop, arith, length-append}
use natc.Loader.Source.{Source}
use natc.Loader.Unread.{unread, dos}
use natc.Loader.Token.{enough}

length-dos : (s : Bytes) → length (dos s) ≤ length s
length-dos [] = omega arith
length-dos (c ∷ []) = ground arith
length-dos (c ∷ d ∷ s) = ground (arith, length-dos s, length-dos (d ∷ s))

length-drop : (n : ℕ) (s : Bytes) → length (drop n s) ≤ length s
length-drop zero s = omega arith
length-drop (suc n) [] = omega arith
length-drop (suc n) (c ∷ s) = omega (arith, length-drop n s)

pub text-lt-enough : (s : Source) → length (dos (unread s)) + 1 < enough s
text-lt-enough s = omega (
  arith,
  length-dos (unread s),
  length-append (drop s.pos s.buffer) s.rest,
  length-drop s.pos s.buffer,
)

-- ===== src/Psql/Hashing.antt =====
-- src/psql/src/iSQLHostVarMgr.cpp: the key of a name does not depend on its case, which the lookup
-- relies on: it computes the key before it puts the name into upper case.
use natc.Base.{ℕ, ◌+◌, ◌*◌, ◌%◌, ◌^◌, ◌≡◌, refl, [], ◌∷◌, Bytes, arith}
use natc.Psql.Strings.{to_upper, upper_byte}
use natc.Psql.HostVars.{signed_byte, hash_loop, hashing}

-- A letter and its upper case differ by 32.
upper_byte-mod : (c : ℕ) → signed_byte (upper_byte c) % 32 ≡ signed_byte c % 32
upper_byte-mod c = ground arith

-- One step of the hash, modulo 32.
step-mod :
    (k k' b b' : ℕ)
    → k % 32 ≡ k' % 32
    → b % 32 ≡ b' % 32
    → ((k * 31 + b) % 2 ^ 64) % 32 ≡ ((k' * 31 + b') % 2 ^ 64) % 32
step-mod k k' b b' h e = omega arith

hash_loop-upper :
    (s : Bytes) (k k' : ℕ) → k % 32 ≡ k' % 32 → hash_loop k (to_upper s) % 32 ≡ hash_loop k' s % 32
unfolding hash_loop to_upper
hash_loop-upper [] k k' h = h
hash_loop-upper (c ∷ s) k k' h =
    hash_loop-upper s ((k * 31 + signed_byte (upper_byte c)) % 2 ^ 64)
      ((k' * 31 + signed_byte c) % 2 ^ 64)
      (step-mod k k' (signed_byte (upper_byte c)) (signed_byte c) h (upper_byte-mod c))

-- The key of a name is that of the name in upper case: the size of the table divides the distance of
-- the two cases of a letter.
pub hashing-to_upper : (name : Bytes) → hashing (to_upper name) ≡ hashing name
unfolding hashing
hashing-to_upper name = hash_loop-upper name 0 0 refl

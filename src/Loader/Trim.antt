-- ===== src/Loader/Trim.antt =====
-- src/ploader/src/iloDataFile.cpp: `iloDataFile::rtrim`, on the zero-terminated token.
use natc.Base.{ℕ, zero, suc, ◌-◌, ◌==◌, if◌then◌else◌, Bytes, length, take}
use natc.Loader.Token.{char_at}

-- The loop, with the rounds left and the index that `ptr` stands for: what is written to the string.
unfoldable pub trim_from : ℕ → ℕ → Bytes → Bytes
trim_from zero ptr s = s
trim_from (suc left) ptr s =
    let rest = trim_from left (ptr - 1) s in if char_at s ptr == b' ' then rest else take ptr s

-- `rtrim`: it starts at the zero behind the last byte.
unfoldable pub rtrim : Bytes → Bytes
unfolding trim_from
rtrim s = trim_from (length s) (length s) s

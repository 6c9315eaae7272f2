-- ===== src/Psql/Strings.antt =====
-- src/psql/src/utString.cpp: the operations on a zero-terminated string. A zero that is written at the
-- last byte drops it.
use natc.Base.{
  ℕ, zero, suc, ◌-◌, Bool, true, false, ◌==◌, ◌||◌, ◌&&◌, if◌then◌else◌, leb, [], ◌∷◌, none, some,
  Bytes, length, get_elem?, take,
}

-- The string, and whether the byte before its first one has been read.
pub record Cut : Type 0 where
  pub text : Bytes
  pub is_under : Bool

-- A loop that goes back over the last bytes, from the place before `i`, as long as they are to be
-- dropped. Its condition reads the byte before it tests the index.
unfoldable pub cut_back : (ℕ → Bool) → ℕ → Bytes → Cut
cut_back is_dropped zero s = record { text = s; is_under = true }
cut_back is_dropped (suc i) s =
    let rest = cut_back is_dropped i (take i s) in
    let done : Cut = record { text = s; is_under = false } in
    elim (get_elem? s i) [ none ↦ done | some c ↦ if is_dropped c then rest else done ]

-- The first loop of `eraseWhiteSpace`: it moves the string to the left while it begins with a space.
unfoldable pub erase_front : Bytes → Bytes
erase_front [] = []
erase_front (c ∷ s) = if c == b' ' then erase_front s else c ∷ s

abbrev pub is_space : ℕ → Bool
is_space c = c == b' '

-- The test for an empty string, and then the loop over the end.
unfoldable pub cut_end : (ℕ → Bool) → Bytes → Cut
unfolding cut_back
cut_end is_dropped [] = record { text = []; is_under = false }
cut_end is_dropped (c ∷ s) = cut_back is_dropped (length (c ∷ s)) (c ∷ s)

-- `eraseWhiteSpace`.
unfoldable pub erase_white_space : Bytes → Cut
unfolding erase_front cut_end
erase_white_space s = cut_end is_space (erase_front s)

-- `removeLastSpace`.
unfoldable pub remove_last_space : Bytes → Cut
unfolding cut_end
remove_last_space s = cut_end is_space s

abbrev pub is_cr : ℕ → Bool
is_cr c = c == 10 || c == 9

-- `removeLastCR`.
unfoldable pub remove_last_cr : Bytes → Cut
unfolding cut_end
remove_last_cr s = cut_end is_cr s

abbrev pub upper_byte : ℕ → ℕ
upper_byte c = if leb 97 c && leb c 122 then c - 32 else c

-- `toUpper`.
unfoldable pub to_upper : Bytes → Bytes
to_upper [] = []
to_upper (c ∷ s) = upper_byte c ∷ to_upper s

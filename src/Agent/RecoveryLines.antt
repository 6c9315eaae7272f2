-- ===== src/Agent/RecoveryLines.antt =====
-- src/ats2/recpointManager.cpp: the lines of a list of recovery points, as `fgets` reads them.
use natc.Base.{
  ℕ, suc, ◌+◌, ◌<◌, ◌-◌, ◌≡◌, refl, ap, sym, ◌∙◌, false, ◌==◌, ◌||◌, List, [], ◌∷◌, ◌++◌, Bytes,
  length, map, All, All-append, arith, append_assoc, length-append,
}
use natc.Agent.RecoveryFile.{is_white, digits, line_size, fgets_lines}
use natc.Agent.RecoveryScanning.{Entry, IsEntry, entry_line, digits-solid}

-- The file that holds the entries.
abbrev pub entries_text : List Entry → Bytes
entries_text [] = []
entries_text (e ∷ es) = entry_line e ++ entries_text es

abbrev NoNewline : Bytes → Type 0
NoNewline s = All (λ c. (c == 10) ≡ false) s

fgets_lines-line :
    (line body s : Bytes)
    → NoNewline body
    → length line + length body + 1 < line_size
    → fgets_lines line (body ++ 10 ∷ s) ≡ (line ++ (body ++ 10 ∷ [])) ∷ fgets_lines [] s
unfolding fgets_lines
fgets_lines-line line [] s h l = refl
fgets_lines-line line (c ∷ body) s h l =
    let longer = line ++ c ∷ [] in
    let count = length-append line (c ∷ []) in
    let some_room : (length longer == line_size - 1) ≡ false = ground (arith, count, l) in
    let goes_on : (c == 10 || length longer == line_size - 1) ≡ false = rw (h.0, some_room) refl in
    rw goes_on (
      fgets_lines-line longer body s h.1 (omega (arith, count, l))
      ∙ ap (λ (text : Bytes). text ∷ fgets_lines [] s)
          (append_assoc line (c ∷ []) (body ++ 10 ∷ [])))

-- An entry without the line feed.
abbrev entry_body : Entry → Bytes
entry_body e = e.file ++ b' ' ∷ (digits (suc e.number) e.number ++ b' ' ∷ e.id)

entry_body-then :
    (e : Entry) (s : Bytes)
    → entry_body e ++ s ≡ e.file ++ b' ' ∷ (digits (suc e.number) e.number ++ b' ' ∷ (e.id ++ s))
entry_body-then e s =
    let number = digits (suc e.number) e.number in
    append_assoc e.file (b' ' ∷ (number ++ b' ' ∷ e.id)) s
    ∙ ap (λ (text : Bytes). e.file ++ b' ' ∷ text) (append_assoc number (b' ' ∷ e.id) s)

entry_line-body : (e : Entry) → entry_line e ≡ entry_body e ++ 10 ∷ []
entry_line-body e = sym (entry_body-then e (10 ∷ []))

solid-NoNewline : (s : Bytes) → All (λ c. is_white c ≡ false) s → NoNewline s
solid-NoNewline [] h = tt
solid-NoNewline (c ∷ s) h = (ground (arith, h.0), solid-NoNewline s h.1)

entry_body-NoNewline : (e : Entry) → IsEntry e → NoNewline (entry_body e)
entry_body-NoNewline e h =
    let P = λ (c : ℕ). (c == 10) ≡ false in
    let number = digits (suc e.number) e.number in
    let number_solid = solid-NoNewline number (digits-solid (suc e.number) e.number) in
    All-append P e.file (b' ' ∷ (number ++ b' ' ∷ e.id)) (solid-NoNewline e.file h.file_word.solid)
      (
        refl,
        All-append P number (b' ' ∷ e.id) number_solid (refl, solid-NoNewline e.id h.id_word.solid),
      )

pub fgets_lines-entries :
    (es : List Entry) → All IsEntry es → fgets_lines [] (entries_text es) ≡ map entry_line es
unfolding fgets_lines
fgets_lines-entries [] h = refl
fgets_lines-entries (e ∷ es) (h, hs) =
    let body = entry_body e in
    let rest = entries_text es in
    let count = ap length (entry_line-body e) ∙ length-append body (10 ∷ []) in
    ap (fgets_lines [])
      (ap (λ (text : Bytes). text ++ rest) (entry_line-body e) ∙ append_assoc body (10 ∷ []) rest)
    ∙ fgets_lines-line [] body rest (entry_body-NoNewline e h) (omega (arith, count, h.fits_line))
    ∙ ap (λ (text : Bytes). text ∷ fgets_lines [] rest) (sym (entry_line-body e))
    ∙ ap (◌∷◌ (entry_line e)) (fgets_lines-entries es hs)

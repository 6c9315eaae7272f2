-- ===== src/CaseManager/Typing.antt =====
-- src/atsclnt/caseManager.cpp: which names `CaseManager::getcasetype` gives which type.
use natc.Base.{
  ℕ, ◌+◌, ◌≡◌, refl, ap, sym, ◌∙◌, ◌↔◌, true, false, ◌==◌, [], ◌∷◌, ◌++◌, Bytes, codes, begins,
  begins-split, begins-append, length, length-append, arith, Bool-cases, inl, inr, ==_self, ==→eq,
  ◌≢◌, append-nil,
}
use natc.CaseManager.State.{CaseType, unknown, sql, ts, tl, xml, ends_first, case_type}
use mathlib.Core.Bool.{false≢true}

-- The name ends in the extension, which stands nowhere before.
abbrev pub EndsOnce : Bytes → Bytes → Type 0
EndsOnce name ext =
    ((pre : Bytes) × (name ≡ pre ++ ext)) × ((a b : Bytes) → name ≡ a ++ (ext ++ b) → b ≡ [])

length-zero : (s : Bytes) → length s ≡ 0 → s ≡ []
length-zero [] h = refl
length-zero (c ∷ s) h = absurd (omega (arith, h))

-- An occurrence as long as the whole has nothing behind it.
whole : (s a ext b : Bytes) → length s ≡ length ext → s ≡ a ++ (ext ++ b) → b ≡ []
whole s a ext b l e =
    length-zero b (omega (arith, ap length e, length-append a (ext ++ b), length-append ext b))

tail_of : {c d : ℕ} {s t : Bytes} → c ∷ s ≡ d ∷ t → s ≡ t
tail_of e = cc

ends_first-hit :
    (c : ℕ) (s ext : Bytes)
    → begins ext (c ∷ s) ≡ true
    → ends_first (c ∷ s) ext ≡ (length (c ∷ s) == length ext)
unfolding ends_first
ends_first-hit c s ext h = ground arith

ends_first-miss :
    (c : ℕ) (s ext : Bytes) → begins ext (c ∷ s) ≡ false → ends_first (c ∷ s) ext ≡ ends_first s ext
unfolding ends_first
ends_first-miss c s ext h = ground arith

-- Nothing begins at a first byte where the extension does not.
once-miss :
    (c : ℕ) (s ext : Bytes)
    → begins ext (c ∷ s) ≡ false
    → ((a b : Bytes) → s ≡ a ++ (ext ++ b) → b ≡ [])
    → (a b : Bytes) → c ∷ s ≡ a ++ (ext ++ b)
    → b ≡ []
once-miss c s ext miss once [] b e =
    absurd (false≢true (sym miss ∙ ap (begins ext) e ∙ begins-append ext b))
once-miss c s ext miss once (x ∷ a) b e = once a b (tail_of e)

ends_first→EndsOnce : (name ext : Bytes) → ends_first name ext ≡ true → EndsOnce name ext
unfolding ends_first
ends_first→EndsOnce [] [] h = (([], refl), λ a b e. whole [] a [] b refl e)
ends_first→EndsOnce [] (c ∷ ext) h = cc
ends_first→EndsOnce (c ∷ s) ext h = elim (Bool-cases (begins ext (c ∷ s))) [
  | inl hit ↦
      let (rest, e) = begins-split ext (c ∷ s) hit in
      let l : length (c ∷ s) ≡ length ext = ==→eq _ _ (sym (ends_first-hit c s ext hit) ∙ h) in
      let nothing = whole (c ∷ s) [] ext rest l e in
      (
        ([], e ∙ ap (λ (b : Bytes). ext ++ b) nothing ∙ append-nil ext),
        λ a b e'. whole (c ∷ s) a ext b l e',
      )
  | inr miss ↦
      let ((pre, e), once) = ends_first→EndsOnce s ext (sym (ends_first-miss c s ext miss) ∙ h) in
      ((c ∷ pre, ap (◌∷◌ c) e), once-miss c s ext miss once)
]

-- An extension that a name does not begin with stands behind its first byte.
ends_behind :
    (c : ℕ) (s ext pre : Bytes)
    → begins ext (c ∷ s) ≡ false
    → c ∷ s ≡ pre ++ ext
    → (pre' : Bytes) × (s ≡ pre' ++ ext)
ends_behind c s ext [] miss e =
    absurd
      (false≢true (sym miss ∙ ap (begins ext) (e ∙ sym (append-nil ext)) ∙ begins-append ext []))
ends_behind c s ext (x ∷ pre) miss e = (pre, tail_of e)

EndsOnce→ends_first : (name ext : Bytes) → EndsOnce name ext → ends_first name ext ≡ true
unfolding ends_first
EndsOnce→ends_first [] [] h = refl
EndsOnce→ends_first [] (c ∷ ext) ((pre, e), once) =
    absurd (omega (arith, ap length e, length-append pre (c ∷ ext)))
EndsOnce→ends_first (c ∷ s) ext ((pre, e), once) = elim (Bool-cases (begins ext (c ∷ s))) [
  | inl hit ↦
      let (rest, e') = begins-split ext (c ∷ s) hit in
      let l : length (c ∷ s) ≡ length ext =
        ap length (e' ∙ ap (λ (b : Bytes). ext ++ b) (once [] rest e') ∙ append-nil ext) in
      ends_first-hit c s ext hit ∙ ap (λ (k : ℕ). k == length ext) l ∙ ==_self (length ext)
  | inr miss ↦
      ends_first-miss c s ext miss
      ∙ EndsOnce→ends_first s ext
          (ends_behind c s ext pre miss e, λ a b e'. once (c ∷ a) b (ap (◌∷◌ c) e'))
]

-- The extension of each type.
abbrev pub extension : CaseType → Bytes
extension unknown = []
extension sql = codes ".sql"
extension ts = codes ".ts"
extension tl = codes ".tl"
extension xml = codes ".xml"

-- The last two bytes.
abbrev tail_two : Bytes → Bytes
tail_two [] = []
tail_two (a ∷ []) = a ∷ []
tail_two (a ∷ b ∷ []) = a ∷ b ∷ []
tail_two (a ∷ b ∷ c ∷ s) = tail_two (b ∷ c ∷ s)

-- The sum of the bytes.
abbrev total : Bytes → ℕ
total [] = 0
total (c ∷ s) = c + total s

tail_two-append :
    (pre : Bytes) (a b c : ℕ) (s : Bytes) → tail_two (pre ++ (a ∷ b ∷ c ∷ s)) ≡ tail_two (b ∷ c ∷ s)
tail_two-append [] a b c s = refl
tail_two-append (x ∷ []) a b c s = refl
tail_two-append (x ∷ y ∷ []) a b c s = refl
tail_two-append (x ∷ y ∷ z ∷ pre) a b c s = tail_two-append (y ∷ z ∷ pre) a b c s

-- A type other than `unknown`, and its extension's end.
abbrev ends_as : CaseType → Bytes
ends_as t = tail_two (extension t)

tail_two-type :
    (t : CaseType) (pre : Bytes) → t ≢ unknown → tail_two (pre ++ extension t) ≡ ends_as t
tail_two-type unknown pre h = absurd (h refl)
tail_two-type sql pre h = tail_two-append pre _ _ _ _
tail_two-type ts pre h = tail_two-append pre _ _ _ _
tail_two-type tl pre h = tail_two-append pre _ _ _ _
tail_two-type xml pre h = tail_two-append pre _ _ _ _

-- Two types that fit one name end alike.
ends_alike :
    (name : Bytes) (t t' : CaseType)
    → t ≢ unknown
    → t' ≢ unknown
    → ends_first name (extension t) ≡ true
    → ends_first name (extension t') ≡ true
    → ends_as t ≡ ends_as t'
ends_alike name t t' n n' h h' =
    let ((pre, e), _) = ends_first→EndsOnce name (extension t) h in
    let ((pre', e'), _) = ends_first→EndsOnce name (extension t') h' in
    sym (tail_two-type t pre n) ∙ ap tail_two (sym e ∙ e') ∙ tail_two-type t' pre' n'

differs :
    (name : Bytes) (t t' : CaseType)
    → t ≢ unknown
    → t' ≢ unknown
    → ends_as t ≢ ends_as t'
    → ends_first name (extension t) ≡ true
    → ends_first name (extension t') ≡ false
differs name t t' n n' d h = elim (Bool-cases (ends_first name (extension t'))) [
  | inl both ↦ absurd (d (ends_alike name t t' n n' h both))
  | inr only ↦ only
]

ends_first→case_type :
    (name : Bytes) (t : CaseType)
    → t ≢ unknown
    → ends_first name (extension t) ≡ true
    → case_type name ≡ t
unfolding case_type
ends_first→case_type name unknown n h = absurd (n refl)
ends_first→case_type name ts n h = ground arith
ends_first→case_type name tl n h =
    let a = differs name tl ts n (λ e. cc) (λ e. omega (arith, ap total e)) h in ground arith
ends_first→case_type name sql n h =
    let a = differs name sql ts n (λ e. cc) (λ e. omega (arith, ap total e)) h in
    let b = differs name sql tl n (λ e. cc) (λ e. omega (arith, ap total e)) h in ground arith
ends_first→case_type name xml n h =
    let a = differs name xml ts n (λ e. cc) (λ e. omega (arith, ap total e)) h in
    let b = differs name xml tl n (λ e. cc) (λ e. omega (arith, ap total e)) h in
    let d = differs name xml sql n (λ e. cc) (λ e. omega (arith, ap total e)) h in ground arith

case_type→ends_first :
    (name : Bytes) (t : CaseType)
    → t ≢ unknown
    → case_type name ≡ t
    → ends_first name (extension t) ≡ true
unfolding case_type
case_type→ends_first name unknown n h = absurd (n refl)
case_type→ends_first name sql n h = ground arith
case_type→ends_first name ts n h = ground arith
case_type→ends_first name tl n h = ground arith
case_type→ends_first name xml n h = ground arith

-- A case has a type other than the unknown one exactly when its name ends in the extension of that
-- type and the extension stands nowhere earlier in the name.
pub case_type_iff :
    (name : Bytes) (t : CaseType) → t ≢ unknown → (case_type name ≡ t) ↔ EndsOnce name (extension t)
case_type_iff name t n = (
  λ h. ends_first→EndsOnce name (extension t) (case_type→ends_first name t n h),
  λ h. ends_first→case_type name t n (EndsOnce→ends_first name (extension t) h),
)

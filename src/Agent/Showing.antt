-- ===== src/Agent/Showing.antt =====
-- src/ats2/serviceManager.cpp: what a request for the status reads.
use natc.Base.{
  ℕ, ◌<◌, ◌≡◌, refl, ap, ◌∙◌, Bool, true, false, ◌==◌, if◌then◌else◌, List, [], ◌∷◌, ◌++◌, Option,
  none, some, Bytes, arith, update, Bool-cases, inl, inr, if-both, ==→eq, ==_self,
}
use natc.Agent.Services.{
  Services, Mutex, StatusReply, shown, freed_read, show_all, handle_status, RunAnswers, RunReply,
  delete, begin_run, end_run, exception,
}
use natc.Agent.Requests.{begin_run-with, end_run-join}
use natc.Agent.Tracking.{count, one_if, IsTracked, State, Reach, Reach-IsTracked, count-append}

-- The status of each servicer, one to a line.
abbrev pub status_texts : (ℕ → Bytes) → List ℕ → Bytes
status_texts status [] = []
status_texts status (i ∷ is) = status i ++ (10 ∷ status_texts status is)

-- Where all that is listed is allocated, the loop of `handleStatus` shows it.
show_all-shown :
    (status : ℕ → Bytes) (live : ℕ → Bool) (is : List ℕ)
    → ((i : ℕ) → 0 < count i is → live i ≡ true)
    → show_all status live is ≡ some (status_texts status is)
unfolding show_all
show_all-shown status live [] h = refl
show_all-shown status live (i ∷ is) h =
    let e = show_all-shown status live is (λ j l. h j (ground (arith, l))) in
    let alive : live i ≡ true = h i (ground (arith, ==_self i)) in
    let step = λ (o : Option Bytes). elim o as (λ _. Option Bytes) [
      | none ↦ none
      | some text ↦ some (status i ++ (10 ∷ text))
    ] in
    ap (λ (b : Bool). if b then step (show_all status live is) else none) alive ∙ ap step e

abbrev pub none_running : State
none_running = (λ _. false, record { list = []; live = λ _. false; locked = false })

-- A mutex that answers.
abbrev pub sound : Mutex
sound = record { lock = true; unlock = true }

live_of_listed :
    (w : ℕ → Bool) (s : Services) (i : ℕ) → IsTracked w s → 0 < count i s.list → s.live i ≡ true
live_of_listed w s i h l = h.allocated i ∙ elim (Bool-cases (w i)) [
  | inl waits ↦ waits
  | inr idle ↦ absurd (omega (arith, l, h.listed i ∙ ap one_if idle))
]

-- From no request, by any sequence of requests that begin and end, with the mutex, `start` and
-- `pthread_join` doing what they are asked and the other calls failing at will: the list holds the
-- servicers of the requests that wait, each once, and no others; these and no others are allocated; and
-- a request for the status is answered with the status of each of them, in the order of the list and one
-- to a line.
pub Reach-shown :
    (t : State) (status : ℕ → Bytes)
    → Reach none_running t
    → IsTracked t.0 t.1
      × ((handle_status sound status t.1).1 ≡ shown (status_texts status (t.1).list))
unfolding handle_status
Reach-shown t status r =
    let h : IsTracked t.0 t.1 =
      Reach-IsTracked (record { listed = λ i. refl; allocated = λ i. refl }) r in
    let e = show_all-shown status t.1.live t.1.list (λ i l. live_of_listed t.0 t.1 i h l) in
    (
      h,
      ap
          (λ (o : Option Bytes). elim o as (λ _. StatusReply) [
            | none ↦ freed_read
            | some text ↦ shown text
          ])
          e,
    )

-- One servicer that is listed and not allocated is enough.
show_all-none :
    (status : ℕ → Bytes) (live : ℕ → Bool) (is : List ℕ) (i : ℕ)
    → 0 < count i is
    → live i ≡ false
    → show_all status live is ≡ none
unfolding show_all
show_all-none status live [] i l h = absurd (omega (arith, l))
show_all-none status live (j ∷ is) i l h =
    let rest = show_all status live is in
    let step = λ (o : Option Bytes). elim o as (λ _. Option Bytes) [
      | none ↦ none
      | some text ↦ some (status j ++ (10 ∷ text))
    ] in
    let choose = λ (b : Bool). if b then step rest else none in
    elim (Bool-cases (j == i)) [
      | inl hit ↦ ap choose (ap live (==→eq j i hit) ∙ h)
      | inr miss ↦
          let behind : 0 < count i is = ground (arith, l) in
          if-both (λ (o : Option Bytes). o ≡ none) (live j) _ _
            (λ _. ap step (show_all-none status live is i behind h)) (λ _. refl)
    ]

freed :
    (status : ℕ → Bytes) (s : Services) (i : ℕ)
    → 0 < count i s.list
    → s.live i ≡ false
    → (handle_status sound status s).1 ≡ freed_read
unfolding handle_status
freed status s i l h =
    ap
      (λ (o : Option Bytes). elim o as (λ _. StatusReply) [
        | none ↦ freed_read
        | some text ↦ shown text
      ])
      (show_all-none status s.live s.list i l h)

-- A request whose servicer is allocated, set up and put into the list, and whose `start` then fails, is
-- answered with an exception: its servicer is deleted and stays in the list, so that the next request for
-- the status reads memory that is not allocated.
pub begin_run-freed_read :
    (a : RunAnswers) (i : ℕ) (s : Services) (status : ℕ → Bytes)
    → a.allocated ≡ true
    → a.initialized ≡ true
    → a.adding ≡ sound
    → a.started ≡ false
    → ((begin_run a i s).1 ≡ some (exception 4))
      × ((handle_status sound status (begin_run a i s).0).1 ≡ freed_read)
begin_run-freed_read a i s status made init adds fails =
    let s2 = record s { list = s.list ++ i ∷ []; live = update s.live i true; locked = false } in
    let path : begin_run a i s ≡ (delete i s2, some (exception 4)) =
      begin_run-with a i s (ap (λ (x : Mutex). x.lock) adds) (ap (λ (x : Mutex). x.unlock) adds)
      ∙ rw (made, init, fails) refl in
    let in_list : 0 < count i (s.list ++ i ∷ []) =
      ground (arith, count-append i i s.list, ==_self i) in
    (
      ap (λ (r : Services × Option RunReply). r.1) path,
      ap (λ (r : Services × Option RunReply). (handle_status sound status r.0).1) path
          ∙ freed status (delete i s2) i in_list (ground (arith, ==_self i)),
    )

-- The same where `pthread_join` fails while the servicer is in the list.
pub end_run-freed_read :
    (a : RunAnswers) (i : ℕ) (s : Services) (status : ℕ → Bytes)
    → 0 < count i s.list
    → a.joined ≡ false
    → ((end_run a i s).1 ≡ exception 5)
      × ((handle_status sound status (end_run a i s).0).1 ≡ freed_read)
end_run-freed_read a i s status l fails =
    let path = end_run-join a i s fails in
    (
      ap (λ (r : Services × RunReply). r.1) path,
      ap (λ (r : Services × RunReply). (handle_status sound status r.0).1) path
          ∙ freed status (delete i s) i l (ground (arith, ==_self i)),
    )

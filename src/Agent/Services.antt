-- ===== src/Agent/Services.antt =====
-- src/ats2/serviceManager.cpp: the list of running requests.
use natc.Base.{
  ℕ, Bool, true, false, ◌==◌, not, if◌then◌else◌, List, [], ◌∷◌, ◌++◌, Option, none, some, Bytes,
  update,
}

-- `mServicerList`, as the places of its servicers in the store, which servicers are allocated, and the
-- mutex.
pub record Services : Type 0 where
  pub list : List ℕ
  pub live : ℕ → Bool
  pub locked : Bool

-- What the calls of the mutex answer, true for 0.
pub record Mutex : Type 0 where
  pub lock : Bool
  pub unlock : Bool

-- `lock`, the work and `unlock`; the flag is true for IDE_SUCCESS. Where the mutex is not given back it
-- stays taken.
abbrev pub under_lock : Mutex → (Services → Services) → Services → Services × Bool
under_lock x work s =
    let s' = work (record s { locked = true }) in
    if x.lock
    then (if x.unlock then (record s' { locked = false }, true) else (s', false))
    else (s, false)

abbrev pub erase : ℕ → List ℕ → List ℕ
erase i [] = []
erase i (j ∷ js) = if j == i then js else j ∷ erase i js

-- `addService`.
unfoldable pub add_service : Mutex → ℕ → Services → Services × Bool
add_service x i = under_lock x (λ s. record s { list = s.list ++ i ∷ [] })

-- `rmService`.
unfoldable pub rm_service : Mutex → ℕ → Services → Services × Bool
rm_service x i = under_lock x (λ s. record s { list = erase i s.list })

-- What `handleStatus` answers: the texts of the servicers, or it reads one that is not allocated, or a
-- null result where the mutex fails.
pub data StatusReply : Type 0 where
  shown : Bytes → StatusReply
  freed_read null_read : StatusReply

-- The loop over the list; `status` is `Servicer::status`.
unfoldable pub show_all : (ℕ → Bytes) → (ℕ → Bool) → List ℕ → Option Bytes
show_all status live [] = some []
show_all status live (i ∷ is) =
    let rest = show_all status live is in
    if live i then elim rest [ none ↦ none | some text ↦ some (status i ++ (10 ∷ text)) ] else none

-- `handleStatus`.
unfoldable pub handle_status : Mutex → (ℕ → Bytes) → Services → Services × StatusReply
unfolding show_all
handle_status x status s =
    let (s', done) = under_lock x (λ s. s) s in
    let read : StatusReply = elim (show_all status s.live s.list) [
      | none ↦ freed_read
      | some text ↦ if done then shown text else null_read
    ] in
    (s', if x.lock then read else null_read)

-- What the calls of one `handleRun` answer: `new`, `Servicer::initialize`, `start`, `pthread_join` and
-- `Servicer::destroy`, and the mutex in `addService` and `rmService`.
pub record RunAnswers : Type 0 where
  pub allocated : Bool
  pub initialized : Bool
  pub adding : Mutex
  pub started : Bool
  pub joined : Bool
  pub removing : Mutex
  pub destroyed : Bool

-- The reply: the servicer's message, or the number of the exception.
pub data RunReply : Type 0 where
  message : RunReply
  exception : ℕ → RunReply

-- `delete sServicer`.
abbrev pub delete : ℕ → Services → Services
delete i s = record s { live = update s.live i false }

-- `handleRun` up to `pthread_join`: it waits for the servicer, or has replied.
unfoldable pub begin_run : RunAnswers → ℕ → Services → Services × Option RunReply
unfolding add_service
begin_run a i s =
    let s1 = record s { live = update s.live i true } in
    let (s2, added) = add_service a.adding i s1 in
    if not a.allocated
    then (s, some (exception 1))
    else if not a.initialized
    then (delete i s1, some (exception 2))
    else if not added
    then (delete i s2, some (exception 3))
    else if not a.started
    then (delete i s2, some (exception 4))
    else (s2, none)

-- `handleRun` from the end of `pthread_join` on.
unfoldable pub end_run : RunAnswers → ℕ → Services → Services × RunReply
unfolding rm_service
end_run a i s =
    let (s', removed) = rm_service a.removing i s in
    if not a.joined
    then (delete i s, exception 5)
    else if not removed
    then (delete i s', exception 6)
    else if not a.destroyed
    then (delete i s', exception 7)
    else (delete i s', message)

-- `handleRun`; `others` is what other requests do while it waits.
unfoldable pub handle_run : RunAnswers → ℕ → (Services → Services) → Services → Services × RunReply
unfolding begin_run end_run
handle_run a i others s =
    let (s', reply) = begin_run a i s in
    elim reply [ none ↦ end_run a i (others s') | some r ↦ (s', r) ]

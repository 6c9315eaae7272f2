-- ===== src/Agent/Requests.antt =====
-- src/ats2/serviceManager.cpp: the parts of `handleRun`, for a mutex that answers.
use natc.Base.{
  ℕ, ◌≡◌, refl, ap, Bool, true, false, not, if◌then◌else◌, [], ◌∷◌, ◌++◌, Option, none, some,
  update,
}
use natc.Agent.Services.{
  Services, Mutex, under_lock, erase, add_service, rm_service, RunAnswers, RunReply, delete,
  begin_run, end_run, exception, message,
}

-- With a mutex that answers, the work is done and the mutex given back.
under_lock_lem :
    (x : Mutex) (work : Services → Services) (s : Services)
    → x.lock ≡ true
    → x.unlock ≡ true
    → under_lock x work s ≡ (record (work (record s { locked = true })) { locked = false }, true)
under_lock_lem x work s l u = rw (l, u) refl

-- `begin_run` and `end_run` by what `addService` and `rmService` give.
abbrev pub begin_with : RunAnswers → ℕ → Services → Services × Bool → Services × Option RunReply
begin_with a i s r =
    if not a.allocated
    then (s, some (exception 1))
    else if not a.initialized
    then (delete i (record s { live = update s.live i true }), some (exception 2))
    else if not r.1
    then (delete i r.0, some (exception 3))
    else if not a.started
    then (delete i r.0, some (exception 4))
    else (r.0, none)

abbrev pub end_with : RunAnswers → ℕ → Services → Services × Bool → Services × RunReply
end_with a i s r =
    if not a.joined
    then (delete i s, exception 5)
    else if not r.1
    then (delete i r.0, exception 6)
    else if not a.destroyed
    then (delete i r.0, exception 7)
    else (delete i r.0, message)

pub begin_run-with :
    (a : RunAnswers) (i : ℕ) (s : Services)
    → a.adding.lock ≡ true
    → a.adding.unlock ≡ true
    → begin_run a i s
      ≡ begin_with a i s
          (record s { list = s.list ++ i ∷ []; live = update s.live i true; locked = false }, true)
unfolding begin_run add_service
begin_run-with a i s l u =
    let s1 = record s { live = update s.live i true } in
    ap (begin_with a i s)
      (under_lock_lem a.adding (λ s. record s { list = s.list ++ i ∷ [] }) s1 l u)

pub end_run-with :
    (a : RunAnswers) (i : ℕ) (s : Services)
    → a.removing.lock ≡ true
    → a.removing.unlock ≡ true
    → end_run a i s ≡ end_with a i s (record s { list = erase i s.list; locked = false }, true)
unfolding end_run rm_service
end_run-with a i s l u =
    ap (end_with a i s) (under_lock_lem a.removing (λ s. record s { list = erase i s.list }) s l u)

pub end_run-join :
    (a : RunAnswers) (i : ℕ) (s : Services)
    → a.joined ≡ false
    → end_run a i s ≡ (delete i s, exception 5)
unfolding end_run
end_run-join a i s fails =
    let r = rm_service a.removing i s in
    ap
      (λ (b : Bool).
        if not b
        then (delete i s, exception 5)
        else if not r.1
        then (delete i r.0, exception 6)
        else if not a.destroyed
        then (delete i r.0, exception 7)
        else (delete i r.0, message))
      fails

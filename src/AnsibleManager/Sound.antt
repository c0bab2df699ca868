-- ===== src/AnsibleManager/Sound.antt =====
-- What the goroutines of internal/ansible/ansible_manager.go have done when one of them returns.
use flotta_device_worker.Prelude.{
  ℕ, ◌≡◌, ◌≢◌, refl, ◌∙◌, sym, ap, Bool, true, false, Option, none, some, String, lookup,
  lookup-insert_self, string_eq, arith,
}
use mathlib.Core.Path.{subst}
use flotta_device_worker.AnsibleMapping.{
  Repository, Persist, not_marshalled, not_written, is_written, persist, exists, get_status,
  update_status, remove,
}
use flotta_device_worker.AnsibleManager.Handle.{
  Outside, Launch, State, successfully_completed, completed_with_error,
}
use flotta_device_worker.AnsibleManager.Execute.{
  Failure, already_running, not_read, not_updated, not_parsed, run_failed, After, returns, runs_on,
  parses_on, Pc, checks, reads, marks, runs, ended, reports, parses, removes, hands, sends, Handler,
  waiting, timed_out, returned, System, launched, follow, status_of, failure_of, is_taken, check,
  mark, report, forget, hand_over, complete, Step, checked, read, unreadable, marked, ran, reported,
  parsed, unparsable, handed, removed, completed, times_out, elsewhere, Steps, here, later,
}

-- The status of the playbook and how often it was run, by what was sent last on `executionCompleted`.
abbrev pub Agrees : Option Failure → Option String → ℕ → Type 0
Agrees none status n = (status ≡ some successfully_completed) × (n ≡ 1)
Agrees (some run_failed) status n = (status ≡ some completed_with_error) × (n ≡ 1)
Agrees (some not_parsed) status n = (done : Bool) × (status ≡ some (status_of done)) × (n ≡ 1)
Agrees (some not_read) status n = (status ≡ some "Deploying") × (n ≡ 0)
Agrees (some already_running) status n = ⊥
Agrees (some not_updated) status n = ⊥

abbrev pub NotReturned : Handler → Type 0
NotReturned waiting = Unit
NotReturned timed_out = Unit
NotReturned (returned _) = ⊥

-- By where the goroutine stands: the status, the number of runs, and whether `HandlePlaybook` waits.
abbrev pub IsAt : Pc → Option String → ℕ → Handler → Type 0
IsAt checks status n h = (status ≡ some "Deploying") × (n ≡ 0) × NotReturned h
IsAt reads status n h = (status ≡ some "Deploying") × (n ≡ 0) × NotReturned h
IsAt marks status n h = (status ≡ some "Deploying") × (n ≡ 0) × NotReturned h
IsAt runs status n h = (status ≡ some "Running") × (n ≡ 0) × NotReturned h
IsAt (reports done) status n h = (status ≡ some "Running") × (n ≡ 1) × NotReturned h
IsAt (parses done) status n h = (status ≡ some (status_of done)) × (n ≡ 1) × NotReturned h
IsAt (hands r done) status n h = (status ≡ some (status_of done)) × (n ≡ 1) × NotReturned h
IsAt (removes done) status n h = (status ≡ some (status_of done)) × (n ≡ 1) × NotReturned h
IsAt (sends f returns) status n h = Agrees f status n × NotReturned h
IsAt (sends f runs_on) status n h = ⊥
IsAt (sends f (parses_on done)) status n h = ⊥
IsAt ended status n h = (f : Option Failure) × (h ≡ returned f) × Agrees f status n

abbrev pub IsSound : String → System → Type 0
IsSound name s = IsAt s.executor (lookup name s.repository.name_status) s.playbook_runs s.handler

update_status_known :
    (name status old : String) (m : Repository)
    → lookup name m.name_status ≡ some old
    → ((update_status name status m).0 ≡ none)
      × (lookup name (update_status name status m).1.name_status ≡ some status)
unfolding update_status
update_status_known name status old m e = rw e (refl, lookup-insert_self name status m.name_status)

pub persist-name_status :
    (p : Persist) (m : Repository) → (persist p m).1.name_status ≡ m.name_status
unfolding persist
persist-name_status not_marshalled m = refl
persist-name_status (not_written left) m = refl
persist-name_status is_written m = refl

remove-name_status :
    (p : Persist) (path : String) (m : Repository) → (remove p path m).1.name_status ≡ m.name_status
unfolding remove
remove-name_status p path m = persist-name_status p _

not_taken :
    (name : String) (m : Repository)
    → lookup name m.name_status ≡ some "Deploying"
    → is_taken name m ≡ false
unfolding is_taken exists get_status
not_taken name m e = rw e refl

module _ (out : Outside) (launch : Launch) where
  -- What holds by where the goroutine stands, given that place.
  pub here-IsAt :
      (s : System) {pc : Pc}
      → s.executor ≡ pc
      → IsSound launch.pe_name s
      → IsAt pc (lookup launch.pe_name s.repository.name_status) s.playbook_runs s.handler
  here-IsAt s e h =
      subst
        (λ pc. IsAt pc (lookup launch.pe_name s.repository.name_status) s.playbook_runs s.handler) e
        h

  complete-IsSound :
      (s : System) (f : Option Failure) (after : After)
      → IsAt
          (sends f after)
          (lookup launch.pe_name s.repository.name_status)
          s.playbook_runs
          s.handler
      → IsSound launch.pe_name (complete out launch f after s)
  unfolding complete follow
  complete-IsSound s f returns h = (f, refl, h.0)
  complete-IsSound s f runs_on h = absurd h
  complete-IsSound s f (parses_on done) h = absurd h

  forget-Agrees :
      (done : Bool) (status : Option String) (n : ℕ)
      → status ≡ some (status_of done)
      → n ≡ 1
      → Agrees (failure_of done) status n
  forget-Agrees true status n e f = (e, f)
  forget-Agrees false status n e f = (e, f)

  timed_out-IsAt :
      (pc : Pc) (status : Option String) (n : ℕ)
      → IsAt pc status n waiting
      → IsAt pc status n timed_out
  timed_out-IsAt checks status n h = h
  timed_out-IsAt reads status n h = h
  timed_out-IsAt marks status n h = h
  timed_out-IsAt runs status n h = h
  timed_out-IsAt (reports done) status n h = h
  timed_out-IsAt (parses done) status n h = h
  timed_out-IsAt (hands r done) status n h = h
  timed_out-IsAt (removes done) status n h = h
  timed_out-IsAt (sends f returns) status n h = h
  timed_out-IsAt (sends f runs_on) status n h = h
  timed_out-IsAt (sends f (parses_on done)) status n h = h
  timed_out-IsAt ended status n (f, e, h) = absurd (cc e)

  Step-IsSound :
      {s t : System} → Step out launch s t → IsSound launch.pe_name s → IsSound launch.pe_name t
  unfolding check mark report forget hand_over
  Step-IsSound {s} (checked e) h =
      let (a, b, c) = here-IsAt s e h in rw (not_taken launch.pe_name s.repository a) (a, b, c)
  Step-IsSound {s} (read e) h = here-IsAt s e h
  Step-IsSound {s} (unreadable e) h = let (a, b, c) = here-IsAt s e h in ((a, b), c)
  Step-IsSound {s} (marked e) h =
      let (a, b, c) = here-IsAt s e h in
      let (d, f) = update_status_known launch.pe_name "Running" "Deploying" s.repository a in
      rw d (f, b, c)
  Step-IsSound {s} (ran done e) h = let (a, b, c) = here-IsAt s e h in (a, omega (arith, b), c)
  Step-IsSound {s} (reported done e) h =
      let (a, b, c) = here-IsAt s e h in
      let (d, f) = update_status_known launch.pe_name (status_of done) "Running" s.repository a in
      rw d (f, b, c)
  Step-IsSound {s} (parsed done results e) h = here-IsAt s e h
  Step-IsSound {s} (unparsable done e) h = let (a, b, c) = here-IsAt s e h in ((done, a, b), c)
  Step-IsSound {s} (handed results done e w) h = here-IsAt s e h
  Step-IsSound {s} (removed p done e) h =
      let (a, b, c) = here-IsAt s e h in
      (
        forget-Agrees done _ _
            (ap (λ m. lookup launch.pe_name m)
                (remove-name_status p (out.path_of launch.playbook) s.repository)
              ∙ a)
            b,
        c,
      )
  Step-IsSound {s} (completed f after e w) h = complete-IsSound s f after (here-IsAt s e h)
  Step-IsSound {s} (times_out w) h = timed_out-IsAt s.executor _ _ (
      subst
        (λ x. IsAt s.executor (lookup launch.pe_name s.repository.name_status) s.playbook_runs x) w
        h)
  Step-IsSound {s} (elsewhere m e) h =
      subst (λ x. IsAt s.executor x s.playbook_runs s.handler) (sym e) h

  -- Whatever the two do after a launch, and whatever fails: when `HandlePlaybook` returns without a
  -- time-out, the status of the playbook and the number of its runs are those that the value sent
  -- last tells, and the goroutine returns only after that.
  pub Steps-IsSound :
      {s : State} {t : System}
      → lookup launch.pe_name s.repository.name_status ≡ some "Deploying"
      → Steps out launch (launched s) t
      → IsSound launch.pe_name t
  Steps-IsSound e here = (e, refl, tt)
  Steps-IsSound e (later r st) = Step-IsSound st (Steps-IsSound e r)

  timed_out-ne-ended :
      (t : System) → IsSound launch.pe_name t → t.handler ≡ timed_out → t.executor ≢ ended
  timed_out-ne-ended t h w e = let (f, back, _) = here-IsAt t e h in cc (back, w)

  Step-timed_out :
      {s t : System} → Step out launch s t → s.handler ≡ timed_out → t.handler ≡ timed_out
  unfolding check mark report forget hand_over
  Step-timed_out (checked e) w = w
  Step-timed_out (read e) w = w
  Step-timed_out (unreadable e) w = w
  Step-timed_out (marked e) w = w
  Step-timed_out (ran done e) w = w
  Step-timed_out (reported done e) w = w
  Step-timed_out (parsed done results e) w = w
  Step-timed_out (unparsable done e) w = w
  Step-timed_out (handed results done e x) w = w
  Step-timed_out (removed p done e) w = w
  Step-timed_out (completed f after e x) w = cc (x, w)
  Step-timed_out (times_out x) w = refl
  Step-timed_out (elsewhere m e) w = w

  Steps-timed_out :
      {t u : System}
      → IsSound launch.pe_name t
      → t.handler ≡ timed_out
      → Steps out launch t u
      → IsSound launch.pe_name u × (u.handler ≡ timed_out)
  Steps-timed_out h w here = (h, w)
  Steps-timed_out h w (later r st) =
      let (k, x) = Steps-timed_out h w r in (Step-IsSound st k, Step-timed_out st x)

  -- After a time-out the goroutine never returns: what it sends at last is taken by nobody.
  pub Steps-ne-ended :
      {s : State} {t u : System}
      → lookup launch.pe_name s.repository.name_status ≡ some "Deploying"
      → Steps out launch (launched s) t
      → t.handler ≡ timed_out
      → Steps out launch t u
      → u.executor ≢ ended
  Steps-ne-ended {u} e r w more =
      let (h, x) = Steps-timed_out (Steps-IsSound e r) w more in timed_out-ne-ended u h x

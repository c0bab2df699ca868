-- ===== src/AnsibleManager/Progress.antt =====
-- That `HandlePlaybook` of internal/ansible/ansible_manager.go does not wait for ever.
use flotta_device_worker.Prelude.{
  ℕ, ◌<◌, ◌≡◌, refl, true, Option, none, some, lookup, string_eq, arith, inl, inr, Bool-cases,
}
use flotta_device_worker.AnsibleMapping
use flotta_device_worker.AnsibleMapping.{not_marshalled, update_status}
use flotta_device_worker.AnsibleManager.Handle.{Outside, Launch, State}
use flotta_device_worker.AnsibleManager.Execute.{
  Failure, not_updated, After, returns, runs_on, parses_on, Pc, checks, reads, marks, runs, ended,
  reports, parses, removes, hands, sends, waiting, System, launched, follow, unless, status_of,
  is_taken, check, mark, report, forget, hand_over, complete, Step, checked, read, unreadable,
  marked, ran, reported, parsed, unparsable, handed, removed, completed, times_out, elsewhere,
  Steps,
}
use flotta_device_worker.AnsibleManager.Sound.{IsSound, here-IsAt, Steps-IsSound}

-- A step of the goroutine, alone or with `HandlePlaybook`.
abbrev pub IsOwn : {out : Outside} {launch : Launch} {s t : System} → Step out launch s t → Type 0
IsOwn (times_out _) = ⊥
IsOwn (elsewhere _ _) = ⊥
IsOwn _ = Unit

-- How many steps the goroutine has left at most.
abbrev pub steps_left : Pc → ℕ
steps_left checks = 12
steps_left reads = 11
steps_left marks = 10
steps_left (sends _ runs_on) = 9
steps_left runs = 8
steps_left (reports _) = 7
steps_left (sends _ (parses_on _)) = 6
steps_left (parses _) = 5
steps_left (hands _ _) = 4
steps_left (removes _) = 3
steps_left (sends _ returns) = 2
steps_left ended = 0

unless-lt :
    (failed : Option AnsibleMapping.Err) (after : After) (next : Pc) (n : ℕ)
    → ((f : Option Failure) → steps_left (sends f after) < n)
    → steps_left next < n
    → steps_left (unless failed after next) < n
unless-lt none after next n h k = k
unless-lt (some e) after next n h k = h (some not_updated)

follow-lt :
    (f : Option Failure) (after : After) → steps_left (follow after) < steps_left (sends f after)
unfolding follow
follow-lt f returns = omega arith
follow-lt f runs_on = omega arith
follow-lt f (parses_on done) = omega arith

module _ (out : Outside) (launch : Launch) where
  Step-lt :
      {s t : System}
      → (st : Step out launch s t) → IsOwn st
      → steps_left t.executor < steps_left s.executor
  unfolding check mark report forget hand_over complete
  Step-lt {s} (checked e) own = rw e (elim (Bool-cases (is_taken launch.pe_name s.repository)) [
    | inl taken ↦ rw taken (omega arith)
    | inr free ↦ rw free (omega arith)
  ])
  Step-lt (read e) own = rw e (omega arith)
  Step-lt (unreadable e) own = rw e (omega arith)
  Step-lt {s} (marked e) own = rw e (
      unless-lt (update_status launch.pe_name "Running" s.repository).0 runs_on runs 10
        (λ f. omega arith) (omega arith))
  Step-lt (ran done e) own = rw e (omega arith)
  Step-lt {s} (reported done e) own = rw e (
      unless-lt (update_status launch.pe_name (status_of done) s.repository).0 (parses_on done)
        (parses done) 7 (λ f. omega arith) (omega arith))
  Step-lt (parsed done results e) own = rw e (omega arith)
  Step-lt (unparsable done e) own = rw e (omega arith)
  Step-lt (handed results done e w) own = rw e (omega arith)
  Step-lt (removed p done e) own = rw e (omega arith)
  Step-lt (completed f after e w) own = rw e (follow-lt f after)
  Step-lt (times_out w) own = absurd own
  Step-lt (elsewhere m e) own = absurd own

  abbrev pub CanStep : System → Type 0
  CanStep s = (t : System) × (st : Step out launch s t) × IsOwn st

  can_step :
      (s : System) (pc : Pc)
      → s.executor ≡ pc
      → s.handler ≡ waiting
      → IsSound launch.pe_name s
      → CanStep s
  can_step s checks e w h = (_, checked e, tt)
  can_step s reads e w h = (_, read e, tt)
  can_step s marks e w h = (_, marked e, tt)
  can_step s runs e w h = (_, ran true e, tt)
  can_step s (reports done) e w h = (_, reported done e, tt)
  can_step s (parses done) e w h = (_, unparsable done e, tt)
  can_step s (hands r done) e w h = (_, handed r done e w, tt)
  can_step s (removes done) e w h = (_, removed not_marshalled done e, tt)
  can_step s (sends f after) e w h = (_, completed f after e w, tt)
  can_step s ended e w h = let (f, back, _) = here-IsAt out launch s e h in absurd (cc (back, w))

  -- While `HandlePlaybook` waits, the goroutine can take a step, and each of its steps leaves it fewer
  -- to take, of 12 at first; so without a time-out `HandlePlaybook` returns, whatever fails.
  pub Steps-CanStep :
      {s : State} {t : System}
      → lookup launch.pe_name s.repository.name_status ≡ some "Deploying"
      → Steps out launch (launched s) t
      → t.handler ≡ waiting
      → CanStep t
        × ((u : System) (st : Step out launch t u)
            → IsOwn st
            → steps_left u.executor < steps_left t.executor)
  Steps-CanStep {t} e r w =
      (can_step t t.executor refl w (Steps-IsSound out launch e r), λ u st own. Step-lt st own)

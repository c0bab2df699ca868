-- ===== src/AnsibleManager/Once.antt =====
-- That `HandlePlaybook` of internal/ansible/ansible_manager.go runs no playbook again that it ran to its
-- end.
use flotta_device_worker.Prelude.{
  ℕ, ◌≡◌, ◌≢◌, refl, ◌∙◌, ap, ◌⊎◌, inl, inr, Bool, true, false, Option, none, some, String, lookup,
  lookup-insert_self, string_eq, ◌==◌, Bool-cases, Option-cases, if◌then◌else◌,
}
use flotta_device_worker.Prelude.Action.{Result, ok, err, >>=-post}
use flotta_device_worker.AnsibleMapping
use flotta_device_worker.AnsibleMapping.{Repository, Persist, add, exists, get_status}
use flotta_device_worker.AnsibleManager.Handle.{
  Request, Outside, Refusal, State, Launch, empty_message, not_created, guard,
  crc_dispatcher_attribute, return_url_attribute, playbook_yaml_file, not_failed, required, prepare,
  is_executed, announce, stat, not_executed, add_to_repository, handle_playbook,
  completed_with_error, successfully_completed,
}
use mathlib.Core.Path.{subst}
use flotta_device_worker.PlaybookEvents.Message.{Dispatcher}
use flotta_device_worker.AnsibleManager.Execute.{
  Failure, run_failed, Handler, returned, Pc, checks, reads, marks, runs, ended, reports, parses,
  removes, hands, sends, returns, runs_on, parses_on, System, launched, Steps,
}
use flotta_device_worker.AnsibleManager.Sound.{
  persist-name_status, IsSound, IsAt, Agrees, Steps-IsSound,
}

-- What a refusal leaves, and what a launch promises: the playbook was not run to its end before, and
-- its status is the first one.
abbrev pub Launches : Request → State → Result Refusal Launch → State → Type 0
Launches r before (err _) s = Unit
Launches r before (ok l) s =
    (is_executed r.pe_name before.repository ≡ false)
    × (l.pe_name ≡ r.pe_name)
    × (lookup r.pe_name s.repository.name_status ≡ some "Deploying")

guard-state : (b : Bool) (refusal : Refusal) (s : State) → (guard b refusal s).1 ≡ s
guard-state true refusal s = refl
guard-state false refusal s = refl

not_executed-state : (out : Outside) (name : String) (s : State) → (not_executed out name s).1 ≡ s
unfolding not_executed
not_executed-state out name s = elim (Bool-cases (is_executed name s.repository)) [
  | inl e ↦ rw e refl
  | inr e ↦ rw e refl
]

not_executed-ok :
    (out : Outside) (name : String) (s : State) (a : Unit {0})
    → (not_executed out name s).0 ≡ ok a
    → is_executed name s.repository ≡ false
unfolding not_executed
not_executed-ok out name s a = elim (Bool-cases (is_executed name s.repository)) [
  | inl e ↦ rw e (λ x. cc x)
  | inr e ↦ λ x. e
]

stat-state : (out : Outside) (s : State) → (stat out s).1 ≡ s
unfolding stat
stat-state out s = elim (Option-cases out.mod_time) [
  | inl e ↦ rw e refl
  | inr (time, e) ↦ rw e refl
]

add-ok :
    (stored : Bool) (p : Persist) (name path : String) (time : ℕ) (m : Repository)
    → (add stored p name path time "Deploying" m).0 ≡ none
    → lookup name (add stored p name path time "Deploying" m).1.name_status ≡ some "Deploying"
unfolding add
add-ok false p name path time m e = cc e
add-ok true p name path time m e =
    ap (λ x. lookup name x) (persist-name_status p _)
    ∙ lookup-insert_self name "Deploying" m.name_status

not_failed-ok :
    (out : Outside) (failed : Option AnsibleMapping.Err) (a : Unit {0})
    → not_failed out failed ≡ ok a
    → failed ≡ none
not_failed-ok out none a e = refl
not_failed-ok out (some x) a e = cc e

add_to_repository-ok :
    (out : Outside) (name file : String) (time : ℕ) (s : State) (a : Unit {0})
    → (add_to_repository out name file time s).0 ≡ ok a
    → lookup name (add_to_repository out name file time s).1.repository.name_status
      ≡ some "Deploying"
unfolding add_to_repository
add_to_repository-ok out name file time s a e =
    add-ok out.stores out.persists name (out.path_of file) time s.repository
      (not_failed-ok out _ a e)

module _ (out : Outside) (r : Request) (before : State) where
  abbrev Promised : Result Refusal Launch → State → Type 0
  Promised = Launches r before

  prepare-Launches :
      (correlation_id return_url : String) (s : State)
      → s.repository ≡ before.repository
      → let done = prepare out r correlation_id return_url s in Promised done.0 done.1
  unfolding prepare
  prepare-Launches correlation_id return_url s same =
      >>=-post Promised (stat out) _ s (λ e f. tt)
        (λ time f. rw (stat-state out s) (
          >>=-post Promised (not_executed out r.pe_name) _ s (λ e g. tt)
            (λ a g. rw (not_executed-state out r.pe_name s) (
              >>=-post Promised
                (add_to_repository out r.pe_name (playbook_yaml_file r.message_id) time) _ s
                (λ e h. tt)
                (λ b h. (
                  rw (← same) (not_executed-ok out r.pe_name s a g),
                  refl,
                  add_to_repository-ok out r.pe_name (playbook_yaml_file r.message_id) time s b h,
                ))))))

  handle_playbook-Launches :
      Promised (handle_playbook out r before).0 (handle_playbook out r before).1
  unfolding handle_playbook required announce
  handle_playbook-Launches =
      let there = if r.playbook == "" then false else true in
      >>=-post Promised (guard there empty_message) _ before (λ e f. tt)
        (λ a e. rw (guard-state there empty_message before) (
          >>=-post Promised (required crc_dispatcher_attribute r.metadata) _ before (λ x f. tt)
            (λ correlation_id f.
              >>=-post Promised (required return_url_attribute r.metadata) _ before (λ x g. tt)
                (λ return_url g.
                  >>=-post Promised (guard out.writes not_created) _ before (λ x h. tt)
                    (λ b h.
                      rw (guard-state out.writes not_created before)
                        (prepare-Launches correlation_id return_url _ refl))))))

returned-Agrees :
    (pc : Pc) (status : Option String) (n : ℕ) (f : Option Failure)
    → IsAt pc status n (returned f)
    → Agrees f status n
returned-Agrees checks status n f h = absurd h.2
returned-Agrees reads status n f h = absurd h.2
returned-Agrees marks status n f h = absurd h.2
returned-Agrees runs status n f h = absurd h.2
returned-Agrees (reports done) status n f h = absurd h.2
returned-Agrees (parses done) status n f h = absurd h.2
returned-Agrees (hands r done) status n f h = absurd h.2
returned-Agrees (removes done) status n f h = absurd h.2
returned-Agrees (sends g returns) status n f h = absurd h.1
returned-Agrees (sends g runs_on) status n f h = absurd h
returned-Agrees (sends g (parses_on done)) status n f h = absurd h
returned-Agrees ended status n f (g, e, h) =
    let same : g ≡ f = cc e in subst (λ x. Agrees x status n) same h

handler-IsAt :
    (l : Launch) (t : System) {h : Handler}
    → t.handler ≡ h
    → IsSound l.pe_name t
    → IsAt t.executor (lookup l.pe_name t.repository.name_status) t.playbook_runs h
handler-IsAt l t e h =
    subst (λ x. IsAt t.executor (lookup l.pe_name t.repository.name_status) t.playbook_runs x) e h

executed_well :
    (name : String) (m : Repository)
    → lookup name m.name_status ≡ some successfully_completed
    → is_executed name m ≡ true
unfolding is_executed exists get_status
executed_well name m e = rw e refl

executed_badly :
    (name : String) (m : Repository)
    → lookup name m.name_status ≡ some completed_with_error
    → is_executed name m ≡ true
unfolding is_executed exists get_status
executed_badly name m e = rw e refl

module _ (out : Outside) where
  -- What was run to its end is refused, for every message that asks for it.
  executed-refused :
      (r : Request) (s : State) (l : Launch)
      → is_executed r.pe_name s.repository ≡ true
      → (handle_playbook out r s).0 ≢ ok l
  executed-refused r s l e launched' =
      let k =
        subst (λ x. Launches r s x (handle_playbook out r s).1) launched'
          (handle_playbook-Launches out r s) in
      cc (e, k.0)

  -- The playbook ran to its end: what was sent last is nil or the error of the run.
  abbrev pub RanToEnd : Handler → Type 0
  RanToEnd h = (h ≡ returned none) ⊎ (h ≡ returned (some run_failed))

  ended-Agrees :
      (l : Launch) (t : System)
      → IsSound l.pe_name t
      → RanToEnd t.handler
      → (is_executed l.pe_name t.repository ≡ true) × (t.playbook_runs ≡ 1)
  ended-Agrees l t h (inl e) =
      let (status, n) = returned-Agrees t.executor _ _ none (handler-IsAt l t e h) in
      (executed_well l.pe_name t.repository status, n)
  ended-Agrees l t h (inr e) =
      let (status, n) = returned-Agrees t.executor _ _ (some run_failed) (handler-IsAt l t e h) in
      (executed_badly l.pe_name t.repository status, n)

  -- A playbook whose run came to its end, with success or not, was run once in it, and no later message
  -- with a playbook of that name, whatever else it has, launches a run.
  pub handle_playbook_once :
      (r : Request) (s : State) (l : Launch)
      → (handle_playbook out r s).0 ≡ ok l
      → (t : System) → Steps out l (launched (handle_playbook out r s).1) t
      → RanToEnd t.handler
      → (t.playbook_runs ≡ 1)
        × ((r' : Request) (d : Dispatcher) (l' : Launch)
            → r'.pe_name ≡ r.pe_name
            → (handle_playbook out r' (record { dispatcher = d; repository = t.repository })).0
              ≢ ok l')
  handle_playbook_once r s l e t steps ended' =
      let k =
        subst (λ x. Launches r s x (handle_playbook out r s).1) e
          (handle_playbook-Launches out r s) in
      let sound = Steps-IsSound out l (rw k.1 k.2) steps in
      let done = ended-Agrees l t sound ended' in
      (done.1, λ r' d l' same. executed-refused r' _ l' (rw same (rw (← k.1) done.0)))

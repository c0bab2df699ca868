-- ===== src/PlaybookEvents/Counters.antt =====
-- The counters of the events of internal/ansible/dispatcher/dispatcher_events.go.
use flotta_device_worker.Prelude.{
  ℕ, zero, suc, ◌+◌, ◌≤◌, ◌≡◌, refl, ◌∙◌, ◌≢◌, sym, ap, Option, String, List, [], ◌∷◌, ◌++◌, map,
  Map, length, length-append, arith, nat_eq,
}
use flotta_device_worker.Prelude.Int.{ℤ, pos}
use mathlib.Core.List.{map-append}
use flotta_device_worker.PlaybookEvents.{
  Host, TaskItem, PlayTask, Play, Stats, Results, Event, Outside,
}
use flotta_device_worker.PlaybookEvents.Events.{
  count_occurence, playbook_on_task_start, runner_on, runner_on_ok, runner_on_failed,
  runner_on_skipped, playbook_on_stats,
}
use flotta_device_worker.PlaybookEvents.Transform.{
  Progress, read_task_id, outcome, host_events, hosts_loop, task_events, tasks_loop, announce,
  play_start, opened, play_events, plays_loop, or_no_play, event_transformer,
}

-- n + 1, n + 2, ... as many as `k`.
abbrev pub numbers_after : ℕ → ℕ → List ℤ
numbers_after n zero = []
numbers_after n (suc k) = pos (n + 1) ∷ numbers_after (n + 1) k

abbrev pub counters : List Event → List ℤ
counters = map (λ e. e.counter)

-- The events of the list are numbered after `n`, and the counter is that of the last.
pub record IsNumbered (n : ℕ) (l : List Event) (counter : ℕ) : Type 0 where
  pub numbered : counters l ≡ numbers_after n (length l)
  pub last : counter ≡ n + length l

numbers_after-add :
    (n j k : ℕ) → numbers_after n (j + k) ≡ numbers_after n j ++ numbers_after (n + j) k
numbers_after-add n zero k =
    let e : 0 + k ≡ k = omega arith in let f : n + 0 ≡ n = omega arith in rw (e, f) refl
numbers_after-add n (suc j) k =
    let e : suc j + k ≡ suc (j + k) = omega arith in
    let f : n + suc j ≡ n + 1 + j = omega arith in
    rw (e, f) (ap (λ l. pos (n + 1) ∷ l) (numbers_after-add (n + 1) j k))

append-IsNumbered :
    (n c d : ℕ) (l m : List Event) → IsNumbered n l c → IsNumbered c m d → IsNumbered n (l ++ m) d
append-IsNumbered n c d l m h k = record {
  numbered =
      map-append (λ e. e.counter) l m
      ∙ rw (h.numbered, k.numbered, h.last, length-append l m)
          (sym (numbers_after-add n (length l) (length m)));
  last = omega (arith, h.last, k.last, length-append l m);
}

one-IsNumbered : (c : ℕ) (e : Event) → e.counter ≡ pos (c + 1) → IsNumbered c (e ∷ []) (c + 1)
one-IsNumbered c e h = record { numbered = ap (λ x. x ∷ []) h; last = omega arith }

two-IsNumbered :
    (c : ℕ) (a b : Event)
    → a.counter ≡ pos (c + 1)
    → b.counter ≡ pos (c + 2)
    → IsNumbered c (a ∷ b ∷ []) (c + 2)
two-IsNumbered c a b h k =
    let e : c + 2 ≡ c + 1 + 1 = omega arith in
    record { numbered = rw (h, k, e) refl; last = omega arith }

counters-read : (id : String) (l : List Event) → counters (map (read_task_id id) l) ≡ counters l
unfolding read_task_id
counters-read id [] = refl
counters-read id (e ∷ l) = ap (λ x. e.counter ∷ x) (counters-read id l)

length-read : (id : String) (l : List Event) → length (map (read_task_id id) l) ≡ length l
length-read id [] = refl
length-read id (e ∷ l) = ap suc (length-read id l)

module _ (out : Outside) (device playbook : String) where
  outcome-counter :
      (parent : String) (c : ℕ) (host : Option String) (task : TaskItem) (item : Host)
      → (outcome out device playbook parent c host task item).counter ≡ pos c
  unfolding outcome runner_on_ok runner_on_failed runner_on_skipped runner_on
  outcome-counter parent c host task item = ground arith

  host_events-IsNumbered :
      (n : ℕ) (start : Event) (uuids : Map String ℕ) (item : Host) (task : TaskItem) (p : Progress)
      → IsNumbered n p.msg_list p.msg_counter
      → let q = (host_events out device playbook start uuids item task p).1 in
        IsNumbered n q.msg_list q.msg_counter
  unfolding host_events playbook_on_task_start
  host_events-IsNumbered n start uuids item task p h =
      append-IsNumbered n p.msg_counter _ p.msg_list _ h (
        two-IsNumbered p.msg_counter _ _ refl
          (outcome-counter _ (p.msg_counter + 2) start.event_data.host _ item))

  hosts_loop-IsNumbered :
      (n : ℕ) (start : Event) (uuids : Map String ℕ) (hosts : Map String Host) (task : TaskItem)
      (p : Progress)
      → IsNumbered n p.msg_list p.msg_counter
      → let q = (hosts_loop out device playbook start uuids hosts task p).1 in
        IsNumbered n q.msg_list q.msg_counter
  unfolding hosts_loop
  hosts_loop-IsNumbered n start uuids [] task p h = h
  hosts_loop-IsNumbered n start uuids ((_, item) ∷ rest) task p h =
      hosts_loop-IsNumbered n start uuids rest _ _
        (host_events-IsNumbered n start uuids item task p h)

  task_events-IsNumbered :
      (n : ℕ) (start : Event) (uuids : Map String ℕ) (t : PlayTask) (p : Progress)
      → IsNumbered n p.msg_list p.msg_counter
      → let q = task_events out device playbook start uuids t p in
        IsNumbered n q.msg_list q.msg_counter
  unfolding task_events
  task_events-IsNumbered n start uuids t p h =
      let done =
        hosts_loop out device playbook start uuids t.hosts t.task (record p { msg_list = [] }) in
      let k =
        hosts_loop-IsNumbered p.msg_counter start uuids t.hosts t.task (record p { msg_list = [] })
          (record { numbered = refl; last = omega arith }) in
      append-IsNumbered n p.msg_counter _ p.msg_list _ h (record {
        numbered =
            rw (counters-read done.0.id done.1.msg_list, length-read done.0.id done.1.msg_list)
              k.numbered;
        last = omega (arith, k.last, length-read done.0.id done.1.msg_list);
      })

  tasks_loop-IsNumbered :
      (n : ℕ) (start : Event) (uuids : Map String ℕ) (tasks : List PlayTask) (p : Progress)
      → IsNumbered n p.msg_list p.msg_counter
      → let q = tasks_loop out device playbook start uuids tasks p in
        IsNumbered n q.msg_list q.msg_counter
  unfolding tasks_loop
  tasks_loop-IsNumbered n start uuids [] p h = h
  tasks_loop-IsNumbered n start uuids (t ∷ rest) p h =
      tasks_loop-IsNumbered n start uuids rest _ (task_events-IsNumbered n start uuids t p h)

  hosts_loop-le :
      (start : Event) (uuids : Map String ℕ) (hosts : Map String Host) (task : TaskItem)
      (p : Progress)
      → p.msg_counter ≤ (hosts_loop out device playbook start uuids hosts task p).1.msg_counter
  unfolding hosts_loop host_events
  hosts_loop-le start uuids [] task p = omega arith
  hosts_loop-le start uuids ((_, item) ∷ rest) task p =
      let next = host_events out device playbook start uuids item task p in
      omega (arith, hosts_loop-le start uuids rest next.0 next.1)

  pub tasks_loop-le :
      (start : Event) (uuids : Map String ℕ) (tasks : List PlayTask) (p : Progress)
      → p.msg_counter ≤ (tasks_loop out device playbook start uuids tasks p).msg_counter
  unfolding tasks_loop task_events
  tasks_loop-le start uuids [] p = omega arith
  tasks_loop-le start uuids (t ∷ rest) p = omega (
    arith,
    hosts_loop-le start uuids t.hosts t.task (record p { msg_list = [] }),
    tasks_loop-le start uuids rest (task_events out device playbook start uuids t p),
  )

  -- The event of the whole playbook is added at the counter 1 only.
  pub announce_not :
      (play : Play) (p : Progress) → p.msg_counter ≢ 1 → announce out device playbook play p ≡ p
  unfolding announce
  announce_not play p ne = ground (arith, ne)

  -- A play leaves the counter at 2 or more.
  pub play_events-counter :
      (stats : Map String Stats) (play : Play) (p : Progress)
      → p.msg_counter ≢ 1
      → (play_events out device playbook stats play p).msg_counter ≢ 1
  unfolding play_events opened
  play_events-counter stats play p ne e =
      let a = announce out device playbook play p in
      omega (
        arith,
        e,
        tasks_loop-le (play_start out device playbook play a) (count_occurence play.tasks)
            play.tasks (opened out device playbook play a),
      )

  play_events-IsNumbered :
      (stats : Map String Stats) (play : Play) (p : Progress)
      → p.msg_counter ≢ 1
      → IsNumbered 0 p.msg_list p.msg_counter
      → let q = play_events out device playbook stats play p in
        IsNumbered 0 q.msg_list q.msg_counter
  unfolding play_events opened play_start playbook_on_stats
  play_events-IsNumbered stats play p ne h = rw (announce_not play p ne) (
      append-IsNumbered 0 _ _ _ _
        (tasks_loop-IsNumbered 0 (play_start out device playbook play p)
          (count_occurence play.tasks) play.tasks _
          (append-IsNumbered 0 p.msg_counter _ p.msg_list _ h
            (one-IsNumbered p.msg_counter _ refl)))
        (one-IsNumbered _ _ refl))

  plays_loop-IsNumbered :
      (stats : Map String Stats) (plays : List Play) (p : Progress)
      → p.msg_counter ≢ 1
      → IsNumbered 0 p.msg_list p.msg_counter
      → let q = plays_loop out device playbook stats plays p in
        IsNumbered 0 q.msg_list q.msg_counter
  unfolding plays_loop
  plays_loop-IsNumbered stats [] p ne h = h
  plays_loop-IsNumbered stats (play ∷ rest) p ne h =
      plays_loop-IsNumbered stats rest _ (play_events-counter stats play p ne)
        (play_events-IsNumbered stats play p ne h)

  -- The counters of the events of a run are 1, 2, 3 and so on, whatever the plays.
  pub event_transformer-counters :
      (results : Results)
      → let events = event_transformer out device playbook results in
        counters events ≡ numbers_after 0 (length events)
  unfolding event_transformer
  event_transformer-counters results =
      (plays_loop-IsNumbered results.stats (or_no_play results.plays) _ (λ e. omega (arith, e))
        (record { numbered = refl; last = omega arith })).numbered

-- ===== src/Logs/Linked.antt =====
-- Which transports and writers internal/logs/workload.go keeps, over any operations.
use flotta_device_worker.Prelude.{
  ℕ, ◌≡◌, refl, ap, inl, inr, Bool, true, false, not, ◌&&◌, ◌||◌, Option, none, some, String, List,
  [], ◌∷◌, Map, lookup, insert, delete, string_eq, ◌==◌, All, arith, eq_iff, Bool-cases,
  Option-cases,
}
use flotta_device_worker.Logs.Target.{
  Kind, Writer, Workload, Target, is_known, leftovers, get_current_transports, keep_writers,
  delete_target_transport, delete_workload, delete_each, make_transports, update, start_writer,
  try_transport, workload_started, workload_removed,
}

abbrev is_one_of : String → List String → Bool
is_one_of name [] = false
is_one_of name (n ∷ ns) = n == name || is_one_of name ns

is_one_of-leftovers :
    (transports : Map String ℕ) (keys : List String) (t : String)
    → is_one_of t (leftovers transports keys)
      ≡ (is_one_of t keys && not (is_known (lookup t transports)))
unfolding leftovers
is_one_of-leftovers transports [] t = refl
is_one_of-leftovers transports (key ∷ keys) t =
    ground (arith, is_one_of-leftovers transports keys t, eq_iff key t)

is_one_of-current :
    (transports : Map String ℕ) (t : String)
    → is_known (lookup t transports) ≡ true
    → is_one_of t (get_current_transports transports) ≡ true
unfolding get_current_transports lookup
is_one_of-current [] t h = cc
is_one_of-current ((k, n) ∷ rest) t h = ground (arith, is_one_of-current rest t)

All-map : {A : Type 0} {P Q : A → Type 0} (l : List A) → ((a : A) → P a → Q a) → All P l → All Q l
All-map [] f h = tt
All-map (a ∷ l) f h = (f a h.0, All-map l f h.1)

-- What holds of the transport's name of every writer.
abbrev Every : (String → Type 0) → Map String Writer → Type 0
Every holds' = All (λ (b : String × Writer). holds' b.1.target_name)

keep_writers-Every :
    (P : String → Type 0) (name : String) (ws : Map String Writer)
    → Every P ws
    → Every (λ t. P t × ((t == name) ≡ false)) (keep_writers name ws)
unfolding keep_writers
keep_writers-Every P name [] h = tt
keep_writers-Every P name ((k, w) ∷ ws) h = elim (Bool-cases (w.target_name == name)) [
  | inl same ↦ rw same (keep_writers-Every P name ws h.1)
  | inr other ↦ rw other ((h.0, other), keep_writers-Every P name ws h.1)
]

delete-Every :
    (P : String → Type 0) (name : String) (ws : Map String Writer)
    → Every P ws
    → Every P (delete name ws)
unfolding delete
delete-Every P name [] h = tt
delete-Every P name ((k, w) ∷ ws) h = elim (Bool-cases (k == name)) [
  | inl same ↦ rw same (delete-Every P name ws h.1)
  | inr other ↦ rw other (h.0, delete-Every P name ws h.1)
]

insert-Every :
    (P : String → Type 0) (name : String) (v : Writer) (ws : Map String Writer)
    → P v.target_name
    → Every P ws
    → Every P (insert name v ws)
unfolding insert
insert-Every P name v [] p h = (p, tt)
insert-Every P name v ((k, w) ∷ ws) p h = elim (Bool-cases (k == name)) [
  | inl same ↦ rw same (p, h.1)
  | inr other ↦ rw other (h.0, insert-Every P name v ws p h.1)
]

delete_each-Every :
    (P : String → Type 0) (keys : List String) (t : Target)
    → Every P t.wwriter
    → Every (λ n. P n × (is_one_of n keys ≡ false)) (delete_each keys t).wwriter
unfolding delete_each delete_target_transport
delete_each-Every P [] t h = All-map t.wwriter (λ b p. (p, refl)) h
delete_each-Every P (key ∷ keys) t h =
    All-map (delete_each (key ∷ keys) t).wwriter
      (λ b p.
        (p.0.0, ground (arith, p.0.1, p.1, eq_iff key b.1.target_name, eq_iff b.1.target_name key)))
      (delete_each-Every (λ n. P n × ((n == key) ≡ false)) keys (delete_target_transport key t)
        (keep_writers-Every P key t.wwriter h))

-- Every writer is for a transport that is there.
abbrev pub IsLinked : Target → Type 0
IsLinked t = Every (λ n. is_known (lookup n t.transports) ≡ true) t.wwriter

update-IsLinked :
    (connects : String → Bool) (targets : Map String Kind) (ws : List Workload) (t : Target)
    → IsLinked t
    → IsLinked (update connects targets ws t)
unfolding update
update-IsLinked connects targets ws t h =
    let made =
      make_transports connects targets
        (record { transports = []; senders = t.senders; next = t.next }) in
    let keys = get_current_transports t.transports in
    let gone = leftovers made.transports keys in
    All-map (delete_each gone t).wwriter
      (λ b p. ground (
        arith,
        p.0,
        p.1,
        is_one_of-leftovers made.transports keys b.1.target_name,
        is_one_of-current t.transports b.1.target_name,
      ))
      (delete_each-Every (λ n. is_known (lookup n t.transports) ≡ true) gone t h)

delete_workload-IsLinked :
    (name : String) (t : Target) → IsLinked t → IsLinked (delete_workload name t)
delete_workload-IsLinked name t h = elim (Option-cases (lookup name t.wwriter)) [
  | inl e ↦ unfold delete_workload in rw (delete_workload, e) h
  | inr (w, e) ↦
      unfold delete_workload in
      rw (delete_workload, e)
        (delete-Every (λ n. is_known (lookup n t.transports) ≡ true) name t.wwriter h)
]

try_transport-IsLinked :
    (name : String) (target : Option String) (t : Target)
    → IsLinked t
    → IsLinked (try_transport name target t)
try_transport-IsLinked name none t h = h
try_transport-IsLinked name (some target) t h = elim (Option-cases (lookup target t.transports)) [
  | inl e ↦ rw e h
  | inr (log, e) ↦ rw e (
      unfold start_writer in
      insert-Every (λ n. is_known (lookup n t.transports) ≡ true) name
        (record { target_name = target; log = log }) t.wwriter (ap is_known e) h)
]

workload_started-IsLinked :
    (name : String) (t : Target) → IsLinked t → IsLinked (workload_started name t)
unfolding workload_started
workload_started-IsLinked name t h =
    try_transport-IsLinked name _ (delete_workload name t) (delete_workload-IsLinked name t h)

-- What the observer is told.
pub data Operation : Type 0 where
  updates : (String → Bool) → Map String Kind → List Workload → Operation
  starts_workload removes_workload : String → Operation

unfoldable pub perform : Operation → Target → Target
perform (updates connects targets ws) = update connects targets ws
perform (starts_workload name) = workload_started name
perform (removes_workload name) = workload_removed name

unfoldable pub perform_all : List Operation → Target → Target
unfolding perform
perform_all [] t = t
perform_all (op ∷ ops) t = perform_all ops (perform op t)

perform-IsLinked : (op : Operation) (t : Target) → IsLinked t → IsLinked (perform op t)
unfolding perform workload_removed
perform-IsLinked (updates connects targets ws) = update-IsLinked connects targets ws
perform-IsLinked (starts_workload name) = workload_started-IsLinked name
perform-IsLinked (removes_workload name) = delete_workload-IsLinked name

-- Over any updates, starts and removals, whichever transports can be connected, each writer is for a
-- transport that is there.
pub perform_all-IsLinked :
    (ops : List Operation) (t : Target) → IsLinked t → IsLinked (perform_all ops t)
unfolding perform_all
perform_all-IsLinked [] t h = h
perform_all-IsLinked (op ∷ ops) t h =
    perform_all-IsLinked ops (perform op t) (perform-IsLinked op t h)

-- ===== src/WorkloadManager/Pods/Labels.antt =====
-- What `toPod` of internal/workload/manager.go does to the labels that the pod shares with its workload.
use flotta_device_worker.Prelude.{
  ◌≡◌, refl, ◌∙◌, sym, ap, Bool, true, false, ◌||◌, Option, none, some, String, List, [], ◌∷◌, ◌++◌,
  map, Map, insert, lookup, lookup-insert, lookup-insert_self, if◌then◌else◌, string_eq, ◌==◌, ◌≢◌,
  Bool-cases, Option-cases, inl, inr, arith,
}
use mathlib.Core.List.{append_assoc, append-nil}
use flotta_device_worker.WorkloadManager.Pods.{
  Container, PodSpec, Workload, Outside, authfile_label, unit_label, autoupdate,
  default_service_name, some_or_empty, with_auth_file, set_unit, export_container, containers_loop,
  pod_labels, make_pod, to_pod,
}

-- Whether some label is one of the automatic update.
unfoldable pub has_autoupdate : (String → String → Bool) → Map String String → Bool
has_autoupdate contains [] = false
has_autoupdate contains ((label, value) ∷ rest) =
    contains label autoupdate || has_autoupdate contains rest

abbrev pub with_unit : Bool → String → Map String String → Map String String
with_unit updates service labels = if updates then insert unit_label service labels else labels

-- To insert what is there changes nothing.
insert-same : (key v : String) (m : Map String String) → lookup key m ≡ some v → insert key v m ≡ m
unfolding insert lookup
insert-same key v [] h = absurd (ground (arith, h))
insert-same key v ((j, w) ∷ rest) h =
    ground (arith, h, string_eq.equal_iff j key, insert-same key v rest)

with_unit-with_unit :
    (a b : Bool) (service : String) (m : Map String String)
    → with_unit a service (with_unit b service m) ≡ with_unit (b || a) service m
with_unit-with_unit a false service m = refl
with_unit-with_unit false true service m = refl
with_unit-with_unit true true service m =
    insert-same unit_label service _ (lookup-insert_self unit_label service m)

set_unit_lem :
    (contains : String → String → Bool) (service : String) (ls m : Map String String)
    → set_unit contains service ls m ≡ with_unit (has_autoupdate contains ls) service m
unfolding set_unit has_autoupdate
set_unit_lem contains service [] m = refl
set_unit_lem contains service ((label, value) ∷ rest) m =
    set_unit_lem contains service rest (with_unit (contains label autoupdate) service m)
    ∙ with_unit-with_unit (has_autoupdate contains rest) (contains label autoupdate) service m

has_autoupdate-insert :
    (contains : String → String → Bool) (key v : String) (m : Map String String)
    → has_autoupdate contains (insert key v m)
      ≡ (contains key autoupdate || has_autoupdate contains m)
unfolding has_autoupdate insert
has_autoupdate-insert contains key v [] = refl
has_autoupdate-insert contains key v ((j, w) ∷ rest) =
    ground (arith, string_eq.equal_iff j key, has_autoupdate-insert contains key v rest)

lookup-with_unit :
    (b : Bool) (service : String) (m : Map String String)
    → lookup authfile_label (with_unit b service m) ≡ lookup authfile_label m
lookup-with_unit true service m = lookup-insert unit_label authfile_label service m
lookup-with_unit false service m = refl

with_auth_file-with_unit :
    (auth_file : Option String) (path service : String) (b : Bool) (m : Map String String)
    → let l = with_unit b service (with_auth_file auth_file path m) in
      with_auth_file auth_file path l ≡ l
unfolding with_auth_file
with_auth_file-with_unit none path service b m = refl
with_auth_file-with_unit (some auth_file) path service b m = elim (Bool-cases (auth_file == "")) [
  | inl e ↦ rw e refl
  | inr e ↦ rw e (
      insert-same authfile_label path _
        (lookup-with_unit b service _ ∙ lookup-insert_self authfile_label path m))
]

or-true : (b : Bool) → (b || true) ≡ true
or-true true = refl
or-true false = refl

or_self : (b : Bool) → (b || b) ≡ b
or_self true = refl
or_self false = refl

has_autoupdate-with_unit :
    (contains : String → String → Bool) (service : String) (b : Bool) (m : Map String String)
    → has_autoupdate contains m ≡ b
    → has_autoupdate contains (with_unit b service m) ≡ b
has_autoupdate-with_unit contains service true m h =
    has_autoupdate-insert contains unit_label service m
    ∙ ap (λ x. contains unit_label autoupdate || x) h
    ∙ or-true _
has_autoupdate-with_unit contains service false m h = h

has_autoupdate-with_auth_file :
    (contains : String → String → Bool) (auth_file : Option String) (path : String)
    → (m : Map String String) → has_autoupdate contains m ≡ true
    → has_autoupdate contains (with_auth_file auth_file path m) ≡ true
unfolding with_auth_file
has_autoupdate-with_auth_file contains none path m h = h
has_autoupdate-with_auth_file contains (some auth_file) path m h =
    ground (arith, h, has_autoupdate-insert contains authfile_label path m)

module _ {C V S : Type 0} where
  pod_labels_lem :
      (out : Outside C V S) (w : Workload)
      → let labels =
          with_auth_file w.auth_file (out.auth_file_path w.name) (some_or_empty w.labels) in
        pod_labels out w
        ≡ with_unit (has_autoupdate out.contains labels) (default_service_name w.name) labels
  unfolding pod_labels
  pod_labels_lem out w = set_unit_lem out.contains (default_service_name w.name) _ _

  pod_labels-written :
      (out : Outside C V S) (w : Workload)
      → pod_labels out (record w { labels = some (pod_labels out w) }) ≡ pod_labels out w
  pod_labels-written out w =
      let path = out.auth_file_path w.name in
      let service = default_service_name w.name in
      let base = with_auth_file w.auth_file path (some_or_empty w.labels) in
      let u = has_autoupdate out.contains base in
      let first = pod_labels_lem out w in
      let again = pod_labels_lem out (record w { labels = some (pod_labels out w) }) in
      again
      ∙ rw
          (
            first,
            with_auth_file-with_unit w.auth_file path service u (some_or_empty w.labels),
            has_autoupdate-with_unit out.contains service u base refl,
            with_unit-with_unit u u service base,
            or_self u,
          )
          refl

  make_pod-make_pod :
      (out : Outside C V S) (w0 : Workload) (labels : Option (Map String String))
      → (spec : PodSpec C V S)
      → let w = record w0 { labels = labels } in
        make_pod out (make_pod out w (some spec)).1 (some spec) ≡ make_pod out w (some spec)
  unfolding make_pod
  make_pod-make_pod out w0 none spec = refl
  make_pod-make_pod out w0 (some labels) spec =
      rw (pod_labels-written out (record w0 { labels = some labels })) refl

  -- Making the pod of a workload again, after its labels were written, gives the same pod, and writes
  -- nothing new: the shared map of labels does no harm to later pods of the workload.
  pub to_pod-to_pod :
      (out : Outside C V S) (w : Workload) → to_pod out (to_pod out w).1 ≡ to_pod out w
  unfolding to_pod make_pod
  to_pod-to_pod out w = elim (Option-cases (out.unmarshal w.specification)) [
    | inl e ↦ rw e (rw e refl)
    | inr (spec, e) ↦ rw e (rw e (make_pod-make_pod out w w.labels spec))
  ]

  to_pod-labels :
      (out : Outside C V S) (w : Workload) (labels : Map String String) (spec : PodSpec C V S)
      → out.unmarshal w.specification ≡ some spec
      → w.labels ≡ some labels
      → (to_pod out w).1.labels ≡ some (pod_labels out w)
  unfolding to_pod make_pod
  to_pod-labels out w labels spec read is_labels = rw (read, is_labels) refl

  lookup-pod_labels :
      (out : Outside C V S) (w : Workload) (labels : Map String String)
      → w.labels ≡ some labels
      → has_autoupdate out.contains labels ≡ true
      → lookup unit_label (pod_labels out w) ≡ some (default_service_name w.name)
  lookup-pod_labels out w labels is_labels updates =
      let path = out.auth_file_path w.name in
      rw
        (
          pod_labels_lem out w,
          is_labels,
          has_autoupdate-with_auth_file out.contains w.auth_file path labels updates,
        )
        (lookup-insert_self unit_label (default_service_name w.name) _)

  -- A workload with labels of its own, one of them for the automatic update and none for the unit, whose
  -- specification can be read, is not the same after its pod is made.
  pub to_pod-changes :
      (out : Outside C V S) (w : Workload) (labels : Map String String) (spec : PodSpec C V S)
      → out.unmarshal w.specification ≡ some spec
      → w.labels ≡ some labels
      → lookup unit_label labels ≡ none
      → has_autoupdate out.contains labels ≡ true
      → (to_pod out w).1 ≢ w
  to_pod-changes out w labels spec read is_labels no_unit updates same = ground (
    arith,
    to_pod-labels out w labels spec read is_labels,
    lookup-pod_labels out w labels is_labels updates,
    ap (λ v. v.labels) same,
    is_labels,
    no_unit,
  )

  containers_loop_lem :
      (out : Outside C V S) (workload : String) (rest containers : List (Container C))
      → containers_loop out workload rest containers
        ≡ containers ++ map (export_container out workload) rest
  unfolding containers_loop
  containers_loop_lem out workload [] containers = sym (append-nil containers)
  containers_loop_lem out workload (c ∷ rest) containers =
      containers_loop_lem out workload rest _ ∙ append_assoc containers _ _

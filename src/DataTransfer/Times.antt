-- ===== src/DataTransfer/Times.antt =====
-- When internal/datatransfer/monitor.go takes a workload for synchronised.
use flotta_device_worker.Prelude.{
  ◌+◌, ltb, length, ℕ, ◌≡◌, refl, sym, ap, ◌∙◌, ◌⊎◌, inl, inr, Bool, true, false, ◌&&◌, ◌||◌,
  Option, none, some, String, List, [], ◌∷◌, ◌++◌, arith, Map, lookup, insert, lookup-insert,
  string_eq, ◌==◌, Option-cases, Bool-cases, eq_iff,
}
use mathlib.Core.List.{append_assoc}
use flotta_device_worker.DataTransfer.{
  DataPath, Workload, paths_of, is_nonempty, contains_data_paths, DataConfiguration, Call, Outside,
  Monitor, process_sync_data_paths, process_each, sync_paths, index,
}
use flotta_device_worker.DataTransfer.Grown.{IsLater, process_sync_data_paths-IsProcessed}

abbrev pub is_one_of : String → List String → Bool
is_one_of name [] = false
is_one_of name (n ∷ ns) = n == name || is_one_of name ns

append-nil_parts : {A : Type 0} (l r : List A) → l ++ r ≡ [] → (l ≡ []) × (r ≡ [])
append-nil_parts [] r h = (refl, h)
append-nil_parts (a ∷ l) r h = cc

abbrev is_there : {A : Type 0} → Option A → Bool
is_there none = false
is_there (some _) = true

abbrev Times : Type 0
Times = Map String ℕ

-- The number of paths of a workload, in both directions.
abbrev pub paths_in : Option DataConfiguration → ℕ
paths_in none = 0
paths_in (some d) = length (paths_of d.egress_paths) + length (paths_of d.ingress_paths)

-- Whether the configuration has a workload of a name with a path.
unfoldable pub has_paths : String → List Workload → Bool
has_paths n [] = false
has_paths n (w ∷ ws) = (w.name == n && ltb 0 (paths_in w.data_paths)) || has_paths n ws

or_false : (b : Bool) → (b || false) ≡ b
or_false true = refl
or_false false = refl

paths_lem : (e i : List DataPath) → (is_nonempty e || is_nonempty i) ≡ ltb 0 (length e + length i)
paths_lem (x ∷ e) i = ground arith
paths_lem [] (x ∷ i) = ground arith
paths_lem [] [] = refl

contains_data_paths_lem :
    (d : DataConfiguration) → contains_data_paths (some d) ≡ ltb 0 (paths_in (some d))
unfolding contains_data_paths
contains_data_paths_lem d = paths_lem (paths_of d.egress_paths) (paths_of d.ingress_paths)

lookup-index :
    (n : String) (ws : List Workload) (found : Map String DataConfiguration)
    → is_there (lookup n (index ws found)) ≡ (has_paths n ws || is_there (lookup n found))
unfolding index has_paths
lookup-index n [] found = refl
lookup-index n (w ∷ ws) found = elim (Option-cases w.data_paths) [
  | inl e ↦ rw e (lookup-index n ws found ∙ ground arith)
  | inr (d, e) ↦ elim (Bool-cases (contains_data_paths (some d))) [
    | inl c ↦
        rw (e, c)
          (lookup-index n ws (insert w.name d found)
            ∙ ground (arith, c, contains_data_paths_lem d, lookup-insert w.name n d found))
    | inr c ↦ rw (e, c) (lookup-index n ws found ∙ ground (arith, c, contains_data_paths_lem d))
  ]
]

module _ (out : Outside) where
  -- Whether a workload is deployed and has paths that are configured.
  abbrev is_due : Map String DataConfiguration → List String → String → Bool
  is_due found names n = is_one_of n names && is_there (lookup n found)

  -- A workload that is due has the time of a moment since the first state, any other the time it had.
  abbrev pub IsTimed : Bool → String → Monitor → Times → Type 0
  IsTimed due n m new =
      ((due ≡ true) × (more : List Call) × (lookup n new ≡ some (out.now (m.calls ++ more))))
      ⊎ ((due ≡ false) × (lookup n new ≡ lookup n m.last_successful_sync_times))

  process_each-cons :
      (found : Map String DataConfiguration) (name : String) (names : List String) (m : Monitor)
      (d : DataConfiguration)
      → lookup name found ≡ some d
      → let r = process_sync_data_paths out name d m in
        process_each out found (name ∷ names) m
        ≡ (r.0 ++ (process_each out found names r.1).0, (process_each out found names r.1).1)
  unfolding process_each
  process_each-cons found name names m d e = rw (process_each, e) refl

  process_each-skip :
      (found : Map String DataConfiguration) (name : String) (names : List String) (m : Monitor)
      → lookup name found ≡ none
      → process_each out found (name ∷ names) m ≡ process_each out found names m
  unfolding process_each
  process_each-skip found name names m e = rw (process_each, e) refl

  after-IsTimed :
      (found : Map String DataConfiguration) (name : String) (names : List String) (n : String)
      (m m' : Monitor) (new : Times) (d : DataConfiguration)
      → lookup name found ≡ some d
      → m'.last_successful_sync_times ≡ insert name (out.now m'.calls) m.last_successful_sync_times
      → IsLater out m m'
      → IsTimed (is_due found names n) n m' new
      → IsTimed (is_due found (name ∷ names) n) n m new
  after-IsTimed found name names n m m' new d e t (more, l) (inl (due, c, f)) = inl (
    ground (arith, due),
    more ++ c,
    f ∙ ap (λ q. some (out.now q)) (ap (λ q. q ++ c) l ∙ append_assoc m.calls more c),
  )
  after-IsTimed found name names n m m' new d e t (more, l) (inr (due, f)) =
      let now' =
        f
        ∙ ap (lookup n) t
        ∙ lookup-insert name n (out.now m'.calls) m.last_successful_sync_times in
      elim (Bool-cases (name == n)) [
        | inl same ↦
            inl (ground (arith, same, eq_iff name n, e), more, now' ∙ ground (arith, same, l))
        | inr other ↦ inr (ground (arith, due, other), now' ∙ ground (arith, other))
      ]

  process_each-IsTimed :
      (found : Map String DataConfiguration) (names : List String) (m : Monitor) (n : String)
      → (process_each out found names m).0 ≡ []
      → IsTimed
          (is_due found names n)
          n
          m
          (process_each out found names m).1.last_successful_sync_times
  process_each-IsTimed found [] m n h = unfold process_each in inr (refl, refl)
  process_each-IsTimed found (name ∷ names) m n h = elim (Option-cases (lookup name found)) [
    | inl e ↦
        let q = process_each-skip found name names m e in
        let due : is_due found (name ∷ names) n ≡ is_due found names n =
          ground (arith, e, eq_iff name n) in
        rw (q, due) (process_each-IsTimed found names m n (sym (ap (λ t. t.0) q) ∙ h))
    | inr (d, e) ↦
        let q = process_each-cons found name names m d e in
        let r = process_sync_data_paths out name d m in
        let (none', rest) = append-nil_parts r.0 _ (sym (ap (λ t. t.0) q) ∙ h) in
        let (times, later') = process_sync_data_paths-IsProcessed out name d m in
        elim times [
          | inl (_, t) ↦ rw q (
              after-IsTimed found name names n m r.1 _ d e t later'
                (process_each-IsTimed found names r.1 n rest))
          | inr (bad, _) ↦ absurd (bad none')
        ]
  ]

  -- If `syncPaths` reports no error, and the workloads can be listed and a storage is defined, then every
  -- workload that is deployed, and for which some workload of its name in the configuration has a path in
  -- one of the two directions, has the time of a moment since its start, and every other workload the
  -- time that it had.
  pub sync_paths-IsTimed :
      (m : Monitor) (names : List String) (n : String)
      → out.list_workloads ≡ some names
      → out.has_storage_defined ≡ true
      → (sync_paths out m).0 ≡ []
      → IsTimed
          (is_one_of n names && has_paths n out.configured_workloads)
          n
          m
          (sync_paths out m).1.last_successful_sync_times
  unfolding sync_paths process_each
  sync_paths-IsTimed m names n listed defined h =
      let q : sync_paths out m ≡ process_each out (index out.configured_workloads []) names m =
        rw (sync_paths, listed, defined) refl in
      let due : is_there (lookup n (index out.configured_workloads []))
          ≡ has_paths n out.configured_workloads =
        (unfold lookup in lookup-index n out.configured_workloads [] ∙ or_false _) in
      rw (q, sym due)
        (process_each-IsTimed (index out.configured_workloads []) names m n
          (sym (ap (λ t. t.0) q) ∙ h))

-- ===== src/AnsibleMapping/Tidy.antt =====
-- What holds between the maps of internal/ansible/mapping/mapping.go.
use flotta_device_worker.Prelude.{
  ℕ, ◌≡◌, ◌≢◌, refl, ◌⊎◌, ◌↔◌, inl, inr, Bool, true, false, none, some, String, lookup, delete,
  string_eq, nat_eq, lookup-insert, lookup-delete, arith, eq_iff, Option-cases, beq_refl,
}
use flotta_device_worker.AnsibleMapping.{
  FileState, or_zero, Repository, Persist, not_marshalled, not_written, is_written, persist, add,
  remove, update_status, get_mod_time, get_file_path, get_name, get_status, exists,
}

-- A path has a time exactly if the time has that path, and no time is 0; a path has a name exactly if
-- it has a time; and the name of a path has a status.
pub record IsTidy (m : Repository) : Type 0 where
  pub there :
      (p : String) (t : ℕ)
      → lookup p m.path_to_mod_time ≡ some t
      → lookup t m.mod_time_to_path ≡ some p
  pub back :
      (p : String) (t : ℕ)
      → lookup t m.mod_time_to_path ≡ some p
      → lookup p m.path_to_mod_time ≡ some t
  pub no_zero_time : lookup 0 m.mod_time_to_path ≡ none
  pub named : (p : String) → (lookup p m.path_to_name ≡ none) ↔ (lookup p m.path_to_mod_time ≡ none)
  pub has_status : (p n : String) → lookup p m.path_to_name ≡ some n → lookup n m.name_status ≢ none

-- A path and a time that are both new, or belong to each other already; and the time is not 0.
abbrev pub IsFresh : String → ℕ → Repository → Type 0
IsFresh path time m =
    ((lookup path m.path_to_mod_time ≡ none) ⊎ (lookup path m.path_to_mod_time ≡ some time))
    × ((lookup time m.mod_time_to_path ≡ none) ⊎ (lookup time m.mod_time_to_path ≡ some path))
    × (time ≢ 0)

-- Writing the file changes nothing but the file.
persist_lem :
    (p : Persist) (m : Repository)
    → let m' = (persist p m).1 in
      (m'.mod_time_to_path ≡ m.mod_time_to_path)
      × (m'.path_to_mod_time ≡ m.path_to_mod_time)
      × (m'.path_to_name ≡ m.path_to_name)
      × (m'.name_status ≡ m.name_status)
unfolding persist
persist_lem not_marshalled m = (refl, refl, refl, refl)
persist_lem (not_written left) m = (refl, refl, refl, refl)
persist_lem is_written m = (refl, refl, refl, refl)

with_file-IsTidy :
    (m : Repository) (left : FileState) → IsTidy m → IsTidy (record m { file = left })
with_file-IsTidy m left h = record {
  there = h.there;
  back = h.back;
  no_zero_time = h.no_zero_time;
  named = h.named;
  has_status = h.has_status;
}

persist-IsTidy : (p : Persist) (m : Repository) → IsTidy m → IsTidy (persist p m).1
unfolding persist
persist-IsTidy not_marshalled m h = h
persist-IsTidy (not_written left) m h = with_file-IsTidy m left h
persist-IsTidy is_written m h = with_file-IsTidy m _ h

-- Adding a playbook with a fresh path and time keeps the maps tidy, whichever of the two files are
-- written.
pub add-IsTidy :
    (stored : Bool) (p : Persist) (name path : String) (time : ℕ) (status : String) (m : Repository)
    → IsFresh path time m
    → IsTidy m
    → IsTidy (add stored p name path time status m).1
unfolding add
add-IsTidy false p name path time status m fresh h = h
add-IsTidy true p name path time status m fresh h = persist-IsTidy p _ (record {
  there = λ q t. simp lookup-insert (λ e. ground (arith, eq_iff path q, h.there q t));
  back = λ q t. simp lookup-insert (λ e. ground (arith, eq_iff path q, h.back q t));
  no_zero_time = simp lookup-insert (ground (arith, h.no_zero_time));
  named =
      λ q. simp lookup-insert ((λ e. ground (arith, h.named q)), (λ e. ground (arith, h.named q)));
  has_status = λ q n.
      simp lookup-insert
        (λ e. λ none'. ground (arith, eq_iff path q, eq_iff name n, h.has_status q n));
})

-- Removing the playbook of a path, known or not, keeps them tidy too.
pub remove-IsTidy :
    (p : Persist) (path : String) (m : Repository) → IsTidy m → IsTidy (remove p path m).1
unfolding remove
remove-IsTidy p path m h =
    persist-IsTidy p _ (elim (Option-cases (lookup path m.path_to_mod_time)) [
      | inl e ↦ rw e (record {
        there = λ q t.
            simp lookup-delete (λ x. ground (arith, eq_iff path q, h.there q t, h.no_zero_time));
        back = λ q t. simp lookup-delete (λ x. ground (arith, eq_iff path q, h.back q t));
        no_zero_time = simp lookup-delete (ground (arith, h.no_zero_time));
        named = λ q.
            simp lookup-delete ((λ x. ground (arith, h.named q)), (λ x. ground (arith, h.named q)));
        has_status = λ q n. simp lookup-delete (λ x. ground (arith, h.has_status q n));
      })
      | inr (old, e) ↦ rw e (record {
        there = λ q t.
            simp lookup-delete
              (λ x. ground (arith, eq_iff path q, h.there q t, h.there path old, h.back q t));
        back = λ q t.
            simp lookup-delete (λ x. ground (arith, eq_iff path q, h.back q t, h.there path old));
        no_zero_time = simp lookup-delete (ground (arith, h.no_zero_time));
        named = λ q.
            simp lookup-delete ((λ x. ground (arith, h.named q)), (λ x. ground (arith, h.named q)));
        has_status = λ q n. simp lookup-delete (λ x. ground (arith, h.has_status q n));
      })
    ])

-- A status is changed exactly for a name that is known, for no other name, and the maps stay tidy.
pub update_status_lem :
    (name status : String) (m : Repository)
    → IsTidy m
    → let (failed, m') = update_status name status m in
      IsTidy m'
      × ((failed ≡ none) ↔ (exists name m ≡ true))
      × (failed ≡ none → get_status name m' ≡ status)
      × ((n : String) → n ≢ name → get_status n m' ≡ get_status n m)
      × ((n : String) → exists n m' ≡ exists n m)
unfolding update_status exists get_status
update_status_lem name status m h = elim (Option-cases (lookup name m.name_status)) [
  | inl e ↦ rw e (h, ((λ q. cc), (λ q. cc)), (λ q. cc), (λ n ne. refl), λ n. refl)
  | inr (old, e) ↦ rw e (
    record {
      there = h.there;
      back = h.back;
      no_zero_time = h.no_zero_time;
      named = h.named;
      has_status = λ p n. simp lookup-insert (λ x. λ y. ground (arith, h.has_status p n));
    },
    ((λ q. refl), (λ q. refl)),
    (λ q. simp (lookup-insert, beq_refl)),
    (λ n ne. rw lookup-insert (ground (arith, eq_iff name n))),
    λ n. rw lookup-insert (ground (arith, eq_iff name n)),
  )
]

-- After a removal the path has neither name nor time and its time no path; but its name stays known,
-- with the status that it had.
pub exists-remove :
    (p : Persist) (path : String) (m : Repository)
    → let m' = (remove p path m).1 in
      (get_name path m' ≡ "")
      × (get_mod_time path m' ≡ 0)
      × (get_file_path (get_mod_time path m) m' ≡ "")
      × ((n : String) → exists n m' ≡ exists n m)
      × ((n : String) → get_status n m' ≡ get_status n m)
unfolding remove get_name get_mod_time get_file_path exists get_status
exists-remove p path m =
    let (a, b, c, d) = persist_lem p (record m {
      mod_time_to_path = delete (or_zero (lookup path m.path_to_mod_time)) m.mod_time_to_path;
      path_to_mod_time = delete path m.path_to_mod_time;
      path_to_name = delete path m.path_to_name;
    }) in
    rw (a, b, c, d)
      (
        simp (lookup-delete, beq_refl),
        simp (lookup-delete, beq_refl),
        simp (lookup-delete, beq_refl),
        (λ n. refl),
        λ n. refl,
      )

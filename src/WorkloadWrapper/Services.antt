-- ===== src/WorkloadWrapper/Services.antt =====
-- `systemdManager` of internal/service/systemd.go: the services by name, kept in a file.
use flotta_device_worker.Prelude.{
  ℕ, ◌≡◌, refl, inl, inr, Bool, true, false, Option, none, some, String, List, [], ◌∷◌, map, Map,
  lookup, insert, delete, string_eq, ◌==◌, lookup-insert, lookup-delete, beq_refl, Bool-cases,
  arith, eq_iff,
}

-- `systemd`: the content of the units is not written to the file.
pub record Service : Type 0 where
  pub name : String
  pub restart_sec : ℕ
  pub units : List String
  pub rootless : Bool
  pub units_content : Map String String

pub data FileState : Type 0 where
  absent : FileState
  unparsable : FileState
  holds : Map String Service → FileState

-- `systemdManager`
pub record Manager : Type 0 where
  pub services : Map String Service
  pub file : FileState

-- The outcome of json.Marshal and os.WriteFile.
pub data Written : Type 0 where
  not_marshalled : Written
  not_written : FileState → Written
  is_written : Written

-- What json.Marshal makes of a service and json.Unmarshal of that.
abbrev pub without_content : Service → Service
without_content svc = record svc { units_content = [] }

abbrev pub stored : Map String Service → Map String Service
stored = map (λ b. (b.0, without_content b.1))

-- `write`: whether it succeeds.
unfoldable pub write : Written → Manager → Bool × Manager
write not_marshalled m = (false, m)
write (not_written left) m = (false, record m { file = left })
write is_written m = (true, record m { file = holds (stored m.services) })

-- `Add`
unfoldable pub add : Written → Service → Manager → Bool × Manager
unfolding write
add w svc m = write w (record m { services = insert svc.name svc m.services })

-- `Get`
unfoldable pub get : String → Manager → Option Service
get name m = lookup name m.services

-- `Remove`
unfoldable pub remove : Written → Service → Manager → Bool × Manager
unfolding write
remove w svc m = write w (record m { services = delete svc.name m.services })

-- `RemoveServicesFile`: `none` if os.RemoveAll succeeds, else what is there still.
unfoldable pub remove_services_file : Option FileState → Manager → Bool × Manager
remove_services_file none m = (true, record m { file = absent })
remove_services_file (some left) m = (false, record m { file = left })

-- `NewSystemdManager`. A file that cannot be read counts as empty.
unfoldable pub new_systemd_manager : FileState → Option Manager
new_systemd_manager absent = some (record { services = []; file = absent })
new_systemd_manager unparsable = none
new_systemd_manager (holds services) = some (record { services = services; file = holds services })

-- Each service stands under its own name.
pub record IsNamed (m : Manager) : Type 0 where
  pub named : (n : String) (svc : Service) → lookup n m.services ≡ some svc → svc.name ≡ n

pub write_lem : (w : Written) (m : Manager) → (write w m).1.services ≡ m.services
unfolding write
write_lem not_marshalled m = refl
write_lem (not_written left) m = refl
write_lem is_written m = refl

pub add-IsNamed : (w : Written) (svc : Service) (m : Manager) → IsNamed m → IsNamed (add w svc m).1
unfolding add
add-IsNamed w svc m h = record {
  named = λ n s.
      rw (write_lem w (record m { services = insert svc.name svc m.services }))
        (simp lookup-insert (λ e. ground (arith, eq_iff svc.name n, h.named n s)));
}

pub remove-IsNamed :
    (w : Written) (svc : Service) (m : Manager) → IsNamed m → IsNamed (remove w svc m).1
unfolding remove
remove-IsNamed w svc m h = record {
  named = λ n s.
      rw (write_lem w (record m { services = delete svc.name m.services }))
        (simp lookup-delete (λ e. ground (arith, h.named n s)));
}

lookup-stored :
    (n : String) (services : Map String Service) (svc : Service)
    → lookup n services ≡ some svc
    → lookup n (stored services) ≡ some (without_content svc)
unfolding lookup
lookup-stored n [] svc e = cc
lookup-stored n ((k, v) ∷ rest) svc e = elim (Bool-cases (k == n)) [
  | inl same ↦ ground (arith, e)
  | inr other ↦ ground (arith, lookup-stored n rest svc)
]

-- A service that was added and written is found by its name when the program starts again, as it was
-- but without the content of its units; so adding it to the system then writes no unit.
pub new_systemd_manager-add :
    (svc : Service) (m : Manager)
    → (m' : Manager) × (new_systemd_manager (add is_written svc m).1.file ≡ some m')
      × (get svc.name m' ≡ some (without_content svc))
unfolding new_systemd_manager add get
new_systemd_manager-add svc m =
    let services = insert svc.name svc m.services in
    (
      record { services = stored services; file = holds (stored services) },
      refl,
      lookup-stored svc.name services svc (simp (lookup-insert, beq_refl)),
    )

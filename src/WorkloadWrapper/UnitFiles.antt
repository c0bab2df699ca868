-- ===== src/WorkloadWrapper/UnitFiles.antt =====
-- The files that `Add` and `Remove` of `systemd` in internal/service/systemd.go write and remove.
use flotta_device_worker.Prelude.{
  ◌≡◌, refl, ap, ◌∙◌, ◌⊎◌, inl, inr, Bool, true, false, ◌||◌, Option, none, some, String, List, [],
  ◌∷◌, map, Map, lookup, insert, delete, string_eq, ◌==◌, if◌then◌else◌, lookup-insert,
  lookup-delete, beq_refl, Bool-cases, arith, eq_iff, Option-cases, IsDistinct,
}
use Prim.Native.String.{◌++◌ as concat}
use text.Mathlib.TextLemmas.{append_cancel_right}
use flotta_device_worker.WorkloadWrapper.Services.{Service}
use flotta_device_worker.WorkloadWrapper.Units.{
  System, Units, Written, is_written, not_written, default_service_name, add_units, remove_units,
  new_systemd, new_systemd_rootless, add, remove, reload,
}

abbrev is_there : Option String → Bool
is_there none = false
is_there (some _) = true

-- Whether a file is that of one of the units.
abbrev pub is_file : String → List String → Bool
is_file f [] = false
is_file f (unit ∷ rest) = default_service_name unit == f || is_file f rest

abbrev pub unit_names : Map String String → List String
unit_names = map (λ b. b.0)

-- No two units have the same file.
abbrev IsApart : List String → Type 0
IsApart [] = Unit
IsApart (unit ∷ rest) = (is_file (default_service_name unit) rest ≡ false) × IsApart rest

same_file : (a b : String) → (default_service_name a == default_service_name b) ≡ (a == b)
unfolding default_service_name
same_file a b = ground (
  arith,
  eq_iff a b,
  eq_iff (concat a ".service") (concat b ".service"),
  append_cancel_right a b ".service",
)

Written-cases : (w : Written) → (w ≡ is_written) ⊎ ((left : Option String) × (w ≡ not_written left))
Written-cases is_written = inl refl
Written-cases (not_written left) = inr (left, refl)

is_file-lookup :
    (unit : String) (units : Map String String)
    → lookup unit units ≡ none
    → is_file (default_service_name unit) (unit_names units) ≡ false
unfolding lookup
is_file-lookup unit [] h = refl
is_file-lookup unit ((k, v) ∷ rest) h = ground (arith, same_file k unit, is_file-lookup unit rest)

distinct-IsApart : (units : Map String String) → IsDistinct units → IsApart (unit_names units)
distinct-IsApart [] h = tt
distinct-IsApart ((k, v) ∷ rest) h = (is_file-lookup k rest h.0, distinct-IsApart rest h.1)

new_systemd_lem :
    (name : String) (units : Map String String) (svc : Service)
    → new_systemd true name units ≡ some svc
    → (svc.units ≡ unit_names units) × (svc.units_content ≡ units)
unfolding new_systemd new_systemd_rootless
new_systemd_lem name units svc h = (ground (arith, h), ground (arith, h))

module _ (sys : System) where
  add_units-files :
      (units : Map String String) (u : Units) (f : String)
      → (add_units sys units u).0 ≡ true
      → let after = (add_units sys units u).1 in
        (is_there (lookup f after.files)
          ≡ (is_file f (unit_names units) || is_there (lookup f u.files)))
        × (is_file f (unit_names units) ≡ false → lookup f after.files ≡ lookup f u.files)
  unfolding add_units
  add_units-files [] u f h = (refl, λ e. refl)
  add_units-files ((unit, content) ∷ rest) u f h =
      elim (Written-cases (sys.writes (default_service_name unit))) [
        | inl good ↦
            let file = default_service_name unit in
            let u' : Units = record u { files = insert file content u.files } in
            let l = lookup-insert file f content u.files in
            (
              ground (arith, good, l, (add_units-files rest u' f (ground (arith, good))).0),
              λ e. ground (arith, good, l, (add_units-files rest u' f (ground (arith, good))).1),
            )
        | inr (none, bad) ↦ absurd (ground (arith, bad))
        | inr (some left, bad) ↦ absurd (ground (arith, bad))
      ]

  remove_units-files :
      (units : List String) (u : Units)
      → IsApart units
      → ((f : String)
          → is_file f units ≡ true
          → (is_there (lookup f u.files) ≡ true) × (sys.may_remove f ≡ true))
      → let r = remove_units sys units u in
        (r.0 ≡ true)
        × ((f : String) → lookup f r.1.files ≡ (if is_file f units then none else lookup f u.files))
  unfolding remove_units
  remove_units-files [] u h ready = (refl, λ f. refl)
  remove_units-files (unit ∷ rest) u h ready =
      let file = default_service_name unit in
      let u' : Units = record u { files = delete file u.files } in
      let gone : (f : String) → lookup f u'.files ≡ (if file == f then none else lookup f u.files) =
        λ f. lookup-delete file f u.files in
      let now = ready file (ground (arith, beq_refl file)) in
      let others = remove_units-files rest u' h.1 (λ f e. (
        ground (arith, gone f, h.0, eq_iff file f, (ready f (ground (arith, e))).0),
        (ready f (ground (arith, e))).1,
      )) in
      elim (Option-cases (lookup file u.files)) [
        | inl missing ↦ absurd (ground (arith, missing, now.0))
        | inr (content, there) ↦ (
          ground (arith, there, now.1, others.0),
          λ f. ground (arith, there, now.1, others.1 f, gone f),
        )
      ]

  add_lem :
      (svc : Service) (u : Units)
      → (add sys svc u).0 ≡ true
      → ((add_units sys svc.units_content u).0 ≡ true)
        × ((add sys svc u).1.files ≡ (add_units sys svc.units_content u).1.files)
  unfolding add reload
  add_lem svc u h = elim (Bool-cases (add_units sys svc.units_content u).0) [
    | inl good ↦ (good, rw good refl)
    | inr bad ↦ absurd (ground (arith, bad))
  ]

  remove_lem :
      (svc : Service) (u : Units)
      → (remove sys svc u).1.files ≡ (remove_units sys svc.units u).1.files
  unfolding remove reload
  remove_lem svc u = elim (Bool-cases (remove_units sys svc.units u).0) [
    | inl good ↦ rw good refl
    | inr bad ↦ rw bad refl
  ]

  -- A new service whose `Add` succeeded is taken back by its `Remove`, if its files may be removed: the
  -- files of its units are gone, and every other file is as it was before. This holds also if systemd
  -- does not reload after the removal.
  pub remove-add :
      (name : String) (units : Map String String) (svc : Service) (u : Units)
      → IsDistinct units
      → new_systemd true name units ≡ some svc
      → (add sys svc u).0 ≡ true
      → ((f : String) → is_file f (unit_names units) ≡ true → sys.may_remove f ≡ true)
      → (f : String)
      → lookup f (remove sys svc (add sys svc u).1).1.files
        ≡ (if is_file f (unit_names units) then none else lookup f u.files)
  remove-add name units svc u h made added may f =
      let (unit_names_of, content) = new_systemd_lem name units svc made in
      let (wrote, same) = add_lem svc u added in
      let files : (g : String) → _ = λ g. add_units-files svc.units_content u g wrote in
      let removed =
        remove_units-files svc.units (add sys svc u).1 (rw unit_names_of (distinct-IsApart units h))
          (λ g e. (
            rw same (ground (arith, e, unit_names_of, content, (files g).0)),
            may g (ground (arith, e, unit_names_of)),
          )) in
      ap (lookup f) (remove_lem svc (add sys svc u).1)
      ∙ ground (arith, same, unit_names_of, content, removed.1 f, (files f).1)

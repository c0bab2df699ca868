-- ===== src/Mounts/Reconcile.antt =====
-- What `Update` of internal/mount/mount.go does to the mounts.
use flotta_device_worker.Prelude.{
  ℕ, suc, ◌+◌, ◌≡◌, ◌≢◌, refl, sym, ◌∙◌, ap, ◌⊎◌, inl, inr, true, false, none, some, String, List,
  [], ◌∷◌, ◌++◌, length, length-append, Map, lookup, string_eq, ◌==◌, arith, eq_iff, Bool-cases,
  Option-cases,
}
use mathlib.Core.Path.{subst}
use mathlib.Core.List.{append_assoc}
use flotta_device_worker.Mounts.{
  Mount, Outside, Syscall, mounts, umounts, Progress, Err, is_valid, is_equal, mount_one,
  replace_one, reconcile_one, reconcile, contains_directory, fail, twice, invalid, not_umounted,
  not_mounted, mount_options,
}

-- The directories that system calls have mounted.
unfoldable pub mounted : List Syscall → List String
mounted [] = []
mounted (mounts m options true ∷ rest) = m.directory ∷ mounted rest
mounted (mounts m options false ∷ rest) = mounted rest
mounted (umounts m ok ∷ rest) = mounted rest

-- No directory stands in the list twice.
unfoldable pub Distinct : List String → Type 0
Distinct [] = Unit
Distinct (d ∷ ds) = (contains_directory d ds ≡ false) × Distinct ds

-- Every directory of the list `ds` is one of `es`.
abbrev Within : List String → List String → Type 0
Within ds es = (d : String) → contains_directory d ds ≡ true → contains_directory d es ≡ true

abbrev pub IsOneOf : Mount → List Mount → Type 0
IsOneOf m all = (before : List Mount) × (after : List Mount) × (all ≡ before ++ m ∷ after)

-- A mount of the directory is there already that `isEqual` finds equal to a configured one for it.
abbrev pub IsThere : Map String Mount → List Mount → String → Type 0
IsThere current all d =
    (c : Mount) × (m : Mount) × IsOneOf m all
    × (lookup d current ≡ some c)
    × (m.directory ≡ d)
    × (is_equal c m ≡ true)

-- What a configured mount comes to: an error, and nothing mounted; or its directory is settled, since it
-- was mounted, or since it was there already.
data Outcome (current : Map String Mount) (all : List Mount) (m : Mount) (p p' : Progress)
    : Type 0 where
  reported :
      (e : Err)
      → p'.errors ≡ p.errors ++ e ∷ []
      → p'.already_mounted ≡ p.already_mounted
      → mounted p'.calls ≡ mounted p.calls
      → Outcome current all m p p'
  settled :
      p'.errors ≡ p.errors
      → p'.already_mounted ≡ m.directory ∷ p.already_mounted
      → ((mounted p'.calls ≡ mounted p.calls) × IsThere current all m.directory)
        ⊎ (mounted p'.calls ≡ m.directory ∷ mounted p.calls)
      → Outcome current all m p p'

module _ (out : Outside) (filesystems default : String) where
  mount_one-Outcome :
      (current : Map String Mount) (all : List Mount) (m : Mount) (p : Progress)
      → Outcome current all m p (mount_one out default m p)
  unfolding mount_one mounted
  mount_one-Outcome current all m p =
      elim (Bool-cases (out.mount_succeeds p.calls m (mount_options m default))) [
        | inl ok ↦ settled (ground arith) (ground arith) (inr (ground arith))
        | inr bad ↦ reported (not_mounted m) (ground arith) (ground arith) (ground arith)
      ]

  replace_one-Outcome :
      (current : Map String Mount) (all : List Mount) (c m : Mount) (p : Progress)
      → IsOneOf m all
      → lookup m.directory current ≡ some c
      → Outcome current all m p (replace_one out default c m p)
  unfolding replace_one mounted
  replace_one-Outcome current all c m p among there = elim (Bool-cases (is_equal c m)) [
    | inl same ↦
        settled (ground arith) (ground arith) (inl (ground arith, (c, m, among, there, refl, same)))
    | inr other ↦ elim (Bool-cases (out.umount_succeeds p.calls c)) [
      | inl ok ↦
          elim (Bool-cases
            (out.mount_succeeds (umounts c true ∷ p.calls) m (mount_options m default))) [
              | inl ok' ↦ settled (ground arith) (ground arith) (inr (ground arith))
              | inr bad ↦ reported (not_mounted m) (ground arith) (ground arith) (ground arith)
            ]
      | inr bad ↦ reported (not_umounted m) (ground arith) (ground arith) (ground arith)
    ]
  ]

  -- An outcome is settled only for a mount that is valid and whose directory was not settled before.
  reconcile_one-Outcome :
      (current : Map String Mount) (all : List Mount) (m : Mount) (p : Progress)
      → IsOneOf m all
      → let p' = reconcile_one out filesystems default current m p in
        ((contains_directory m.directory p.already_mounted ≡ false)
          × (is_valid out filesystems m ≡ none)
          × Outcome current all m p p')
        ⊎ ((e : Err) × (p' ≡ fail e p))
  reconcile_one-Outcome current all m p among =
      elim (Bool-cases (contains_directory m.directory p.already_mounted)) [
        | inl again ↦ inr (twice m, unfold reconcile_one in ground arith)
        | inr new ↦ elim (Option-cases (is_valid out filesystems m)) [
          | inr (why, e) ↦ inr (invalid m why, unfold reconcile_one in ground arith)
          | inl ok ↦ elim (Option-cases (lookup m.directory current)) [
            | inl e ↦
                let q : reconcile_one out filesystems default current m p
                    ≡ mount_one out default m p =
                  unfold reconcile_one in ground arith in
                inl (new, ok, rw q (mount_one-Outcome current all m p))
            | inr (c, e) ↦
                let q : reconcile_one out filesystems default current m p
                    ≡ replace_one out default c m p =
                  unfold reconcile_one in ground arith in
                inl (new, ok, rw q (replace_one-Outcome current all c m p among e))
          ]
        ]
      ]

-- What holds after `n` of the configured mounts.
record IsTidy (current : Map String Mount) (all : List Mount) (n : ℕ) (p : Progress) : Type 0 where
  accounted : length p.errors + length p.already_mounted ≡ n
  settled_once : Distinct p.already_mounted
  mounted_once : Distinct (mounted p.calls)
  mounted_settled : Within (mounted p.calls) p.already_mounted
  settled_for_good :
      (d : String)
      → contains_directory d p.already_mounted ≡ true
      → (contains_directory d (mounted p.calls) ≡ true) ⊎ IsThere current all d

IsTidy-Outcome :
    (current : Map String Mount) (all : List Mount) (n : ℕ) (m : Mount) (p p' : Progress)
    → contains_directory m.directory p.already_mounted ≡ false
    → Outcome current all m p p'
    → IsTidy current all n p
    → IsTidy current all (suc n) p'
unfolding Distinct contains_directory
IsTidy-Outcome current all n m p p' new (reported e errs same calls) h = record {
  accounted =
      omega (arith, ap length errs, length-append p.errors (e ∷ []), ap length same, h.accounted);
  settled_once = rw same h.settled_once;
  mounted_once = rw calls h.mounted_once;
  mounted_settled = rw (same, calls) h.mounted_settled;
  settled_for_good = rw (same, calls) h.settled_for_good;
}
IsTidy-Outcome current all n m p p' new (settled errs now (inl (calls, there))) h = record {
  accounted = omega (arith, ap length errs, ap length now, h.accounted);
  settled_once = rw now (new, h.settled_once);
  mounted_once = rw calls h.mounted_once;
  mounted_settled = rw (now, calls) (λ d q. ground (arith, h.mounted_settled d q));
  settled_for_good =
      rw (now, calls)
        (λ d q. elim (Bool-cases (m.directory == d)) [
          | inl same ↦
              inr (subst (IsThere current all) ((string_eq.equal_iff m.directory d).0 same) there)
          | inr other ↦ h.settled_for_good d (ground (arith, q, other))
        ]);
}
IsTidy-Outcome current all n m p p' new (settled errs now (inr calls)) h = record {
  accounted = omega (arith, ap length errs, ap length now, h.accounted);
  settled_once = rw now (new, h.settled_once);
  mounted_once = rw calls ((ground (arith, h.mounted_settled m.directory)), h.mounted_once);
  mounted_settled = rw (now, calls) (λ d q. ground (arith, h.mounted_settled d));
  settled_for_good =
      rw (now, calls)
        (λ d q. elim (Bool-cases (m.directory == d)) [
          | inl same ↦ inl (ground (arith, same))
          | inr other ↦ elim (h.settled_for_good d (ground (arith, q, other))) [
            | inl done ↦ inl (ground (arith, done))
            | inr there ↦ inr there
          ]
        ]);
}

IsTidy-fail :
    (current : Map String Mount) (all : List Mount) (n : ℕ) (e : Err) (p : Progress)
    → IsTidy current all n p
    → IsTidy current all (suc n) (fail e p)
IsTidy-fail current all n e p h = record {
  accounted = omega (arith, length-append p.errors (e ∷ []), h.accounted);
  settled_once = h.settled_once;
  mounted_once = h.mounted_once;
  mounted_settled = h.mounted_settled;
  settled_for_good = h.settled_for_good;
}

module _ (out : Outside) (filesystems default : String) (current : Map String Mount) where
  IsTidy-reconcile :
      (all before ms : List Mount) (n : ℕ) (p : Progress)
      → all ≡ before ++ ms
      → IsTidy current all n p
      → IsTidy current all (n + length ms) (reconcile out filesystems default current ms p)
  unfolding reconcile
  IsTidy-reconcile all before [] n p split h = subst (λ k. IsTidy current all k p) (omega arith) h
  IsTidy-reconcile all before (m ∷ ms) n p split h =
      let p' = reconcile_one out filesystems default current m p in
      let h' : IsTidy current all (suc n) p' =
        elim (reconcile_one-Outcome out filesystems default current all m p (before, ms, split)) [
          | inl (new, ok, o) ↦ IsTidy-Outcome current all n m p p' new o h
          | inr (e, q) ↦ rw q (IsTidy-fail current all n e p h)
        ] in
      subst (λ k. IsTidy current all k (reconcile out filesystems default current ms p'))
        (omega arith)
        (IsTidy-reconcile all (before ++ m ∷ []) ms (suc n) p'
          (split ∙ sym (append_assoc before (m ∷ []) ms)) h')

abbrev pub nothing_done : Progress
nothing_done = record { already_mounted = []; errors = []; calls = [] }

pub reconcile_lem :
    (out : Outside) (filesystems default : String) (current : Map String Mount) (ms : List Mount)
    → let p = reconcile out filesystems default current ms nothing_done in
      (length p.errors + length p.already_mounted ≡ length ms)
      × Distinct p.already_mounted
      × Distinct (mounted p.calls)
      × ((d : String)
          → contains_directory d (mounted p.calls) ≡ true
          → contains_directory d p.already_mounted ≡ true)
      × ((d : String)
          → contains_directory d p.already_mounted ≡ true
          → (contains_directory d (mounted p.calls) ≡ true) ⊎ IsThere current ms d)
unfolding mounted Distinct contains_directory
reconcile_lem out filesystems default current ms =
    let h = IsTidy-reconcile out filesystems default current ms [] ms 0 nothing_done refl (record {
      accounted = refl;
      settled_once = tt;
      mounted_once = tt;
      mounted_settled = λ d q. q;
      settled_for_good = λ d q. absurd (ground (arith, q));
    }) in
    (
      omega (arith, h.accounted),
      h.settled_once,
      h.mounted_once,
      h.mounted_settled,
      h.settled_for_good,
    )

not-is_equal : (m : Mount) → m.kind ≢ m.directory → is_equal m m ≡ false
unfolding is_equal
not-is_equal m ne = ground (arith, eq_iff m.kind m.directory)

-- A mount that is configured just as it stands, valid, and of a type that is not the text of its
-- directory, is unmounted first: `isEqual` does not find it equal to itself.
pub reconcile-umounts :
    (out : Outside) (filesystems default : String) (current : Map String Mount) (m : Mount)
    → is_valid out filesystems m ≡ none
    → lookup m.directory current ≡ some m
    → m.kind ≢ m.directory
    → (later : List Syscall) × ((reconcile out filesystems default current
          (m ∷ [])
          nothing_done).calls
        ≡ later ++ umounts m (out.umount_succeeds [] m) ∷ [])
unfolding reconcile contains_directory
reconcile-umounts out filesystems default current m ok there ne =
    elim (Bool-cases (out.umount_succeeds [] m)) [
      | inl done ↦ (
        mounts m (mount_options m default)
              (out.mount_succeeds (umounts m true ∷ []) m (mount_options m default))
            ∷ [],
        ground (arith, not-is_equal m ne),
      )
      | inr bad ↦ ([], ground (arith, not-is_equal m ne))
    ]

-- ===== src/WorkloadManager/Secrets.antt =====
-- What `updateSecrets` of internal/workload/manager.go makes of the secrets on the device.
use flotta_device_worker.Prelude.{
  Bool-cases, eq_iff, ◌≡◌, refl, sym, ◌∙◌, inl, inr, Bool, true, false, Option, none, some, String,
  List, [], ◌∷◌, ◌++◌, map, if◌then◌else◌, Map, lookup, insert, delete, string_eq, ◌==◌,
  lookup-insert, lookup-delete, arith,
}
use mathlib.Core.List.{append_assoc, append-nil}
use flotta_device_worker.WorkloadManager.{
  Call, removes, runs, creates_secret, updates_secret, removes_secret, Outside, Manager,
}
use flotta_device_worker.WorkloadManager.Update.{
  contains, without, distinct_names, call_secret, remove_secrets, put_secrets, update_secrets,
}
use flotta_device_worker.WorkloadManager.Stale.{contains-without, contains-distinct_names}

abbrev pub is_there : Option String → Bool
is_there none = false
is_there (some _) = true

-- The secrets after a call, as podman and `UpdateSecret` of internal/workload/podman/podman.go do it: a
-- secret is created only under a new name, and updated only under one that is there.
unfoldable pub effect : Call → Map String String → Map String String
effect (creates_secret name content) store =
    if is_there (lookup name store) then store else insert name content store
effect (updates_secret name content) store =
    if is_there (lookup name store) then insert name content (delete name store) else store
effect (removes_secret name) store = delete name store
effect (removes name) store = store
effect (runs name manifest auth_path) store = store

unfoldable pub effects : List Call → Map String String → Map String String
effects [] store = store
effects (c ∷ cs) store = effects cs (effect c store)

abbrev pub or_else : Option String → Option String → Option String
or_else none b = b
or_else (some a) b = some a

-- What a list of secrets says of a name: its first entry for it.
unfoldable pub configured : List (String × String) → String → Option String
configured [] name = none
configured ((n, content) ∷ rest) name =
    let later = configured rest name in if n == name then some content else later

effects-removes :
    (ds : List String) (store : Map String String) (n : String)
    → lookup n (effects (map removes_secret ds) store)
      ≡ (if contains n ds then none else lookup n store)
unfolding effects effect
effects-removes [] store n = refl
effects-removes (d ∷ ds) store n =
    effects-removes ds (delete d store) n ∙ ground (arith, lookup-delete d n store)

-- The names of a list are those of secrets.
abbrev Held : List String → Map String String → Type 0
Held device store = (n : String) → contains n device ≡ true → is_there (lookup n store) ≡ true

-- A call of the first loop, for a name that is on the device and not yet dealt with, or is not.
abbrev put : Bool → String → String → Call
put known k content = if known then updates_secret k content else creates_secret k content

-- What a name comes to, by what is listed, configured and there.
abbrev becomes : Bool → Option String → Option String → Option String
becomes listed config there = if listed then config else or_else there config

effect-update :
    (k content : String) (store : Map String String) (n : String)
    → is_there (lookup k store) ≡ true
    → lookup n (effect (updates_secret k content) store)
      ≡ (if k == n then some content else lookup n store)
unfolding effect
effect-update k content store n h =
    rw h (lookup-insert k n content (delete k store) ∙ ground (arith, lookup-delete k n store))

kept-there :
    (k content : String) (store : Map String String) (n : String)
    → is_there (lookup k store) ≡ true
    → lookup n store ≡ (if k == n then or_else (lookup n store) (some content) else lookup n store)
kept-there k content store n e = ground (arith, e, eq_iff k n)

effect-create :
    (k content : String) (store : Map String String) (n : String)
    → lookup n (effect (creates_secret k content) store)
      ≡ (if k == n then or_else (lookup n store) (some content) else lookup n store)
unfolding effect
effect-create k content store n = elim (Bool-cases (is_there (lookup k store))) [
  | inl e ↦ rw e (kept-there k content store n e)
  | inr e ↦ rw e (lookup-insert k n content store ∙ ground (arith, e, eq_iff k n))
]

-- One step of the first loop, by what follows it.
put_step :
    (k content : String) (device : List String) (later : Option String) (store : Map String String)
    (n : String)
    → Held device store
    → becomes
        (contains n (without k device))
        later
        (lookup n (effect (put (contains k device) k content) store))
      ≡ becomes (contains n device) (if k == n then some content else later) (lookup n store)
put_step k content device later store n h = elim (Bool-cases (contains k device)) [
  | inl e ↦
      rw (e, effect-update k content store n (h k e))
        (ground (arith, e, contains-without k n device, eq_iff k n))
  | inr e ↦
      rw (e, effect-create k content store n)
        (ground (arith, e, contains-without k n device, eq_iff k n))
]

put-Held :
    (k content : String) (device : List String) (store : Map String String)
    → Held device store
    → Held (without k device) (effect (put (contains k device) k content) store)
put-Held k content device store h n e =
    let before : is_there (lookup n store) ≡ true =
      h n (ground (arith, e, contains-without k n device)) in
    elim (Bool-cases (contains k device)) [
      | inl c ↦ rw (c, effect-update k content store n (h k c)) (ground (arith, before))
      | inr c ↦ rw (c, effect-create k content store n) (ground (arith, before))
    ]

becomes-none :
    (listed : Bool) (there : Option String)
    → (if listed then none else there) ≡ becomes listed none there
becomes-none true there = refl
becomes-none false none = refl
becomes-none false (some a) = refl

becomes-held :
    (listed : Bool) (config there : Option String)
    → listed ≡ is_there there
    → becomes listed config there ≡ config
becomes-held listed config none h = rw h refl
becomes-held listed config (some a) h = rw h refl

module _ {X : Type 0} (out : Outside X) where
  remove_secrets-calls :
      (ds : List String) (s : Manager)
      → (remove_secrets out ds s).1.calls ≡ s.calls ++ map removes_secret ds
  unfolding remove_secrets call_secret
  remove_secrets-calls [] s = sym (append-nil s.calls)
  remove_secrets-calls (d ∷ ds) s =
      remove_secrets-calls ds _ ∙ append_assoc s.calls (removes_secret d ∷ []) _

  -- The calls of both loops, and what they do to any store.
  abbrev Puts : List (String × String) → List String → Manager → Type 0
  Puts secrets device s =
      (more : List Call) × ((put_secrets out secrets device s).1.calls ≡ s.calls ++ more)
      × ((store : Map String String)
          → Held device store
          → (n : String)
          → lookup n (effects more store)
            ≡ becomes (contains n device) (configured secrets n) (lookup n store))

  put_secrets_lem : (secrets : _) (device : List String) (s : Manager) → Puts secrets device s
  unfolding put_secrets configured effects
  put_secrets_lem [] device s = (
    map removes_secret device,
    remove_secrets-calls device s,
    λ store h n. effects-removes device store n ∙ becomes-none (contains n device) (lookup n store),
  )
  put_secrets_lem ((k, content) ∷ secrets) device s =
      let call = put (contains k device) k content in
      let (more, calls, does) =
        put_secrets_lem secrets (without k device) (call_secret out k call s).1 in
      (
        call ∷ more,
        calls ∙ (unfold call_secret in append_assoc s.calls (call ∷ []) more),
        λ store h n.
            does (effect call store) (put-Held k content device store h) n
            ∙ put_step k content device (configured secrets n) store n h,
      )

  -- If the device's secrets can be listed, and podman does each call (it creates a secret only under a
  -- new name, and updates one only under a name that is there), the device has exactly the configured
  -- secrets after the calls that `updateSecrets` makes: under each name the first content that is
  -- configured for it, and nothing under a name that is not configured.
  pub update_secrets-configured :
      (secrets : List (String × String)) (s : Manager) (device : List String)
      (store : Map String String)
      → out.list_secrets s.calls ≡ some device
      → ((n : String) → contains n device ≡ is_there (lookup n store))
      → (more : List Call) × ((update_secrets out secrets s).1.calls ≡ s.calls ++ more)
        × ((n : String) → lookup n (effects more store) ≡ configured secrets n)
  unfolding update_secrets
  update_secrets-configured secrets s device store listed held =
      let (more, calls, does) = put_secrets_lem secrets (distinct_names device) s in
      let same : (n : String) → contains n (distinct_names device) ≡ is_there (lookup n store) =
        λ n. contains-distinct_names n device ∙ held n in
      (
        more,
        ground (arith, calls),
        λ n. does store (λ k e. sym (same k) ∙ e) n ∙ becomes-held _ _ _ (same n),
      )

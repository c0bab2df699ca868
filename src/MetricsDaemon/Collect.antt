-- ===== src/MetricsDaemon/Collect.antt =====
-- What a target collects (internal/metrics/daemon.go, internal/metrics/allow-list.go).
use flotta_device_worker.Prelude.{
  ◌≡◌, refl, ap, ◌∙◌, sym, inl, inr, Bool, false, Option, none, some, String, List, [], ◌∷◌, ◌++◌,
  if◌then◌else◌, Map, lookup, string_eq, Bool-cases, ◌==◌, ◌||◌,
}

-- model.Sample, by its labels and the rest, of a type `P`.
pub record Sample (P : Type 0) : Type 0 where
  pub metric : Map String String
  pub rest : P

abbrev pub metric_name_label : String
metric_name_label = "__name__"

-- `SampleFilter`: `PermissiveAllowList`, or `RestrictiveAllowList` with its names.
pub data SampleFilter : Type 0 where
  permissive : SampleFilter
  restrictive : List String → SampleFilter

-- `NewRestrictiveAllowList`, of a list that may be nil.
abbrev pub new_restrictive_allow_list : Option (List String) → SampleFilter
new_restrictive_allow_list none = restrictive []
new_restrictive_allow_list (some names) = restrictive names

abbrev pub is_one_of : String → List String → Bool
is_one_of name [] = false
is_one_of name (n ∷ ns) = n == name || is_one_of name ns

abbrev name_of : Option String → String
name_of none = ""
name_of (some n) = n

module _ {P : Type 0} where
  unfoldable pub allowed : List String → Sample P → Bool
  allowed names s = is_one_of (name_of (lookup metric_name_label s.metric)) names

  -- The loop of `RestrictiveAllowList.Filter`.
  unfoldable pub keep : List String → List (Sample P) → List (Sample P)
  keep names [] = []
  keep names (s ∷ ss) = let rest = keep names ss in if allowed names s then s ∷ rest else rest

  -- `Filter`
  unfoldable pub filter : SampleFilter → List (Sample P) → List (Sample P)
  unfolding keep
  filter permissive samples = samples
  filter (restrictive names) samples = keep names samples

  -- `Run`, over what each scraper answers: `none` is an error, which is skipped.
  unfoldable pub run : SampleFilter → List (Option (List (Sample P))) → List (Sample P)
  unfolding filter
  run f [] = []
  run f (none ∷ rest) = run f rest
  run f (some found ∷ rest) = filter f found ++ run f rest

  -- All that the scrapers found, in order.
  unfoldable pub found_by : List (Option (List (Sample P))) → List (Sample P)
  found_by [] = []
  found_by (none ∷ rest) = found_by rest
  found_by (some found ∷ rest) = found ++ found_by rest

  keep-append :
      (names : List String) (a b : List (Sample P))
      → keep names (a ++ b) ≡ keep names a ++ keep names b
  unfolding keep
  keep-append names [] b = refl
  keep-append names (s ∷ ss) b = elim (Bool-cases (allowed names s)) [
    | inl e ↦ rw e (ap (λ t. s ∷ t) (keep-append names ss b))
    | inr e ↦ rw e (keep-append names ss b)
  ]

  -- One run of a target collects exactly what one filter of everything that its scrapers found lets
  -- through, in order: a scraper that fails hides nothing of the others.
  pub run-filter :
      (f : SampleFilter) (answers : List (Option (List (Sample P))))
      → run f answers ≡ filter f (found_by answers)
  unfolding run found_by filter
  run-filter permissive [] = refl
  run-filter (restrictive names) [] = unfold keep in refl
  run-filter f (none ∷ rest) = run-filter f rest
  run-filter permissive (some found ∷ rest) = ap (λ t. found ++ t) (run-filter permissive rest)
  run-filter (restrictive names) (some found ∷ rest) =
      ap (λ t. keep names found ++ t) (run-filter (restrictive names) rest)
      ∙ sym (keep-append names found (found_by rest))

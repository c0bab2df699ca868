-- ===== src/Tsdb/Vector.antt =====
-- What `AddVector` of internal/metrics/metrics.go stores.
use flotta_device_worker.Prelude.{
  ℕ, ◌+◌, ◌≡◌, refl, ◌∙◌, ap, sym, ◌⊎◌, Option, none, some, String, List, [], ◌∷◌, ◌++◌, map, Map,
  lookup, insert, lookup-insert, string_eq, IsDistinct, arith, eq_iff, length, inl, inr,
}
use mathlib.Core.List.{append-nil, append_assoc}
use flotta_device_worker.Prelude.Int.{ℤ}
use flotta_device_worker.Tsdb.{
  insert_all, merge_labels_from_vector, Append, refuses, not_committed, commits, Sample, add_metric,
  add_vector, to_db_time,
}

abbrev pub first : Option String → Option String → Option String
first none b = b
first (some v) b = some v

insert_all_lem :
    (k : String) (a b : Map String String)
    → IsDistinct a
    → lookup k (insert_all a b) ≡ first (lookup k a) (lookup k b)
unfolding insert_all lookup
insert_all_lem k [] b h = refl
insert_all_lem k ((j, v) ∷ a) b h =
    ground (arith, eq_iff j k, h.0, insert_all_lem k a (insert j v b) h.1, lookup-insert j k v b)

first-none : (a : Option String) → first a none ≡ a
first-none none = refl
first-none (some v) = refl

-- A label of the metric is kept; of the others, those that the metric does not have.
pub merge_labels_from_vector_lem :
    (k : String) (metric labels : Map String String)
    → IsDistinct metric
    → IsDistinct labels
    → lookup k (merge_labels_from_vector metric labels) ≡ first (lookup k metric) (lookup k labels)
unfolding merge_labels_from_vector
merge_labels_from_vector_lem k metric labels h i =
    insert_all_lem k metric _ h
    ∙ ap (λ o. first (lookup k metric) o)
        (insert_all_lem k labels [] i ∙ unfold lookup in first-none _)

Append-cases : (a : Append) → (a ≡ commits) ⊎ (a ≡ refuses) ⊎ (a ≡ not_committed)
Append-cases commits = inl refl
Append-cases refuses = inr (inl refl)
Append-cases not_committed = inr (inr refl)

module _ {P : Type 0} (answer : Sample P → Append) where
  -- The sample of an item.
  abbrev pub sample : Map String String → Map String String × P × ℤ → Sample P
  sample labels (metric, value, now) = record {
    labels = merge_labels_from_vector metric labels;
    time = to_db_time now;
    value = value;
  }

  abbrev pub is_committed : Append → List (Sample P) → Sample P → List (Sample P)
  is_committed commits rest s = s ∷ rest
  is_committed _ rest s = rest

  -- The samples that the database commits.
  unfoldable pub committed : List (Sample P) → List (Sample P)
  committed [] = []
  committed (s ∷ rest) = is_committed (answer s) (committed rest) s

  abbrev pub Stores : List (Sample P) → List (Sample P) → ℕ → ℕ × List (Sample P) → Type 0
  Stores stored new n (errors, after) =
      (after ≡ stored ++ committed new) × (errors + length (committed new) ≡ n)

  -- All samples of the vector are tried, in order, also after one has failed: those that the database
  -- commits are stored after what was there, and the number of errors is that of the others.
  pub add_vector_lem :
      (items : List (Map String String × P × ℤ)) (labels : Map String String)
      (stored : List (Sample P))
      → Stores stored
          (map (sample labels) items)
          (length items)
          (add_vector answer items labels stored)
  unfolding add_vector committed add_metric
  add_vector_lem [] labels stored = (sym (append-nil stored), omega arith)
  add_vector_lem ((metric, value, now) ∷ rest) labels stored =
      elim (Append-cases (answer (sample labels (metric, value, now)))) [
        | inl e ↦
            let (p, q) =
              add_vector_lem rest labels (stored ++ sample labels (metric, value, now) ∷ []) in
            rw e (
              p
                  ∙ append_assoc stored (sample labels (metric, value, now) ∷ [])
                      (committed (map (sample labels) rest)),
              omega (arith, q),
            )
        | inr (inl e) ↦ let (p, q) = add_vector_lem rest labels stored in rw e (p, omega (arith, q))
        | inr (inr e) ↦ let (p, q) = add_vector_lem rest labels stored in rw e (p, omega (arith, q))
      ]

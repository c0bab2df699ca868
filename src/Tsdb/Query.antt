-- ===== src/Tsdb/Query.antt =====
-- `GetMetricsForTimeRange` of internal/metrics/metrics.go: what a query of the database is turned into.
use flotta_device_worker.Prelude.{
  Bool, Option, none, some, String, List, [], ◌∷◌, map, Map, insert, string_eq,
}
use flotta_device_worker.Prelude.Int.{ℤ}
use flotta_device_worker.Tsdb.{to_db_time}

-- `DataPoint` and `Series`
pub record DataPoint (P : Type 0) : Type 0 where
  pub time : ℤ
  pub value : P

pub record Series (P : Type 0) : Type 0 where
  pub labels : Map String String
  pub data_points : List (DataPoint P)

-- A matcher: the label matches the regular expression.
pub record Matcher : Type 0 where
  pub name : String
  pub expression : String

-- A series as the database gives it: its labels, and the times and values of its samples.
pub record Raw (P : Type 0) : Type 0 where
  pub raw_labels : List (String × String)
  pub samples : List (ℤ × P)

-- The database: whether there is a querier for a range, its label names, and what matches; `none` is an
-- error. What was read of the series when their iteration ended is all that there is.
pub record Database (P : Type 0) : Type 0 where
  pub querier : ℤ → ℤ → Option (Unit {0})
  pub label_names : Option (List String)
  pub select : Bool → List Matcher → Option (List (Raw P))

pub data QueryErr : Type 0 where
  no_querier no_label_names not_selected : QueryErr

pub data Answer (P : Type 0) : Type 0 where
  failed : QueryErr → Answer P
  found : List (Series P) → Answer P

-- `getAllLabelsMatchers`
unfoldable pub get_all_labels_matchers : List String → List Matcher
get_all_labels_matchers = map (λ name. record { name = name; expression = ".*" })

-- The map of the labels.
unfoldable pub labels_map : List (String × String) → Map String String → Map String String
labels_map [] m = m
labels_map ((name, value) ∷ rest) m = labels_map rest (insert name value m)

module _ {P : Type 0} where
  abbrev pub point : ℤ × P → DataPoint P
  point (t, v) = record { time = t; value = v }

  -- One round of the loop of `toSeries`.
  unfoldable pub to_one : Raw P → Series P
  unfolding labels_map
  to_one raw = record { labels = labels_map raw.raw_labels []; data_points = map point raw.samples }

  -- `toSeries`
  unfoldable pub to_series : List (Raw P) → List (Series P)
  unfolding to_one
  to_series = map to_one

  -- `GetMetricsForTimeRange`
  unfoldable pub get_metrics_for_time_range : Database P → ℤ → ℤ → Bool → Answer P
  unfolding to_series get_all_labels_matchers to_db_time
  get_metrics_for_time_range db t_min t_max sort =
      elim (db.querier (to_db_time t_min) (to_db_time t_max)) [
        | none ↦ failed no_querier
        | some _ ↦ elim db.label_names [
          | none ↦ failed no_label_names
          | some names ↦ elim (db.select sort (get_all_labels_matchers names)) [
            | none ↦ failed not_selected
            | some set ↦ found (to_series set)
          ]
        ]
      ]

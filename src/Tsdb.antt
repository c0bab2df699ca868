-- ===== src/Tsdb.antt =====
-- internal/metrics/metrics.go: the time series database of the device, over that of Prometheus.
pub mod Retention
pub mod Times
pub mod Vector
pub mod Query
mod Tests
use flotta_device_worker.Prelude.{
  ℕ, suc, ◌+◌, ◌*◌, ◌-◌, ◌/◌, ◌%◌, ◌^◌, Bool, true, false, ◌&&◌, Option, none, some, String, List,
  [], ◌∷◌, ◌++◌, map, Map, insert, string_eq, if◌then◌else◌, nat_beq, ltb,
}
use flotta_device_worker.Prelude.Int.{ℤ, pos, negsuc, int_beq}

-- k * z
abbrev pub scale : ℕ → ℤ → ℤ
scale k (pos n) = pos (n * k)
scale k (negsuc n) = negsuc (suc n * k - 1)

-- The options that are set: milliseconds and bytes. The bounds of the configuration are 32 bits wide, so
-- their products do not overflow 64.
pub record Options : Type 0 where
  pub retention_duration : ℤ
  pub max_bytes : ℤ

-- models.MetricsRetention
pub record MetricsRetention : Type 0 where
  pub max_mib : ℤ
  pub max_hours : ℤ

abbrev pub millis_in_hour : ℕ
millis_in_hour = 60 * 60 * 1000

abbrev pub default_options : Options
default_options = record { retention_duration = pos (7 * 24 * millis_in_hour); max_bytes = pos 0 }

-- `TSDB`: the options that count as applied, and the database, which is open with some options or closed.
pub record Tsdb : Type 0 where
  pub applied_options : Options
  pub db : Option Options

pub data Err : Type 0 where
  no_directory not_opened not_closed not_removed panics : Err

-- `NewTSDB`, for whether the directory is made and the database opens.
unfoldable pub new_tsdb : Bool → Bool → Option Err × Option Tsdb
new_tsdb false opens = (some no_directory, none)
new_tsdb true false = (some not_opened, none)
new_tsdb true true =
    (none, some (record { applied_options = default_options; db = some default_options }))

-- `Close`, for whether the database closes without an error: it is closed in any case. One that is
-- closed already panics.
unfoldable pub close : Bool → Tsdb → Option Err × Tsdb
close closes t = elim t.db [
  | none ↦ (some panics, t)
  | some _ ↦ (if closes then none else some not_closed, record t { db = none })
]

abbrev pub remove_after : Option Err → Bool → Option Err
remove_after (some e) removes = some e
remove_after none true = none
remove_after none false = some not_removed

-- `Deregister`, for that and whether the directory can be removed.
unfoldable pub deregister : Bool → Bool → Tsdb → Option Err × Tsdb
unfolding close
deregister closes removes t =
    let closed = close closes t in (remove_after closed.0 removes, closed.1)

-- What `Update` takes from the configuration.
unfoldable pub wanted_options : Option MetricsRetention → Options
wanted_options none = default_options
wanted_options (some r) = record {
  retention_duration = scale millis_in_hour r.max_hours;
  max_bytes = scale 1024 (scale 1024 r.max_mib);
}

abbrev pub same_options : Options → Options → Bool
same_options a b =
    int_beq a.retention_duration b.retention_duration && int_beq a.max_bytes b.max_bytes

-- The part of `Update` that opens the database again: the options count as applied before that.
abbrev pub reopen : Option Err → Bool → Options → Tsdb → Option Err × Tsdb
reopen (some e) opens options t = (some e, t)
reopen none true options t = (none, record t { applied_options = options; db = some options })
reopen none false options t = (some not_opened, record t { applied_options = options; db = none })

-- `Update` and `Init`, for whether the database closes, and opens again.
unfoldable pub update : Bool → Bool → Option MetricsRetention → Tsdb → Option Err × Tsdb
unfolding wanted_options close
update closes opens config t =
    let options = wanted_options config in
    let closed = close closes t in
    if same_options options t.applied_options
    then (none, t)
    else reopen closed.0 opens options closed.1

-- A time.Time: none is the zero time, else the nanoseconds since 1970.
abbrev pub Time : Type 0
Time = Option ℤ

-- Division as in Go, toward 0.
abbrev pub quotient : ℤ → ℕ → ℤ
quotient (pos n) k = pos (n / k)
quotient (negsuc n) k = let q = suc n / k in if nat_beq q 0 then pos 0 else negsuc (q - 1)

-- An int64, which wraps around.
abbrev pub int64 : ℤ → ℤ
int64 (pos n) = let m = n % 2 ^ 64 in if ltb m (2 ^ 63) then pos m else negsuc (2 ^ 64 - 1 - m)
int64 (negsuc n) = let m = n % 2 ^ 64 in if ltb m (2 ^ 63) then negsuc m else pos (2 ^ 64 - 1 - m)

-- `toDbTime`, for a time that is not the zero time.
unfoldable pub to_db_time : ℤ → ℤ
to_db_time t = quotient (int64 t) 1000000

-- time.Unix of the seconds and of the milliseconds that are left, for an absolute value.
abbrev pub unix : ℕ → ℕ
unix n = n / 1000 * 1000000000 + n % 1000 * 1000000

-- `fromDbTime`, with the two bounds of an int64.
unfoldable pub from_db_time : ℤ → Time
from_db_time (pos n) =
    if nat_beq n 0 then none else if nat_beq n (2 ^ 63 - 1) then none else some (pos (unix n))
from_db_time (negsuc n) = if nat_beq n (2 ^ 63 - 1) then none else some (negsuc (unix (suc n) - 1))

-- `Block`, and `Blocks` over the bounds of the blocks.
pub record Block : Type 0 where
  pub min_time : Time
  pub max_time : Time

unfoldable pub blocks : List (ℤ × ℤ) → List Block
unfolding from_db_time
blocks = map (λ b. record { min_time = from_db_time b.0; max_time = from_db_time b.1 })

-- `MinTime`, `MaxTime` and `HeadMinTime`, for what the database answers.
unfoldable pub min_time : Option ℤ → Option Time
unfolding from_db_time
min_time none = none
min_time (some start) = some (from_db_time start)

unfoldable pub max_time : ℤ → Time
unfolding from_db_time
max_time = from_db_time

-- `mergeLabelsFromVector`: those of the metric replace the others.
unfoldable pub insert_all : Map String String → Map String String → Map String String
insert_all [] labels = labels
insert_all ((k, v) ∷ rest) labels = insert_all rest (insert k v labels)

unfoldable pub merge_labels_from_vector : Map String String → Map String String → Map String String
unfolding insert_all
merge_labels_from_vector metric labels = insert_all metric (insert_all labels [])

-- What the appender of the database answers to a sample.
pub data Append : Type 0 where
  refuses not_committed commits : Append

-- A sample of the database, at a time in milliseconds.
pub record Sample (P : Type 0) : Type 0 where
  pub labels : Map String String
  pub time : ℤ
  pub value : P

module _ {P : Type 0} (answer : Sample P → Append) where
  abbrev pub appended : Append → Sample P → List (Sample P) → Bool × List (Sample P)
  appended commits s stored = (true, stored ++ s ∷ [])
  appended _ s stored = (false, stored)

  -- `AddMetric` at a time: a sample that is refused is rolled back. The samples are those committed.
  unfoldable pub add_metric : P → Map String String → ℤ → List (Sample P) → Bool × List (Sample P)
  add_metric value labels now stored =
      let s : Sample P = record { labels = labels; time = to_db_time now; value = value } in
      appended (answer s) s stored

  abbrev pub count_error : Bool → ℕ → ℕ
  count_error true n = n
  count_error false n = suc n

  -- The loop of `AddVector`, with the time of each call: how many samples failed.
  unfoldable pub add_vector :
      List (Map String String × P × ℤ) → Map String String → List (Sample P) → ℕ × List (Sample P)
  unfolding add_metric
  add_vector [] labels stored = (0, stored)
  add_vector ((metric, value, now) ∷ rest) labels stored =
      let added = add_metric value (merge_labels_from_vector metric labels) now stored in
      let others = add_vector rest labels added.1 in (count_error added.0 others.0, others.1)

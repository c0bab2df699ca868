-- ===== src/Tsdb/Times.antt =====
-- The times that internal/metrics/metrics.go gives to the database and takes from it.
use flotta_device_worker.Prelude.{
  ◌%◌, ◌^◌, ◌≤◌, ◌<◌, ℕ, suc, ◌-◌, ◌/◌, ◌^◌, ◌≡◌, ◌≢◌, none, some, arith,
}
use flotta_device_worker.Prelude.Int.{ℤ, pos, negsuc}
use flotta_device_worker.Tsdb.{Time, to_db_time, from_db_time, unix}

unix_lem : (n : ℕ) → unix n / 1000000 ≡ n
unix_lem n = omega arith

unix-pos : (n : ℕ) → suc (unix (suc n) - 1) / 1000000 ≡ suc n
unix-pos n = omega arith

-- A time of the database that is not 0 and whose nanoseconds fit in an int64.
abbrev pub IsInstant : ℤ → Type 0
IsInstant (pos n) = (n ≢ 0) × (n ≤ 9223372036854)
IsInstant (negsuc n) = n < 9223372036854

abbrev pub Reads : ℤ → Time → Type 0
Reads t none = ⊥
Reads t (some time) = to_db_time time ≡ t

small : (n : ℕ) → n < 2 ^ 63 → n % 2 ^ 64 ≡ n
small n h = omega arith

unix-lt : (n : ℕ) → n ≤ 9223372036854 → unix n < 2 ^ 63
unix-lt n h = omega arith

-- A time of the database that is not 0, and whose nanoseconds fit in an int64, comes back when it is
-- converted to a time and back to that of the database.
pub to_db_time-from_db_time : (t : ℤ) → IsInstant t → Reads t (from_db_time t)
unfolding to_db_time from_db_time
to_db_time-from_db_time (pos n) h = ground (arith, h.0, h.1, unix_lem n, small (unix n), unix-lt n)
to_db_time-from_db_time (negsuc n) h =
    ground (arith, h, unix-pos n, small (unix (suc n) - 1), unix-lt (suc n))

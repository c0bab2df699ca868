-- ===== src/Tsdb/Tests.antt =====
-- The theorems on internal/metrics/metrics.go at concrete inputs.
use flotta_device_worker.Prelude.{
  ℕ, zero, suc, refl, true, false, none, some, List, [], ◌∷◌, String, Map, string_eq,
}
use flotta_device_worker.Prelude.Int.{ℤ, pos}
use flotta_device_worker.Tsdb.{Tsdb, Append, commits, refuses, Sample, default_options, add_vector}
use flotta_device_worker.Tsdb.Retention.{IsLeft, asked_last, Attempt, update_all, update_all-IsLeft}
use flotta_device_worker.Tsdb.Vector.{Stores, sample, add_vector_lem}
use flotta_device_worker.Prelude.{map}

abbrev fresh : Tsdb
fresh = record { applied_options = default_options; db = some default_options }

-- A shorter retention, with which the database does not open, and the default again.
abbrev attempts : List Attempt
attempts =
    record {
      closes = true;
      opens = false;
      config = some (record { max_mib = pos 0; max_hours = pos 1 });
    }
    ∷ record { closes = true; opens = true; config = none }
    ∷ []

update_all-IsLeft_example :
    let (failed, t) = update_all attempts false fresh in
    IsLeft failed (asked_last attempts default_options) t
update_all-IsLeft_example = update_all-IsLeft attempts false default_options fresh (refl, refl)

-- The database refuses samples of the value 0.
abbrev picky : Sample ℕ → Append
picky s = elim s.value [ zero ↦ refuses | suc n ↦ commits ]

abbrev vector : List (Map String String × ℕ × ℤ)
vector = (("job", "node") ∷ [], 0, pos 5000000) ∷ (("job", "node") ∷ [], 7, pos 6000000) ∷ []

add_vector_lem_example :
    Stores picky []
      (map (sample picky (("job", "old") ∷ [])) vector)
      2
      (add_vector picky vector (("job", "old") ∷ []) [])
add_vector_lem_example = add_vector_lem picky vector (("job", "old") ∷ []) []

-- ===== src/RemoteWrite/Tests.antt =====
-- The theorems on internal/metrics/remote_write.go at concrete inputs.
use flotta_device_worker.Prelude.{
  ℕ, ◌≤◌, ◌<◌, ◌≡◌, refl, ◌⊎◌, Bool, true, false, Option, none, some, String, List, [], ◌∷◌, ◌++◌,
  Map, length, All, arith,
}
use flotta_device_worker.Prelude.Int.{pos}
use flotta_device_worker.RemoteWrite.Series.{Series, samples}
use flotta_device_worker.RemoteWrite.Request.{Attempt, Receiver, accepted, recoverable, settled}
use flotta_device_worker.RemoteWrite.Range.{write_range}
use flotta_device_worker.RemoteWrite.Range.Cut.{carried, IsPacked}
use flotta_device_worker.RemoteWrite.Range.Loop.{write_range_lem}
use flotta_device_worker.RemoteWrite.Window.{
  Block, Tsdb, Window, stopped, skip_empty_ranges, window_round, write,
}
use flotta_device_worker.RemoteWrite.Window.Skip.{InBlock, skip_empty_ranges-gap}
use flotta_device_worker.RemoteWrite.Window.Progress.{write-returns}
use flotta_device_worker.RemoteWrite.Control.{ReceiverConfig, Control, Outside, written, update}
use flotta_device_worker.RemoteWrite.Control.Invariant.{IsSteady, update-IsSteady}

-- A receiver that answers the first attempt with a recoverable error, and accepts the others.
abbrev receiver : Receiver ℕ ℕ
receiver = record {
  encode = λ series. some (length series);
  write = λ log body. elim log [ [] ↦ recoverable | _ ↦ accepted ];
}

abbrev two_series : List (Series ℕ)
two_series =
    record { labels = ("__name__", "up") ∷ []; data_points = 1 ∷ 2 ∷ 3 ∷ [] }
    ∷ record { labels = ("__name__", "load") ∷ []; data_points = 4 ∷ 5 ∷ [] }
    ∷ []

write_range_lem_example :
    (out : Bool × List (Attempt ℕ)) × (sent : List (List (Series ℕ))) × (left : List
      (Map String String × ℕ))
    × (write_range receiver 2 8 two_series [] ≡ some out)
    × (settled out.1 ≡ settled [] ++ sent)
    × (carried sent ++ left ≡ samples two_series)
    × (out.0 ≡ true → left ≡ [])
    × IsPacked 2 sent
write_range_lem_example =
    write_range_lem receiver 2 8 two_series [] (omega arith) (unfold samples in omega arith)

abbrev block : Block
block = record { min_time = 10; max_time = 20 }

abbrev tsdb : Tsdb ℕ
tsdb = record {
  max_time = 40;
  min_time = some 10;
  head_min_time = 30;
  blocks = block ∷ [];
  metrics = λ from to. some two_series;
}

skip_empty_ranges-gap_example :
    (5 ≤ skip_empty_ranges tsdb 5)
    × ((x : ℕ)
        → 5 ≤ x
        → x < skip_empty_ranges tsdb 5
        → All (λ b. ¬ (InBlock x b)) (block ∷ []) × (x < 30))
skip_empty_ranges-gap_example =
    skip_empty_ranges-gap tsdb 5 (omega arith) (omega arith, tt, tt) (omega arith, tt)

abbrev window : Window
window = record { last_write = 0; had_empty_range = false; last_write_file = none }

abbrev save : ℕ → Option ℕ → Option ℕ
save t file = some t

write-returns_example :
    (w' : Window) × (log' : List (Attempt ℕ)) × (write receiver save "device" 3600 2 41
        (λ n. tsdb)
        window
        []
      ≡ some (w', log'))
    × (0 ≤ w'.last_write)
    × ((w'.last_write ≤ 40) ⊎ (w' ≡ window))
    × ((40 ≤ w'.last_write)
        ⊎ ((k : ℕ) × (before : List (Attempt ℕ)) × (window_round receiver save "device" 3600 2 tsdb
                w' before
              ≡ stopped log')))
write-returns_example =
    write-returns receiver save "device" 3600 2 41 40 (λ n. tsdb) window [] (λ n. refl)
      (omega arith) (omega arith)

abbrev config : ReceiverConfig
config = record {
  url = "https://metrics";
  ca_cert = "";
  timeout_seconds = pos 10;
  request_num_samples = pos 30000;
}

abbrev outside : Outside
outside = record {
  parses = λ url. true;
  temp_file = written "ca-1";
  makes_client = true;
  dir_readable = true;
  removable = λ file. true;
}

abbrev idle : Control
idle = record {
  config = none;
  client = none;
  is_running = false;
  current_server_ca_file = "";
  ca_files = [];
  routines = 0;
}

idle-IsSteady : IsSteady idle
idle-IsSteady = record {
  one_routine = refl;
  client_config = λ client e. cc;
  served = λ n. absurd (n refl);
  enabled = λ e. cc;
  only_enabled = λ n. absurd (n refl);
}

update-IsSteady_example : IsSteady (update outside (some config) idle).1
update-IsSteady_example = update-IsSteady outside (some config) idle idle-IsSteady

abbrev running_control : Control
running_control = record {
  config = some config;
  client = some config;
  is_running = true;
  current_server_ca_file = "";
  ca_files = [];
  routines = 1;
}

running-IsSteady : IsSteady running_control
running-IsSteady = record {
  one_routine = refl;
  client_config = λ client e. e;
  served = λ n. refl;
  enabled = λ e. λ q. cc;
  only_enabled = λ n. refl;
}

-- ===== src/Heartbeat.antt =====
-- internal/heartbeat/heartbeat.go: the messages that tell the operator how the device is, and the
-- ticker that sends them.
pub mod Timing
mod Tests
pub mod Beat
pub mod Push
use flotta_device_worker.Prelude.{
  ℕ, suc, ◌+◌, Bool, true, false, not, ◌&&◌, ◌||◌, Option, none, some, String, List, [], ◌∷◌, ◌++◌,
  if◌then◌else◌, string_eq, ◌==◌, nat_beq,
}
use flotta_device_worker.Prelude.Int.{ℤ, pos, negsuc, is_positive, int_beq}

-- A ticker that was made, by its period and whether it still runs.
pub record Ticker : Type 0 where
  pub period : ℤ
  pub runs : Bool

-- The fields of `Heartbeat` about the ticker. `abandoned` are the tickers that run and that no field
-- refers to any more.
pub record Timer : Type 0 where
  pub ticker : Option Ticker
  pub previous_period_seconds : ℤ
  pub abandoned : List Ticker

abbrev pub new_timer : Timer
new_timer = record { ticker = none; previous_period_seconds = negsuc 0; abandoned = [] }

-- `getInterval`, for the period of the heartbeat configuration, if there is one.
unfoldable pub get_interval : Option ℤ → ℤ
get_interval none = pos 60
get_interval (some period) = if is_positive period then period else pos 60

-- `HasStarted`
abbrev pub has_started : Option Ticker → Bool
has_started none = false
has_started (some _) = true

-- `stopTicker`
unfoldable pub stop_ticker : Timer → Timer
stop_ticker t = elim t.ticker [
  | none ↦ t
  | some k ↦ record t { ticker = some (record k { runs = false }) }
]

abbrev pub running_ones : Option Ticker → List Ticker
running_ones none = []
running_ones (some k) = if k.runs then k ∷ [] else []

-- `initTicker`
unfoldable pub init_ticker : ℤ → Timer → Timer
init_ticker period t = record t {
  ticker = some (record { period = period; runs = true });
  abandoned = running_ones t.ticker ++ t.abandoned;
}

-- `Start`, with the period of the configuration in force.
unfoldable pub start : Option ℤ → Timer → Timer
unfolding get_interval init_ticker
start period t =
    let interval = get_interval period in
    init_ticker interval (record t { previous_period_seconds = interval })

-- `Update`, with the period of the new configuration.
unfoldable pub update : Option ℤ → Timer → Timer
unfolding get_interval init_ticker stop_ticker
update period t =
    let interval = get_interval period in
    if not (is_positive t.previous_period_seconds)
      || not (int_beq t.previous_period_seconds interval)
    then init_ticker interval (record (stop_ticker t) { previous_period_seconds = interval })
    else t

-- `Deregister`
unfoldable pub deregister : Timer → Timer
unfolding stop_ticker
deregister t = stop_ticker t

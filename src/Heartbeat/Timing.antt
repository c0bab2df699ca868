-- ===== src/Heartbeat/Timing.antt =====
-- How many heartbeat tickers run (internal/heartbeat/heartbeat.go).
use flotta_device_worker.Prelude.{
  ◌≡◌, refl, ap, ◌∙◌, inl, inr, true, Option, none, some, [], ◌++◌, arith, Bool-cases,
}
use flotta_device_worker.Prelude.Int.{ℤ, pos, negsuc, is_positive, int_beq}
use flotta_device_worker.Heartbeat.{
  Ticker, Timer, get_interval, stop_ticker, update, deregister, running_ones, has_started,
}

-- A heartbeat period is never zero or negative, whatever the configuration says.
get_interval-positive : (period : Option ℤ) → is_positive (get_interval period) ≡ true
unfolding get_interval
get_interval-positive none = refl
get_interval-positive (some (pos n)) = ground arith
get_interval-positive (some (negsuc n)) = refl

int_beq_eq : (a b : ℤ) → int_beq a b ≡ true → a ≡ b
int_beq_eq (pos m) (pos n) h = ground arith
int_beq_eq (negsuc m) (negsuc n) h = ground arith
int_beq_eq (pos m) (negsuc n) h = cc
int_beq_eq (negsuc m) (pos n) h = cc

-- No ticker is lost, and a ticker was made with the period in force.
pub record IsTimed (t : Timer) : Type 0 where
  pub none_lost : t.abandoned ≡ []
  pub made : is_positive t.previous_period_seconds ≡ true → has_started t.ticker ≡ true
  pub period : (k : Ticker) → t.ticker ≡ some k → k.period ≡ t.previous_period_seconds

int_beq_refl : (a : ℤ) → int_beq a a ≡ true
int_beq_refl (pos n) = ground arith
int_beq_refl (negsuc n) = ground arith

stopped : (t : Timer) → running_ones (stop_ticker t).ticker ≡ []
unfolding stop_ticker
stopped t = ground arith

abandoned-stop : (t : Timer) → (stop_ticker t).abandoned ≡ t.abandoned
unfolding stop_ticker
abandoned-stop t = ground arith

renewed-IsTimed :
    (interval : ℤ) (t : Timer)
    → IsTimed t
    → IsTimed (record t {
      ticker = some (record { period = interval; runs = true });
      previous_period_seconds = interval;
      abandoned = running_ones (stop_ticker t).ticker ++ (stop_ticker t).abandoned;
    })
renewed-IsTimed interval t h = record {
  none_lost = rw (stopped t, abandoned-stop t) h.none_lost;
  made = λ q. refl;
  period = λ k q. cc;
}

-- After an update the ticker has the configured period, which is positive, and no other runs.
pub update-IsTimed :
    (period : Option ℤ) (t : Timer)
    → IsTimed t
    → IsTimed (update period t)
      × ((update period t).previous_period_seconds ≡ get_interval period)
      × (is_positive (get_interval period) ≡ true)
update-IsTimed period t h =
    let interval = get_interval period in
    elim (Bool-cases (int_beq t.previous_period_seconds interval)) [
      | inr other ↦
          let q : update period t ≡ record t {
            ticker = some (record { period = interval; runs = true });
            previous_period_seconds = interval;
            abandoned = running_ones (stop_ticker t).ticker ++ (stop_ticker t).abandoned;
          } =
            unfold update in ground (arith) in
          rw q (renewed-IsTimed interval t h, refl, get_interval-positive period)
      | inl same ↦
          let e = int_beq_eq t.previous_period_seconds interval same in
          let positive : is_positive t.previous_period_seconds ≡ true =
            ap is_positive e ∙ get_interval-positive period in
          let q : update period t ≡ t = unfold update in ground arith in
          rw q (h, e, get_interval-positive period)
    ]

-- The ticker of a heartbeat service that was told to deregister runs no more, and an update that
-- changes no period does not start it again.
pub deregister-update :
    (period : Option ℤ) (t : Timer)
    → t.previous_period_seconds ≡ get_interval period
    → running_ones (update period (deregister t)).ticker ≡ []
unfolding deregister
deregister-update period t same =
    let t' = deregister t in
    let e : t'.previous_period_seconds ≡ get_interval period = unfold stop_ticker in ground arith in
    let positive : is_positive t'.previous_period_seconds ≡ true =
      ap is_positive e ∙ get_interval-positive period in
    let q : update period t' ≡ t' =
      unfold update in ground (arith, int_beq_refl t'.previous_period_seconds) in
    rw q (unfold stop_ticker in ground arith)

-- ===== src/MetricsDaemon/Targets.antt =====
-- The goroutines of internal/metrics/daemon.go as a step relation. Each locked section is one step, and
-- so is each turn of the loop in `Start`; the scheduler chooses the order of the steps.
use flotta_device_worker.Prelude.{ℕ, suc, ◌≡◌, Bool, true, false, if◌then◌else◌, nat_beq, string_eq}

-- Where a goroutine of `Start` is: nowhere, launched and not yet at the lock, on the way to `select`
-- (from the lock or in `getdata`), waiting in `select` on the context that it read, or returned.
pub data Pc : Type 0 where
  absent starting running ended : Pc
  waiting : ℕ → Pc

-- A `TargetMetric`, of the interval's field and the like only what decides who runs. Contexts are
-- numbered as they are made; `next` is the number of the next one.
pub record Target : Type 0 where
  pub ctx : ℕ
  pub has_cancel : Bool
  pub cancelled : ℕ → Bool
  pub next : ℕ
  pub goroutines : ℕ → Pc

abbrev pub at {ℓ} : {A : Type ℓ} → (ℕ → A) → ℕ → A → ℕ → A
at f i a j = if nat_beq i j then a else f j

-- `NewTargetMetric`
abbrev pub new_target_metric : Target
new_target_metric = record {
  ctx = 0;
  has_cancel = false;
  cancelled = λ c. false;
  next = 0;
  goroutines = λ g. absent;
}

-- tg.cancel(), of the context that it was made with
unfoldable pub cancel_current : Target → Target
cancel_current t = if t.has_cancel then record t { cancelled = at t.cancelled t.ctx true } else t

-- The locked section of `Start`, by the goroutine `g`.
unfoldable pub begin : ℕ → Target → Target
unfolding cancel_current
begin g t =
    let t' = cancel_current t in
    record t' {
      ctx = t'.next;
      has_cancel = true;
      next = suc t'.next;
      goroutines = at t'.goroutines g running;
    }

-- `Stop`
unfoldable pub stop : Target → Target
unfolding cancel_current
stop t = record (cancel_current t) { has_cancel = false }

-- A step of one goroutine, or of `go target.Start()` or `Stop`.
pub data Step : Target → Target → Type 0 where
  -- go target.Start()
  launches :
      {t : Target} (g : ℕ)
      → t.goroutines g ≡ absent
      → Step t (record t { goroutines = at t.goroutines g starting })
  begins : {t : Target} (g : ℕ) → t.goroutines g ≡ starting → Step t (begin g t)
  -- the ticker or a forced event, which `select` may prefer to a context that is done
  wakes :
      {t : Target} (g c : ℕ)
      → t.goroutines g ≡ waiting c
      → Step t (record t { goroutines = at t.goroutines g running })
  -- `select`, which reads `tg.ctx` each time
  waits :
      {t : Target} (g : ℕ)
      → t.goroutines g ≡ running
      → Step t (record t { goroutines = at t.goroutines g (waiting t.ctx) })
  -- tg.ctx.Done()
  returns :
      {t : Target} (g c : ℕ)
      → t.goroutines g ≡ waiting c
      → t.cancelled c ≡ true
      → Step t (record t { goroutines = at t.goroutines g ended })
  stops : {t : Target} → Step t (stop t)

pub data Steps : Target → Target → Type 0 where
  here : {t : Target} → Steps t t
  later : {t u v : Target} → Steps t u → Step u v → Steps t v

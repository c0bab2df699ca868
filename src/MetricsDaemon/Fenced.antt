-- ===== src/MetricsDaemon/Fenced.antt =====
-- Which contexts of a target are live (internal/metrics/daemon.go).
use flotta_device_worker.Prelude.{ℕ, ◌≤◌, ◌<◌, ◌≡◌, refl, true, false, arith}
use flotta_device_worker.MetricsDaemon.Targets.{
  Pc, starting, running, ended, waiting, Target, at, new_target_metric, cancel_current, begin, stop,
  Step, launches, begins, wakes, waits, returns, stops, Steps, here, later,
}

-- A context that was made and is not cancelled is the current one, of a target that is not stopped; and
-- a goroutine waits on a context that was made.
pub record IsFenced (t : Target) : Type 0 where
  pub live : (c : ℕ) → c < t.next → t.cancelled c ≡ false → (c ≡ t.ctx) × (t.has_cancel ≡ true)
  pub uncancelled : (c : ℕ) → t.next ≤ c → t.cancelled c ≡ false
  pub current : t.has_cancel ≡ true → (t.ctx < t.next) × (t.cancelled t.ctx ≡ false)
  pub current_made : 0 < t.next → t.ctx < t.next
  pub on_the_way : (g : ℕ) → t.goroutines g ≡ running → 0 < t.next
  pub made : (g c : ℕ) → t.goroutines g ≡ waiting c → c < t.next

new_target_metric-IsFenced : IsFenced new_target_metric
new_target_metric-IsFenced = record {
  live = λ c l. absurd (omega (arith, l));
  uncancelled = λ c l. refl;
  current = λ e. cc;
  current_made = λ l. absurd (omega (arith, l));
  on_the_way = λ g e. cc;
  made = λ g c e. cc;
}

goes-IsFenced :
    (t : Target) (g : ℕ) (p : Pc)
    → IsFenced t
    → (p ≡ running → 0 < t.next)
    → ((c : ℕ) → p ≡ waiting c → c < t.next)
    → IsFenced (record t { goroutines = at t.goroutines g p })
goes-IsFenced t g p h way made = record {
  live = h.live;
  uncancelled = h.uncancelled;
  current = h.current;
  current_made = h.current_made;
  on_the_way = λ k e. ground (arith, h.on_the_way k, way);
  made = λ k c e. ground (arith, h.made k c, made c);
}

pub begin-IsFenced : (t : Target) (g : ℕ) → IsFenced t → IsFenced (begin g t)
unfolding begin cancel_current
begin-IsFenced t g h = record {
  live = λ c l e. ground (arith, h.live c, h.current);
  uncancelled = λ c l. ground (arith, h.uncancelled c, h.current);
  current = λ e. ground (arith, h.uncancelled t.next, h.current);
  current_made = λ l. ground arith;
  on_the_way = λ k e. ground arith;
  made = λ k c e. ground (arith, h.made k c);
}

pub stop-IsFenced : (t : Target) → IsFenced t → IsFenced (stop t)
unfolding stop cancel_current
stop-IsFenced t h = record {
  live = λ c l e. ground (arith, h.live c);
  uncancelled = λ c l. ground (arith, h.uncancelled c, h.current);
  current = λ e. cc;
  current_made = λ l. ground (arith, h.current_made);
  on_the_way = λ k e. ground (arith, h.on_the_way k);
  made = λ k c e. ground (arith, h.made k c);
}

pub Step-IsFenced : {t u : Target} → Step t u → IsFenced t → IsFenced u
Step-IsFenced {t} (launches g e) h = goes-IsFenced t g starting h (λ q. cc) (λ c q. cc)
Step-IsFenced {t} (begins g e) h = begin-IsFenced t g h
Step-IsFenced {t} (wakes g c e) h =
    goes-IsFenced t g running h (λ q. omega (arith, h.made g c e)) (λ c q. cc)
Step-IsFenced {t} (waits g e) h =
    goes-IsFenced t g (waiting t.ctx) h (λ q. cc)
      (λ c q. ground (arith, h.on_the_way g, h.current_made))
Step-IsFenced {t} (returns g c e d) h = goes-IsFenced t g ended h (λ q. cc) (λ c q. cc)
Step-IsFenced {t} stops h = stop-IsFenced t h

-- In every state that a target reaches, whatever the order of the steps: at most one context is live,
-- that of the last `Start`, and none if `Stop` came after it; and every goroutine that waits, waits on
-- a context that some `Start` made.
pub Steps-IsFenced : {t : Target} → Steps new_target_metric t → IsFenced t
Steps-IsFenced here = new_target_metric-IsFenced
Steps-IsFenced (later r st) = Step-IsFenced st (Steps-IsFenced r)

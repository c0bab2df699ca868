-- ===== src/MetricsDaemon/Quiet.antt =====
-- When the goroutines of a stopped target end (internal/metrics/daemon.go).
use flotta_device_worker.Prelude.{
  ℕ, ◌<◌, ◌≡◌, ◌≢◌, refl, ◌⊎◌, inl, inr, true, false, arith, Bool-cases,
}
use flotta_device_worker.MetricsDaemon.Targets.{
  Pc, absent, starting, running, ended, waiting, Target, at, new_target_metric, cancel_current,
  begin, stop, Step, launches, begins, wakes, waits, returns, stops, Steps, here, later,
}
use flotta_device_worker.MetricsDaemon.Fenced.{
  IsFenced, begin-IsFenced, stop-IsFenced, Step-IsFenced, Steps-IsFenced,
}

-- A target that is stopped, and for which no goroutine is about to start.
pub record IsCalm (t : Target) : Type 0 where
  pub fenced : IsFenced t
  pub stopped : t.has_cancel ≡ false
  pub none_starting : (g : ℕ) → t.goroutines g ≢ starting

-- A step that launches no goroutine.
abbrev pub IsQuiet : {t u : Target} → Step t u → Type 0
IsQuiet (launches g e) = ⊥
IsQuiet _ = Unit

pub data QuietSteps : Target → Target → Type 0 where
  none_yet : {t : Target} → QuietSteps t t
  then_quiet : {t u v : Target} → QuietSteps t u → (st : Step u v) → IsQuiet st → QuietSteps t v

goes-IsCalm :
    (t : Target) (g : ℕ) (p : Pc)
    → IsCalm t
    → p ≢ starting
    → IsFenced (record t { goroutines = at t.goroutines g p })
    → IsCalm (record t { goroutines = at t.goroutines g p })
goes-IsCalm t g p h ne f = record {
  fenced = f;
  stopped = h.stopped;
  none_starting = λ k e. ground (arith, h.none_starting k);
}

stop-none_starting :
    (t : Target)
    → ((g : ℕ) → t.goroutines g ≢ starting)
    → (g : ℕ) → (stop t).goroutines g ≢ starting
unfolding stop cancel_current
stop-none_starting t h g e = ground (arith, h g)

stop-stopped : (t : Target) → (stop t).has_cancel ≡ false
unfolding stop
stop-stopped t = refl

Step-IsCalm : {t u : Target} → (st : Step t u) → IsQuiet st → IsCalm t → IsCalm u
Step-IsCalm (launches g e) q h = absurd q
Step-IsCalm (begins g e) q h = absurd (h.none_starting g e)
Step-IsCalm {t} (wakes g c e) q h =
    goes-IsCalm t g running h (λ x. cc) (Step-IsFenced (wakes g c e) h.fenced)
Step-IsCalm {t} (waits g e) q h =
    goes-IsCalm t g (waiting t.ctx) h (λ x. cc) (Step-IsFenced (waits g e) h.fenced)
Step-IsCalm {t} (returns g c e d) q h =
    goes-IsCalm t g ended h (λ x. cc) (Step-IsFenced (returns g c e d) h.fenced)
Step-IsCalm {t} stops q h = record {
  fenced = stop-IsFenced t h.fenced;
  stopped = stop-stopped t;
  none_starting = stop-none_starting t h.none_starting;
}

QuietSteps-IsCalm : {t u : Target} → QuietSteps t u → IsCalm t → IsCalm u
QuietSteps-IsCalm none_yet h = h
QuietSteps-IsCalm (then_quiet r st q) h = Step-IsCalm st q (QuietSteps-IsCalm r h)

cancelled-IsCalm : (t : Target) → IsCalm t → (c : ℕ) → c < t.next → t.cancelled c ≡ true
cancelled-IsCalm t h c l = elim (Bool-cases (t.cancelled c)) [
  | inl e ↦ e
  | inr e ↦ absurd (ground (arith, h.stopped, h.fenced.live c l e))
]

Pc-cases :
    (p : Pc)
    → (p ≡ absent)
      ⊎ ((p ≡ starting) ⊎ ((p ≡ running) ⊎ ((p ≡ ended) ⊎ ((c : ℕ) × (p ≡ waiting c)))))
Pc-cases absent = inl refl
Pc-cases starting = inr (inl refl)
Pc-cases running = inr (inr (inl refl))
Pc-cases ended = inr (inr (inr (inl refl)))
Pc-cases (waiting c) = inr (inr (inr (inr (c, refl))))

-- The steps that goroutine `g` takes by itself, without a tick: it comes to its `select`, and it returns.
pub data OwnSteps (g : ℕ) : Target → Target → Type 0 where
  arrived : {t : Target} → OwnSteps g t t
  comes_to_wait :
      {t u : Target}
      → OwnSteps g t u
      → u.goroutines g ≡ running
      → OwnSteps g t (record u { goroutines = at u.goroutines g (waiting u.ctx) })
  comes_to_return :
      {t u : Target} (c : ℕ)
      → OwnSteps g t u
      → u.goroutines g ≡ waiting c
      → u.cancelled c ≡ true
      → OwnSteps g t (record u { goroutines = at u.goroutines g ended })

-- They are steps of the target.
OwnSteps-Steps : {g : ℕ} {t u : Target} → OwnSteps g t u → Steps t u
OwnSteps-Steps arrived = here
OwnSteps-Steps {g} (comes_to_wait s e) = later (OwnSteps-Steps s) (waits g e)
OwnSteps-Steps {g} (comes_to_return c s e d) = later (OwnSteps-Steps s) (returns g c e d)

-- A goroutine was never launched, or comes to its end by steps of its own, which the target can take.
abbrev pub CanEnd : ℕ → Target → Type 0
CanEnd g u =
    (u.goroutines g ≡ absent)
    ⊎ ((v : Target) × OwnSteps g u v × Steps u v × (v.goroutines g ≡ ended))

ends_by : (g : ℕ) (u v : Target) → OwnSteps g u v → v.goroutines g ≡ ended → CanEnd g u
ends_by g u v own e = inr (v, own, OwnSteps-Steps own, e)

calm-ends : (u : Target) → IsCalm u → (g : ℕ) → CanEnd g u
calm-ends u calm g = elim (Pc-cases (u.goroutines g)) [
  | inl e ↦ inl e
  | inr (inl e) ↦ absurd (calm.none_starting g e)
  | inr (inr (inl e)) ↦
      let c = u.ctx in
      let made = calm.fenced.current_made (calm.fenced.on_the_way g e) in
      ends_by g u _
        (comes_to_return c (comes_to_wait arrived e) (ground arith)
          (cancelled-IsCalm u calm c made))
        (ground arith)
  | inr (inr (inr (inl e))) ↦ ends_by g u u arrived e
  | inr (inr (inr (inr (c, e)))) ↦
      ends_by g u _
        (comes_to_return c arrived e (cancelled-IsCalm u calm c (calm.fenced.made g c e)))
        (ground arith)
]

stop-IsCalm :
    {t : Target}
    → Steps new_target_metric t
    → ((g : ℕ) → t.goroutines g ≢ starting)
    → IsCalm (stop t)
stop-IsCalm {t} reached none = record {
  fenced = stop-IsFenced t (Steps-IsFenced reached);
  stopped = stop-stopped t;
  none_starting = stop-none_starting t none;
}

-- Once a target is stopped while none of its goroutines is still about to start, and until one is
-- launched, whatever else happens in whatever order: no context of it is live, so each of its
-- goroutines that waits may return at once.
pub stop-returns :
    {t u : Target}
    → Steps new_target_metric t
    → ((g : ℕ) → t.goroutines g ≢ starting)
    → QuietSteps (stop t) u
    → ((c : ℕ) → c < u.next → u.cancelled c ≡ true)
      × ((g c : ℕ)
          → u.goroutines g ≡ waiting c
          → Step u (record u { goroutines = at u.goroutines g ended }))
stop-returns {t} {u} reached none q =
    let calm = QuietSteps-IsCalm q (stop-IsCalm reached none) in
    (
      cancelled-IsCalm u calm,
      λ g c e. returns g c e (cancelled-IsCalm u calm c (calm.fenced.made g c e)),
    )

-- Once a target is stopped while none of its goroutines is still about to start, and until one is
-- launched, each of its goroutines that was ever launched has ended or can end by steps of its own
-- alone, at most coming to its `select` and returning from it, without a tick, a launch or a stop.
pub stop-ends :
    {t u : Target}
    → Steps new_target_metric t
    → ((g : ℕ) → t.goroutines g ≢ starting)
    → QuietSteps (stop t) u
    → (g : ℕ) → CanEnd g u
stop-ends {t} {u} reached none q g = calm-ends u (QuietSteps-IsCalm q (stop-IsCalm reached none)) g

-- A goroutine that was launched and has not begun when its target is stopped may begin after that, and
-- then collects with a context that is live, although nothing was launched since the stop.
pub stop-begin :
    (t : Target) (g : ℕ)
    → Steps new_target_metric t
    → t.goroutines g ≡ starting
    → (u : Target) × QuietSteps (stop t) u
      × (u.goroutines g ≡ running)
      × (u.has_cancel ≡ true)
      × (u.cancelled u.ctx ≡ false)
stop-begin t g reached e =
    let u = begin g (stop t) in
    let f = begin-IsFenced (stop t) g (stop-IsFenced t (Steps-IsFenced reached)) in
    let on : u.has_cancel ≡ true = unfold begin in refl in
    (
      u,
      then_quiet none_yet (begins {t = stop t} g (unfold stop cancel_current in ground arith)) tt,
      unfold begin in ground arith,
      on,
      (f.current on).1,
    )

-- ===== src/RemoteWrite/Range/Round.antt =====
-- A whole round of `writeRange` (internal/metrics/remote_write.go), up to the decision to send.
use flotta_device_worker.Prelude.{
  ℕ, ◌+◌, ◌-◌, ◌≤◌, ◌<◌, ◌≡◌, ◌≢◌, refl, sym, ap, ◌∙◌, ◌⊎◌, inl, inr, List, [], ◌∷◌, ◌++◌, arith,
  length, take, drop, length-take, length-append,
}
use mathlib.Core.Path.{subst}
use native.Mathlib.Decide.{ℕ_discrete}
use flotta_device_worker.RemoteWrite.Series.{Series, tag, samples, samples_from, samples_from-zero}
use flotta_device_worker.RemoteWrite.Range.{Cursor, fill, advance, samples_to_use}
use flotta_device_worker.RemoteWrite.Range.Fill.{
  IsInside, IsReady, pending, work, length-tag, length-drop, samples_to_use_bounds,
  samples_from-advance, fill-empty, fill-index, fill-rest, samples-fill, pending-fill,
}

-- What a round leaves, before the request is sent or goes on.
pub record IsRounded {P : Type 0} (limit : ℕ) (c c' : Cursor P) : Type 0 where
  pub kept : pending c' ≡ pending c
  pub counted : length (samples c'.request_series) ≡ c'.num_samples
  pub within : c'.num_samples ≤ limit
  pub inside : IsInside c'.sample_index c'.rest
  pub full_or_next : (c'.num_samples ≡ limit) ⊎ (c'.sample_index ≡ 0)
  pub less : work c'.sample_index c'.rest < work c.sample_index c.rest

module _ {P : Type 0} (limit : ℕ) (s : Series P) (later : List (Series P)) where
  length-samples_from :
      (i : ℕ)
      → length (samples_from i (s ∷ later)) ≡ (length s.data_points - i) + length (samples later)
  unfolding samples_from
  length-samples_from i = omega (
    arith,
    length-append (tag s.labels (drop i s.data_points)) (samples later),
    length-tag s.labels (drop i s.data_points),
    length-drop i s.data_points,
  )

  advance-fields :
      (c : Cursor P)
      → ((advance s later c).request_series ≡ c.request_series)
        × ((advance s later c).num_samples ≡ c.num_samples)
  unfolding advance
  advance-fields c = ground arith

  -- Either the series is passed, or the cursor stays in front of it.
  advance-cases :
      (c : Cursor P)
      → ((c.sample_index ≡ length s.data_points)
          × ((advance s later c).rest ≡ later)
          × ((advance s later c).sample_index ≡ 0))
        ⊎ ((c.sample_index ≢ length s.data_points) × (advance s later c ≡ c))
  unfolding advance
  advance-cases c = ground arith

  -- The index after `fill` stands inside the series or at its end.
  fill_bounds :
      (c : Cursor P)
      → c.num_samples < limit
      → (c.sample_index ≡ 0) ⊎ (c.sample_index < length s.data_points)
      → ((fill limit s c).sample_index ≤ length s.data_points)
        × ((fill limit s c).num_samples ≤ limit)
        × (((fill limit s c).num_samples ≡ limit)
            ⊎ ((fill limit s c).sample_index ≡ length s.data_points))
        × ((length s.data_points ≡ 0) ⊎ (c.sample_index < (fill limit s c).sample_index))
  fill_bounds c room inside = elim (ℕ_discrete (length s.data_points) 0) [
    | yes e ↦ rw (fill-empty limit s later c e) (ground arith)
    | no some ↦ ground (
      arith,
      samples_to_use_bounds limit s later c room inside some,
      fill-index limit s later c some,
    )
  ]

pub IsInside-zero : {P : Type 0} (rest : List (Series P)) → IsInside 0 rest
IsInside-zero [] = tt
IsInside-zero (s ∷ rest) = inl refl

module _ {P : Type 0} (limit : ℕ) (s : Series P) (later : List (Series P)) (c : Cursor P) where
  round_kept :
      c.rest ≡ s ∷ later → IsReady limit c → pending (advance s later (fill limit s c)) ≡ pending c
  round_kept e ready =
      let f = fill limit s c in
      rw
        (
          (advance-fields limit s later f).0,
          samples_from-advance limit s later f (fill-rest limit s later c ∙ e),
        )
        (pending-fill limit s later c ready.fresh
          ∙ ap (λ rest. samples c.request_series ++ samples_from c.sample_index rest) (sym e))

  round_counted :
      (c.sample_index ≡ 0) ⊎ (c.sample_index < length s.data_points)
      → IsReady limit c
      → length (samples (fill limit s c).request_series) ≡ (fill limit s c).num_samples
  round_counted inside ready = elim (ℕ_discrete (length s.data_points) 0) [
    | yes none_left ↦ rw (fill-empty limit s later c none_left) ready.counted
    | no some ↦
        let used = samples_to_use limit s c in
        let left = drop c.sample_index s.data_points in
        let b = samples_to_use_bounds limit s later c ready.room inside some in
        let fits : used ≤ length left =
          omega (arith, b, length-drop c.sample_index s.data_points) in
        rw (samples-fill limit s later c ready.fresh some) (
          omega (
            arith,
            length-append (samples c.request_series) (tag s.labels (take used left)),
            length-tag s.labels (take used left),
            length-take used left fits,
            ready.counted,
            (fill-index limit s later c some).1,
          ))
  ]

  round-IsInside_less :
      c.rest ≡ s ∷ later
      → (c.sample_index ≡ 0) ⊎ (c.sample_index < length s.data_points)
      → IsReady limit c
      → let c' = advance s later (fill limit s c) in
        IsInside c'.sample_index c'.rest
        × ((c'.num_samples ≡ limit) ⊎ (c'.sample_index ≡ 0))
        × (work c'.sample_index c'.rest < work c.sample_index c.rest)
  round-IsInside_less e inside ready = elim (advance-cases limit s later (fill limit s c)) [
    | inl (at_end, r, i) ↦
        rw (r, i)
          (
            IsInside-zero later,
            inr refl,
            subst (λ rest. work 0 later < work c.sample_index rest) (sym e)
                (omega (
                  arith,
                  length-samples_from limit s later c.sample_index,
                  ap length (samples_from-zero later),
                )),
          )
    | inr (before, same) ↦
        let b = fill_bounds limit s later c ready.room inside in
        let i = (fill limit s c).sample_index in
        rw (same, fill-rest limit s later c)
          (
            subst (IsInside i) (sym e) (inr (omega (arith, b, before))),
            ground (arith, b, before),
            subst (λ rest. work i rest < work c.sample_index rest) (sym e)
                (ground (
                  arith,
                  b,
                  before,
                  length-samples_from limit s later c.sample_index,
                  length-samples_from limit s later i,
                )),
          )
  ]

  pub round-IsRounded :
      c.rest ≡ s ∷ later → IsReady limit c → IsRounded limit c (advance s later (fill limit s c))
  round-IsRounded e ready =
      let f = fill limit s c in
      let inside : (c.sample_index ≡ 0) ⊎ (c.sample_index < length s.data_points) =
        rw e at ready.inside in
      let (i, full, less) = round-IsInside_less e inside ready in
      let b = fill_bounds limit s later c ready.room inside in
      let (request, num) = advance-fields limit s later f in
      record {
        kept = round_kept e ready;
        counted = rw (request, num) (round_counted inside ready);
        within = rw num b.1;
        inside = i;
        full_or_next = full;
        less = less;
      }

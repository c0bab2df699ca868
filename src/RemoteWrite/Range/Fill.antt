-- ===== src/RemoteWrite/Range/Fill.antt =====
-- One round of `writeRange` (internal/metrics/remote_write.go) moves samples from the series into the
-- request, and loses none.
use flotta_device_worker.Prelude.{
  ℕ, zero, suc, ◌+◌, ◌-◌, ◌≤◌, ◌<◌, ◌≡◌, ◌≢◌, refl, sym, ap, ◌∙◌, ◌⊎◌, inl, inr, List, [], ◌∷◌,
  ◌++◌, arith, length, take, drop, String, Map, nat_beq, take-append-drop, Bool-cases,
}
use mathlib.Core.List.{append_assoc, map-append}
use flotta_device_worker.RemoteWrite.Series.{
  Series, samples_from-zero, tag, samples, samples_from, samples-append_to_last,
}
use flotta_device_worker.RemoteWrite.Range.{Cursor, fill, advance, samples_to_use, opened}
use native.Mathlib.Decide.{ℕ_discrete}
use native.Mathlib.Nat.{zero-add, suc-add}

-- How far into the first series a cursor may stand.
abbrev pub IsInside : {P : Type 0} → ℕ → List (Series P) → Type 0
IsInside i [] = Unit
IsInside i (s ∷ _) = (i ≡ 0) ⊎ (i < length s.data_points)

-- What holds of the cursor at the head of the loop.
pub record IsReady {P : Type 0} (limit : ℕ) (c : Cursor P) : Type 0 where
  pub inside : IsInside c.sample_index c.rest
  pub room : c.num_samples < limit
  pub counted : length (samples c.request_series) ≡ c.num_samples
  pub fresh : (c.sample_index ≡ 0) ⊎ (c.request_series ≡ [])
  pub ended : c.rest ≡ [] → c.request_series ≡ []

-- All points that are in the request or still to come.
abbrev pub pending : {P : Type 0} → Cursor P → List (Map String String × P)
pending c = samples c.request_series ++ samples_from c.sample_index c.rest

-- How much work is left: the points, and the series, that are not yet passed.
abbrev pub work : {P : Type 0} → ℕ → List (Series P) → ℕ
work i rest = length rest + length (samples_from i rest)

module _ {P : Type 0} where
  pub length-tag :
      (labels : Map String String) (points : List P) → length (tag labels points) ≡ length points
  length-tag labels [] = refl
  length-tag labels (p ∷ points) = ap suc (length-tag labels points)

  pub length-drop : (n : ℕ) (xs : List P) → length (drop n xs) ≡ length xs - n
  length-drop zero xs = omega arith
  length-drop (suc n) [] = omega arith
  length-drop (suc n) (x ∷ xs) = omega (arith, length-drop n xs)

  drop-nil : (n : ℕ) → drop {A = P} n [] ≡ []
  drop-nil zero = refl
  drop-nil (suc n) = refl

  drop-drop : (m n : ℕ) (xs : List P) → drop m (drop n xs) ≡ drop (n + m) xs
  drop-drop m zero xs = rw zero-add
  drop-drop m (suc n) [] = drop-nil m ∙ sym (drop-nil (suc n + m))
  drop-drop m (suc n) (x ∷ xs) = rw suc-add (drop-drop m n xs)

  drop_all : (xs : List P) → drop (length xs) xs ≡ []
  drop_all [] = refl
  drop_all (x ∷ xs) = drop_all xs

-- A round at the series `s`, with the series `later` behind it.
module _ {P : Type 0} (limit : ℕ) (s : Series P) (later : List (Series P)) (c : Cursor P) where
  pub samples_to_use_bounds :
      c.num_samples < limit
      → (c.sample_index ≡ 0) ⊎ (c.sample_index < length s.data_points)
      → length s.data_points ≢ 0
      → let used = samples_to_use limit s c in
        (0 < used)
        × (c.sample_index + used ≤ length s.data_points)
        × (c.num_samples + used ≤ limit)
        × ((c.num_samples + used ≡ limit) ⊎ (c.sample_index + used ≡ length s.data_points))
  unfolding samples_to_use
  samples_to_use_bounds room inside some = ground arith

  opened_fresh :
      (c.sample_index ≡ 0) ⊎ (c.request_series ≡ [])
      → opened s c ≡ c.request_series ++ record { labels = s.labels; data_points = [] } ∷ []
  unfolding opened
  opened_fresh h = ground arith

  -- Taking points from the series and adding them to the request loses none.
  points_kept :
      (u : ℕ) (i : ℕ)
      → tag s.labels (take u (drop i s.data_points)) ++ samples_from (i + u) (s ∷ later)
        ≡ samples_from i (s ∷ later)
  unfolding samples_from
  points_kept u i =
      sym (append_assoc (tag s.labels (take u (drop i s.data_points))) _ (samples later))
      ∙ ap (λ t. t ++ samples later)
          (rw (← drop-drop u i s.data_points) (
            sym (map-append _ (take u (drop i s.data_points)) _)
            ∙ ap (tag s.labels) (take-append-drop u (drop i s.data_points))))

  passed_all : samples_from (length s.data_points) (s ∷ later) ≡ samples_from 0 later
  unfolding samples_from
  passed_all = rw (drop_all s.data_points) (sym (samples_from-zero later))

  pub samples_from-advance :
      c.rest ≡ s ∷ later
      → let c' = advance s later c in
        samples_from c'.sample_index c'.rest ≡ samples_from c.sample_index (s ∷ later)
  unfolding advance
  samples_from-advance e = elim (Bool-cases (nat_beq c.sample_index (length s.data_points))) [
    | inl done ↦
        let i : c.sample_index ≡ length s.data_points = ground arith in
        rw i (rw passed_all (ground arith))
    | inr more ↦ ground arith
  ]

  pub fill-empty : length s.data_points ≡ 0 → fill limit s c ≡ c
  unfolding fill
  fill-empty h = ground arith

  pub samples-fill :
      (c.sample_index ≡ 0) ⊎ (c.request_series ≡ [])
      → length s.data_points ≢ 0
      → samples (fill limit s c).request_series
        ≡ samples c.request_series
          ++ tag s.labels (take (samples_to_use limit s c) (drop c.sample_index s.data_points))
  unfolding fill
  samples-fill fresh some = ground (
    arith,
    opened_fresh fresh,
    samples-append_to_last s.labels
        (take (samples_to_use limit s c) (drop c.sample_index s.data_points)) c.request_series,
  )

  pub fill-index :
      length s.data_points ≢ 0
      → ((fill limit s c).sample_index ≡ c.sample_index + samples_to_use limit s c)
        × ((fill limit s c).num_samples ≡ c.num_samples + samples_to_use limit s c)
  unfolding fill
  fill-index some = ground arith

  pub fill-rest : (fill limit s c).rest ≡ c.rest
  unfolding fill
  fill-rest = ground arith

  pub pending-fill :
      (c.sample_index ≡ 0) ⊎ (c.request_series ≡ [])
      → samples (fill limit s c).request_series
          ++ samples_from (fill limit s c).sample_index (s ∷ later)
        ≡ samples c.request_series ++ samples_from c.sample_index (s ∷ later)
  pending-fill fresh = elim (ℕ_discrete (length s.data_points) 0) [
    | yes none_left ↦ rw (fill-empty none_left)
    | no some ↦
        rw (samples-fill fresh some, (fill-index some).0)
          (append_assoc (samples c.request_series) _ _
            ∙ ap (λ t. samples c.request_series ++ t)
                (points_kept (samples_to_use limit s c) c.sample_index))
  ]

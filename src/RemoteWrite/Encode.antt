-- ===== src/RemoteWrite/Encode.antt =====
-- `toTimeSeries` of internal/metrics/remote_write.go: the series as they are encoded, with the lowest and
-- the highest time among their points.
use flotta_device_worker.Prelude.{
  ◌^◌, ◌-◌, ◌≡◌, refl, ap, sym, ◌∙◌, Bool, true, false, List, [], ◌∷◌, ◌++◌, map, All,
  if◌then◌else◌, ltb, arith, String,
}
use flotta_device_worker.Prelude.Int.{ℤ, pos, negsuc}
use mathlib.Core.List.{append_assoc, append-nil}
use flotta_device_worker.RemoteWrite.Series.{Series}
use flotta_device_worker.Tsdb.{Time, from_db_time}

-- `DataPoint`; the value of a type `V` is copied.
pub record DataPoint (V : Type 0) : Type 0 where
  pub time : ℤ
  pub value : V

-- prompb.Sample and prompb.TimeSeries
pub record Sample (V : Type 0) : Type 0 where
  pub value : V
  pub timestamp : ℤ

pub record TimeSeries (V : Type 0) : Type 0 where
  pub labels : List (String × String)
  pub samples : List (Sample V)

-- a < b
abbrev pub int_ltb : ℤ → ℤ → Bool
int_ltb (pos m) (pos n) = ltb m n
int_ltb (pos m) (negsuc n) = false
int_ltb (negsuc m) (pos n) = true
int_ltb (negsuc m) (negsuc n) = ltb n m

abbrev pub max_int64 : ℤ
max_int64 = pos (2 ^ 63 - 1)

-- The variables `mint` and `maxt`.
pub record Bounds : Type 0 where
  pub mint : ℤ
  pub maxt : ℤ

unfoldable pub note_time : ℤ → Bounds → Bounds
note_time t b = record {
  mint = if int_ltb t b.mint then t else b.mint;
  maxt = if int_ltb b.maxt t then t else b.maxt;
}

-- Noting all times of a list.
unfoldable pub note_all : List ℤ → Bounds → Bounds
note_all [] b = b
note_all (t ∷ ts) b = note_all ts (note_time t b)

-- A time lies between the bounds.
abbrev pub IsWithin : ℤ → Bounds → Type 0
IsWithin t b = (int_ltb t b.mint ≡ false) × (int_ltb b.maxt t ≡ false)

lt-le : (a b t : ℤ) → int_ltb a b ≡ true → int_ltb t b ≡ false → int_ltb t a ≡ false
lt-le (pos a) (pos b) (pos t) h k = ground (arith, h, k)
lt-le (pos a) (pos b) (negsuc t) h k = ground (arith, h, k)
lt-le (pos a) (negsuc b) t h k = ground (arith, h, k)
lt-le (negsuc a) (pos b) (pos t) h k = refl
lt-le (negsuc a) (pos b) (negsuc t) h k = ground (arith, h, k)
lt-le (negsuc a) (negsuc b) (pos t) h k = refl
lt-le (negsuc a) (negsuc b) (negsuc t) h k = ground (arith, h, k)

le-lt : (a b t : ℤ) → int_ltb a b ≡ true → int_ltb a t ≡ false → int_ltb b t ≡ false
le-lt (pos a) (pos b) (pos t) h k = ground (arith, h, k)
le-lt (pos a) (pos b) (negsuc t) h k = refl
le-lt (pos a) (negsuc b) t h k = ground (arith, h, k)
le-lt (negsuc a) (pos b) (pos t) h k = ground (arith, h, k)
le-lt (negsuc a) (pos b) (negsuc t) h k = refl
le-lt (negsuc a) (negsuc b) (pos t) h k = ground (arith, h, k)
le-lt (negsuc a) (negsuc b) (negsuc t) h k = ground (arith, h, k)

irreflexive : (t : ℤ) → int_ltb t t ≡ false
irreflexive (pos t) = ground arith
irreflexive (negsuc t) = ground arith

asymmetric : (s t : ℤ) → int_ltb s t ≡ true → int_ltb t s ≡ false
asymmetric s t h = lt-le s t t h (irreflexive t)

note_time-new : (t : ℤ) (b : Bounds) → IsWithin t (note_time t b)
unfolding note_time
note_time-new t b = ground (arith, irreflexive t)

note_time-old : (t u : ℤ) (b : Bounds) → IsWithin t b → IsWithin t (note_time u b)
unfolding note_time
note_time-old t u b h = ground (arith, h.0, h.1, lt-le u b.mint t, le-lt b.maxt u t)

note_all-old : (t : ℤ) (ts : List ℤ) (b : Bounds) → IsWithin t b → IsWithin t (note_all ts b)
unfolding note_all
note_all-old t [] b h = h
note_all-old t (u ∷ ts) b h = note_all-old t ts (note_time u b) (note_time-old t u b h)

note_all_lem : (ts : List ℤ) (b : Bounds) → All (λ t. IsWithin t (note_all ts b)) ts
unfolding note_all
note_all_lem [] b = tt
note_all_lem (t ∷ ts) b =
    (note_all-old t ts (note_time t b) (note_time-new t b), note_all_lem ts (note_time t b))

note_all-append :
    (ss ts : List ℤ) (b : Bounds) → note_all (ss ++ ts) b ≡ note_all ts (note_all ss b)
unfolding note_all
note_all-append [] ts b = refl
note_all-append (s ∷ ss) ts b = note_all-append ss ts (note_time s b)

module _ {V : Type 0} where
  abbrev pub to_sample : DataPoint V → Sample V
  to_sample dp = record { value = dp.value; timestamp = dp.time }

  -- The loop over the points of a series.
  unfoldable pub points_loop :
      List (DataPoint V) → List (Sample V) → Bounds → List (Sample V) × Bounds
  unfolding note_time
  points_loop [] ss b = (ss, b)
  points_loop (dp ∷ dps) ss b = points_loop dps (ss ++ to_sample dp ∷ []) (note_time dp.time b)

  -- The loop over the series.
  unfoldable pub series_loop :
      List (Series (DataPoint V)) → List (TimeSeries V) → Bounds → List (TimeSeries V) × Bounds
  unfolding points_loop
  series_loop [] ts b = (ts, b)
  series_loop (s ∷ rest) ts b =
      let done = points_loop s.data_points [] b in
      series_loop rest (ts ++ record { labels = s.labels; samples = done.0 } ∷ []) done.1

  unfoldable pub to_time_series : List (Series (DataPoint V)) → List (TimeSeries V) × (Time × Time)
  unfolding series_loop from_db_time
  to_time_series series =
      let done = series_loop series [] (record { mint = max_int64; maxt = pos 0 }) in
      (done.0, (from_db_time done.1.mint, from_db_time done.1.maxt))

  -- All times of the points.
  unfoldable pub times : List (Series (DataPoint V)) → List ℤ
  times [] = []
  times (s ∷ rest) = map (λ dp. dp.time) s.data_points ++ times rest

  abbrev pub encode : Series (DataPoint V) → TimeSeries V
  encode s = record { labels = s.labels; samples = map to_sample s.data_points }

  points_loop_lem :
      (dps : List (DataPoint V)) (ss : List (Sample V)) (b : Bounds)
      → points_loop dps ss b ≡ (ss ++ map to_sample dps, note_all (map (λ dp. dp.time) dps) b)
  unfolding points_loop note_all
  points_loop_lem [] ss b = ap (λ x. (x, b)) (sym (append-nil ss))
  points_loop_lem (dp ∷ dps) ss b =
      points_loop_lem dps (ss ++ to_sample dp ∷ []) (note_time dp.time b)
      ∙ ap (λ x. (x, note_all (map (λ d. d.time) dps) (note_time dp.time b)))
          (append_assoc ss (to_sample dp ∷ []) (map to_sample dps))

  series_loop_lem :
      (series : List (Series (DataPoint V))) (ts : List (TimeSeries V)) (b : Bounds)
      → series_loop series ts b ≡ (ts ++ map encode series, note_all (times series) b)
  unfolding series_loop times note_all
  series_loop_lem [] ts b = ap (λ x. (x, b)) (sym (append-nil ts))
  series_loop_lem (s ∷ rest) ts b = rw (points_loop_lem s.data_points [] b) (
      series_loop_lem rest (ts ++ encode s ∷ []) (note_all (map (λ dp. dp.time) s.data_points) b)
      ∙ rw
          (
            append_assoc ts (encode s ∷ []) (map encode rest),
            note_all-append (map (λ dp. dp.time) s.data_points) (times rest) b,
          )
          refl)

  -- Each series is encoded with its labels and all its points, in order.
  to_time_series_lem :
      (series : List (Series (DataPoint V))) → (to_time_series series).0 ≡ map encode series
  unfolding to_time_series
  to_time_series_lem series = ap (λ x. x.0) (series_loop_lem series [] _)

  -- Every time of a point lies between the two bounds that the loops find.
  series_loop-IsWithin :
      (series : List (Series (DataPoint V))) (b : Bounds)
      → All (λ t. IsWithin t (series_loop series [] b).1) (times series)
  series_loop-IsWithin series b = rw (series_loop_lem series [] b) (note_all_lem (times series) b)

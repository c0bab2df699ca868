-- ===== src/RemoteWrite/Series.antt =====
-- The data that internal/metrics/remote_write.go sends: series of data points (`Series` of
-- internal/metrics/metrics.go), and the flat view of them that the theorems speak about.
use flotta_device_worker.Prelude.{
  ℕ, ◌≡◌, refl, ap, sym, ◌∙◌, String, List, [], ◌∷◌, ◌++◌, map, Map, drop, Bool, true, false,
}
use mathlib.Core.List.{append_assoc, append-nil}

-- `DataPoint` holds an int64 and a float64: the sending code only moves points, so their type `P`
-- is a parameter.
pub record Series (P : Type 0) : Type 0 where
  pub labels : Map String String
  pub data_points : List P

module _ {P : Type 0} where
  abbrev pub is_empty : List (Series P) → Bool
  is_empty [] = true
  is_empty (_ ∷ _) = false

  -- requestSeries[len(requestSeries)-1].DataPoints = append(..., points...)
  unfoldable pub append_to_last : List P → List (Series P) → List (Series P)
  append_to_last points [] = []
  append_to_last points (s ∷ []) = record s { data_points = s.data_points ++ points } ∷ []
  append_to_last points (s ∷ t ∷ rest) = s ∷ append_to_last points (t ∷ rest)

  -- Each point with the labels of its series.
  abbrev pub tag : Map String String → List P → List (Map String String × P)
  tag labels = map (λ p. (labels, p))

  -- All points of a list of series, in order.
  unfoldable pub samples : List (Series P) → List (Map String String × P)
  samples [] = []
  samples (s ∷ rest) = tag s.labels s.data_points ++ samples rest

  -- The points that are left when `i` points of the first series are gone.
  unfoldable pub samples_from : ℕ → List (Series P) → List (Map String String × P)
  unfolding samples
  samples_from i [] = []
  samples_from i (s ∷ rest) = tag s.labels (drop i s.data_points) ++ samples rest

  pub samples-append : (xs ys : List (Series P)) → samples (xs ++ ys) ≡ samples xs ++ samples ys
  unfolding samples
  samples-append [] ys = refl
  samples-append (x ∷ xs) ys = simp (samples-append xs ys, append_assoc)

  pub samples_from-zero : (xs : List (Series P)) → samples_from 0 xs ≡ samples xs
  unfolding samples_from
  samples_from-zero [] = refl
  samples_from-zero (x ∷ xs) = refl

  -- Opening a series at the end of a request and filling it adds exactly the tagged points.
  pub samples-append_to_last :
      (labels : Map String String) (points : List P) (xs : List (Series P))
      → samples (append_to_last points (xs ++ record { labels = labels; data_points = [] } ∷ []))
        ≡ samples xs ++ tag labels points
  unfolding samples append_to_last
  samples-append_to_last labels points [] = append-nil _
  samples-append_to_last labels points (x ∷ []) = simp append-nil
  samples-append_to_last labels points (x ∷ y ∷ rest) =
      ap (λ t. tag x.labels x.data_points ++ t) (samples-append_to_last labels points (y ∷ rest))
      ∙ sym (append_assoc (tag x.labels x.data_points) _ _)

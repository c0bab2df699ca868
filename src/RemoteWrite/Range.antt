-- ===== src/RemoteWrite/Range.antt =====
-- `writeRange` of internal/metrics/remote_write.go: the series of a range, cut into requests of
-- `requestNumSamples` samples.
pub mod Fill
pub mod Round
pub mod Cut
pub mod Loop
use flotta_device_worker.Prelude.{
  ℕ, zero, suc, ◌+◌, ◌-◌, Bool, true, false, not, ◌&&◌, ◌||◌, Option, none, some, List, [], ◌∷◌,
  ◌++◌, length, take, drop, if◌then◌else◌, nat_beq, ltb,
}
use flotta_device_worker.RemoteWrite.Series.{Series, is_empty, append_to_last}
use flotta_device_worker.RemoteWrite.Request.{Attempt, Receiver, write_request}

-- The variables of the loop. `rest` is series[i:].
pub record Cursor (P : Type 0) : Type 0 where
  pub rest : List (Series P)
  pub sample_index : ℕ
  pub request_series : List (Series P)
  pub num_samples : ℕ

module _ {P : Type 0} where
  -- numSamplesToUse. `-` stops at 0; both differences are of a smaller from a larger number.
  unfoldable pub samples_to_use : ℕ → Series P → Cursor P → ℕ
  samples_to_use limit s c =
      let missing = limit - c.num_samples in
      let remainder = length s.data_points - c.sample_index in
      if ltb remainder missing then remainder else missing

  -- The request, with a series opened for `s` if it is new to it.
  unfoldable pub opened : Series P → Cursor P → List (Series P)
  opened s c =
      if nat_beq c.sample_index 0 || is_empty c.request_series
      then c.request_series ++ record { labels = s.labels; data_points = [] } ∷ []
      else c.request_series

  -- The block under `if lenCurrentSeries != 0`: take as many samples of the current series `s` as the
  -- request still misses.
  unfoldable pub fill : ℕ → Series P → Cursor P → Cursor P
  fill limit s c =
      if nat_beq (length s.data_points) 0
      then c
      else (let used = samples_to_use limit s c in
          record c {
            request_series =
                append_to_last (take used (drop c.sample_index s.data_points)) (opened s c);
            sample_index = c.sample_index + used;
            num_samples = c.num_samples + used;
          })

  -- `if sampleIndex == lenCurrentSeries { i++; sampleIndex = 0 }`
  unfoldable pub advance : Series P → List (Series P) → Cursor P → Cursor P
  advance s later c =
      if nat_beq c.sample_index (length s.data_points)
      then record c { rest = later; sample_index = 0 }
      else c

  -- requestSeries = requestSeries[:0]; numSamples = 0
  unfoldable pub reset : Cursor P → Cursor P
  reset c = record c { request_series = []; num_samples = 0 }

  unfoldable pub start : List (Series P) → Cursor P
  start series = record { rest = series; sample_index = 0; request_series = []; num_samples = 0 }

  -- numSamples != requestNumSamples && i < len(series)
  unfoldable pub goes_on : ℕ → Cursor P → Bool
  goes_on limit c = not (nat_beq c.num_samples limit) && not (is_empty c.rest)

module _ {P B : Type 0} (r : Receiver P B) (limit : ℕ) where
  -- The loop on fuel; `none` means that the fuel ran out.
  unfoldable pub write_loop : ℕ → Cursor P → List (Attempt P) → Option (Bool × List (Attempt P))
  write_loop zero c log = none
  write_loop (suc fuel) c log = elim c.rest [
    | [] ↦ some (true, log)
    | s ∷ later ↦
        let c' = advance s later (fill limit s c) in
        elim (goes_on limit c') [
          | true ↦ write_loop fuel c' log
          | false ↦
              let (done, log') = write_request r c'.request_series log in
              elim done [ true ↦ write_loop fuel (reset c') log' | false ↦ some (false, log') ]
        ]
  ]

  unfoldable pub write_range :
      ℕ → List (Series P) → List (Attempt P) → Option (Bool × List (Attempt P))
  unfolding write_loop start
  write_range fuel series log = write_loop fuel (start series) log

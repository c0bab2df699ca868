-- ===== src/RemoteWrite/Window/Progress.antt =====
-- The loop of `Write` (internal/metrics/remote_write.go) moves forward and ends.
use flotta_device_worker.Prelude.{
  ◌≢◌, map, Bool, length, ℕ, zero, suc, ◌+◌, ◌-◌, ◌≤◌, ◌<◌, ◌≡◌, refl, ◌⊎◌, inl, inr, Option, some,
  String, List, [], ◌∷◌, ltb, Bool-cases, Option-cases, arith,
}
use flotta_device_worker.RemoteWrite.Request.{Attempt, Receiver}
use flotta_device_worker.RemoteWrite.Series.{Series, samples}
use flotta_device_worker.RemoteWrite.Range.Loop.{write_range_lem}
use flotta_device_worker.RemoteWrite.Window.{
  Block, Tsdb, Window, Round, endless, stopped, moved, label_device, send_series, millisecond,
  skip_blocks, skip_empty_ranges, range_start, range_end, window_round, write,
}

skip_blocks-ge : (t : ℕ) (bs : List Block) → (skip_blocks t bs ≡ 0) ⊎ (t ≤ skip_blocks t bs)
unfolding skip_blocks
skip_blocks-ge t [] = inl refl
skip_blocks-ge t (b ∷ rest) = ground (arith, skip_blocks-ge t rest)

skip_empty_ranges-ge : {P : Type 0} (db : Tsdb P) (t : ℕ) → t ≤ skip_empty_ranges db t
unfolding skip_empty_ranges
skip_empty_ranges-ge db t = ground (arith, skip_blocks-ge t db.blocks)

range_start-gt :
    {P : Type 0} (db : Tsdb P) (min : ℕ) (w : Window) → w.last_write < range_start db min w
unfolding range_start
range_start-gt db min w = ground (arith, skip_empty_ranges-ge db (w.last_write + millisecond))

range_end_bounds :
    {P : Type 0} (db : Tsdb P) (duration start last : ℕ)
    → last < start
    → last < db.max_time
    → (last < range_end db duration start)
      × (range_end db duration start ≤ db.max_time)
      × (range_end db duration start ≤ start + duration)
unfolding range_end
range_end_bounds db duration start last a b = ground arith

Round-cases :
    {P : Type 0} (x : Round P)
    → (x ≢ endless)
    → ((log : List (Attempt P)) × (x ≡ stopped log))
      ⊎ ((w : Window) × (log : List (Attempt P)) × (x ≡ moved w log))
Round-cases endless ends = absurd (ends refl)
Round-cases (stopped log) ends = inl (log, refl)
Round-cases (moved w log) ends = inr (w, log, refl)

module _ {P B : Type 0} (r : Receiver P B) (save : ℕ → Option ℕ → Option ℕ) (device_id : String)
    (duration limit : ℕ) where
  -- A round that goes on ends its window behind the start of it.
  round-end :
      (db : Tsdb P) (w w' : Window) (log log' : List (Attempt P)) (min : ℕ)
      → db.min_time ≡ some min
      → window_round r save device_id duration limit db w log ≡ moved w' log'
      → w'.last_write ≡ range_end db duration (range_start db min w)
  unfolding window_round
  round-end db w w' log log' min m e = ground arith

  -- With room for a sample in a request, sending the series of a window ends.
  send_series-ends :
      (series : List (Series P)) (log : List (Attempt P))
      → 0 < limit
      → (out : Bool × List (Attempt P)) × (send_series r save device_id duration limit series log
          ≡ some out)
  unfolding send_series
  send_series-ends series log room =
      let labelled = map (label_device device_id) series in
      let (out, sent, left, runs, settles, carries, complete, packed) =
        write_range_lem r limit (suc (length labelled + length (samples labelled))) labelled log
          room (omega arith) in
      (out, runs)

  window_round-ends :
      (db : Tsdb P) (w : Window) (log : List (Attempt P))
      → 0 < limit
      → window_round r save device_id duration limit db w log ≢ endless
  unfolding window_round
  window_round-ends db w log room e = elim (Option-cases db.min_time) [
    | inl m ↦ absurd (ground (arith, e, m))
    | inr (min, m) ↦
        let start = range_start db min w in
        elim (Option-cases (db.metrics start (range_end db duration start))) [
          | inl k ↦ absurd (ground (arith, e, m, k))
          | inr ([], k) ↦ absurd (ground (arith, e, m, k))
          | inr (s ∷ rest, k) ↦
              absurd (ground (arith, e, m, k, (send_series-ends (s ∷ rest) log room).1))
        ]
  ]

  -- If `Write` goes on after a round, `LastWrite` has moved forward, and not past the newest sample of
  -- the TSDB.
  pub window_round-moved :
      (db : Tsdb P) (w w' : Window) (log log' : List (Attempt P))
      → w.last_write < db.max_time
      → window_round r save device_id duration limit db w log ≡ moved w' log'
      → (w.last_write < w'.last_write) × (w'.last_write ≤ db.max_time)
  unfolding window_round
  window_round-moved db w w' log log' behind e = elim (Option-cases db.min_time) [
    | inl m ↦ absurd (ground arith)
    | inr (min, m) ↦ rw (round-end db w w' log log' min m e) (
        let b =
          range_end_bounds db duration (range_start db min w) w.last_write (range_start-gt db min w)
            behind in
        (b.0, b.1))
  ]

  -- While the TSDB's newest sample stays at `newest`, and with room for at least one sample in a
  -- request, `Write` returns, each `writeRange` in it included. `LastWrite` has not moved back,
  -- nor past `newest`, and it has reached `newest` unless the last round stopped on a failure.
  pub write-returns :
      (fuel newest : ℕ) (db : ℕ → Tsdb P) (w : Window) (log : List (Attempt P))
      → ((n : ℕ) → (db n).max_time ≡ newest)
      → newest - w.last_write < fuel
      → 0 < limit
      → (w' : Window) × (log' : List (Attempt P)) × (write r save device_id duration limit fuel db w
            log
          ≡ some (w', log'))
        × (w.last_write ≤ w'.last_write)
        × ((w'.last_write ≤ newest) ⊎ (w' ≡ w))
        × ((newest ≤ w'.last_write)
            ⊎ ((k : ℕ) × (before : List (Attempt P)) × (window_round r save device_id duration limit
                    (db k)
                    w'
                    before
                  ≡ stopped log')))
  unfolding write
  write-returns zero newest db w log still enough room = absurd (omega arith)
  write-returns (suc fuel) newest db w log still enough room =
      elim (Bool-cases (ltb w.last_write (db fuel).max_time)) [
        | inl behind ↦
            elim (Round-cases (window_round r save device_id duration limit (db fuel) w log)
              (window_round-ends (db fuel) w log room)) [
                | inl (log', e) ↦
                    (w, log', ground arith, ground arith, inr refl, inr (fuel, log, e))
                | inr (w1, log1, e) ↦
                    let below : w.last_write < (db fuel).max_time = ground arith in
                    let m = window_round-moved (db fuel) w w1 log log1 below e in
                    let (w', log', runs, ahead, bound, end) =
                      write-returns fuel newest db w1 log1 still
                        (omega (arith, m.0, m.1, still fuel, enough)) room in
                    (
                      w',
                      log',
                      ground (arith, runs),
                      omega (arith, ahead, m.0),
                      ground (arith, bound, m.1, still fuel),
                      end,
                    )
              ]
        | inr done ↦
            (w, log, ground arith, ground arith, inr refl, inl (ground (arith, still fuel)))
      ]

-- ===== src/RemoteWrite/Window.antt =====
-- `Write` and `skipEmptyRanges` of internal/metrics/remote_write.go: the window of time that each
-- round writes. An instant is the nanoseconds since the zero `time.Time`, whose instant is 0.
pub mod Skip
pub mod Progress
use flotta_device_worker.Prelude.{
  ℕ, zero, suc, ◌+◌, Bool, true, false, not, Option, none, some, String, List, [], ◌∷◌, map, length,
  if◌then◌else◌, nat_beq, ltb, insert, string_eq,
}
use flotta_device_worker.RemoteWrite.Series.{Series, samples, is_empty}
use flotta_device_worker.RemoteWrite.Request.{Attempt, Receiver}
use flotta_device_worker.RemoteWrite.Range.{write_range}

pub record Block : Type 0 where
  pub min_time : ℕ
  pub max_time : ℕ

-- The TSDB as one round sees it; `none` is an error of the call.
pub record Tsdb (P : Type 0) : Type 0 where
  pub max_time : ℕ
  pub min_time : Option ℕ
  pub head_min_time : ℕ
  pub blocks : List Block
  pub metrics : ℕ → ℕ → Option (List (Series P))

abbrev pub millisecond : ℕ
millisecond = 1000000

abbrev pub device_label : String
device_label = "edgedeviceid"

-- The loop over the blocks: the zero time if no block is ahead of `t` or contains it.
unfoldable pub skip_blocks : ℕ → List Block → ℕ
skip_blocks t [] = 0
skip_blocks t (b ∷ rest) =
    if ltb b.max_time t then skip_blocks t rest else if ltb t b.min_time then b.min_time else t

unfoldable pub skip_empty_ranges : {P : Type 0} → Tsdb P → ℕ → ℕ
unfolding skip_blocks
skip_empty_ranges db t =
    let result = skip_blocks t db.blocks in
    if nat_beq result 0 then (if ltb db.head_min_time t then t else db.head_min_time) else result

-- The fields and the local variable that a round changes.
pub record Window : Type 0 where
  pub last_write : ℕ
  pub had_empty_range : Bool
  pub last_write_file : Option ℕ

-- rangeStart
unfoldable pub range_start : {P : Type 0} → Tsdb P → ℕ → Window → ℕ
range_start db min w =
    let first = w.last_write + millisecond in
    if w.had_empty_range then skip_empty_ranges db first else if ltb first min then min else first

-- rangeEnd
unfoldable pub range_end : {P : Type 0} → Tsdb P → ℕ → ℕ → ℕ
range_end db duration start =
    if ltb db.max_time (start + duration) then db.max_time else start + duration

-- s.Labels[DeviceLabel] = r.deviceID
abbrev pub label_device : {P : Type 0} → String → Series P → Series P
label_device device_id s = record s { labels = insert device_label device_id s.labels }

-- What a round ends in: `return`, or the next round; or `writeRange` does not end within its fuel.
pub data Round (P : Type 0) : Type 0 where
  endless : Round P
  stopped : List (Attempt P) → Round P
  moved : Window → List (Attempt P) → Round P

-- `save` is what the last-write file holds after `os.WriteFile` of an instant over the old content;
-- the code only logs an error there.
module _ {P B : Type 0} (r : Receiver P B) (save : ℕ → Option ℕ → Option ℕ) (device_id : String)
    (duration limit : ℕ) where
  -- r.LastWrite = rangeEnd, and the file
  unfoldable pub store_last_write : ℕ → Bool → Window → Window
  store_last_write end empty w = record {
    last_write = end;
    had_empty_range = empty;
    last_write_file = save end w.last_write_file;
  }

  -- The series of the window, sent; the fuel is that of `write_range_lem`.
  unfoldable pub send_series : List (Series P) → List (Attempt P) → Option (Bool × List (Attempt P))
  send_series series log =
      let labelled = map (label_device device_id) series in
      write_range r limit (suc (length labelled + length (samples labelled))) labelled log

  unfoldable pub window_round : Tsdb P → Window → List (Attempt P) → Round P
  unfolding store_last_write
  window_round db w log = elim db.min_time [
    | none ↦ stopped log
    | some min ↦
        let start = range_start db min w in
        let end = range_end db duration start in
        elim (db.metrics start end) [
          | none ↦ stopped log
          | some [] ↦ moved (store_last_write end true w) log
          | some (s ∷ rest) ↦ elim (send_series (s ∷ rest) log) [
            | none ↦ endless
            | some (false, log') ↦ stopped log'
            | some (true, log') ↦ moved (store_last_write end false w) log'
          ]
        ]
  ]

  -- The loop of `Write` on fuel, over the TSDB as each round finds it; `none` means that the fuel
  -- ran out, or that of a `writeRange`.
  unfoldable pub write :
      ℕ → (ℕ → Tsdb P) → Window → List (Attempt P) → Option (Window × List (Attempt P))
  write zero db w log = none
  write (suc fuel) db w log = elim (ltb w.last_write (db fuel).max_time) [
    | false ↦ some (w, log)
    | true ↦ elim (window_round (db fuel) w log) [
      | endless ↦ none
      | stopped log' ↦ some (w, log')
      | moved w' log' ↦ write fuel db w' log'
    ]
  ]

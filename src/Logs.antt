-- ===== src/Logs.antt =====
-- internal/logs/log_container.go: the buffer of log lines, bounded by a soft limit on its bytes. Each
-- method holds the lock throughout. Target is internal/logs/workload.go, which sends what is in it.
pub mod Queue
pub mod Target
pub mod Linked
pub mod Leak
pub mod Transport
mod Tests
use flotta_device_worker.Prelude.{
  ℕ, zero, suc, ◌+◌, ◌-◌, Option, none, some, String, List, [], ◌∷◌, ◌++◌, length, if◌then◌else◌,
  ltb,
}

-- `LogEntry`; the time that it was made at is not read in this file.
pub record LogEntry : Type 0 where
  pub payload : List ℕ
  pub workload : String

unfoldable pub entry_size : LogEntry → ℕ
entry_size e = length e.payload

pub record FifoLog : Type 0 where
  pub max_len : ℕ
  pub entries : List LogEntry
  pub current_size : ℕ

pub data Err : Type 0 where
  no_entry buffer_full : Err

unfoldable pub new_fifo_log : ℕ → FifoLog
new_fifo_log max_size = record { max_len = max_size; entries = []; current_size = 0 }

-- `none` is the nil entry.
unfoldable pub write : Option LogEntry → FifoLog → Option Err × FifoLog
unfolding entry_size
write none f = (some no_entry, f)
write (some e) f = if ltb f.max_len f.current_size then (some buffer_full, f) else (
  none,
  record f { entries = f.entries ++ e ∷ []; current_size = f.current_size + entry_size e },
)

-- What `ReadLine` does: a line or nil, or a panic at `f.data[0]` of an empty slice.
pub data Line : Type 0 where
  no_line : Line
  line : LogEntry → Line
  index_panic : Line

-- `-` stops at 0, which Go's does not; `Queue` shows that the size read is never the larger.
unfoldable pub read_line : FifoLog → Line × FifoLog
unfolding entry_size
read_line f =
    if ltb 0 f.current_size
    then elim f.entries [
      | [] ↦ (index_panic, f)
      | e ∷ rest ↦
          (line e, record f { entries = rest; current_size = f.current_size - entry_size e })
    ]
    else (no_line, f)

-- ===== src/Logs/Transport.antt =====
-- The goroutine that `Start` of `transportLog` in internal/logs/workload.go begins, which takes entries from the
-- buffer and sends them, and `WriteLog` of internal/logs/syslog_transport.go.
pub mod Kept
mod Tests
use flotta_device_worker.Prelude.{
  ℕ, zero, suc, ◌+◌, ◌≡◌, refl, ap, sym, ◌∙◌, Bool, true, false, ◌||◌, Option, none, some, List, [],
  ◌∷◌, ◌++◌, if◌then◌else◌, arith, String, ltb, string_eq, ◌==◌, Bool-cases, inl, inr,
}
use flotta_device_worker.Logs.{
  LogEntry, FifoLog, Err, Line, no_line, line, index_panic, write, read_line, entry_size,
}

-- `NewSyslogServer`: the protocol, which is tcp if none is given.
unfoldable pub protocol_of : String → String
protocol_of protocol = if protocol == "" then "tcp" else protocol

-- `writeAndRetry` with as many tries as are left, of which the next has a number: whether the data is
-- written, where `writes` says so of each try. Without a connection nothing is tried.
unfoldable pub write_and_retry : (writes : ℕ → Bool) → (connected : Bool) → (tries n : ℕ) → Bool
write_and_retry writes connected zero n = false
write_and_retry writes connected (suc tries) n =
    let rest = write_and_retry writes connected tries (suc n) in
    if connected then (if writes n then true else rest) else rest

-- `WriteLog`: 10 tries after the first.
unfoldable pub write_log : (writes : ℕ → Bool) → (connected : Bool) → Bool
unfolding write_and_retry
write_log writes connected = write_and_retry writes connected 11 0

-- The goroutine: the buffer, the entry that it has taken, those that it has sent, and those that it could
-- neither send nor put back.
pub record TransportLog : Type 0 where
  pub log : FifoLog
  pub held : Option LogEntry
  pub sent : List LogEntry
  pub dropped : List LogEntry

-- It takes an entry, if there is one. The panic is one that the buffer never comes to (Queue).
abbrev pub take_line : Line × FifoLog → TransportLog → TransportLog
take_line (no_line, f) t = t
take_line (line e, f) t = record t { log = f; held = some e }
take_line (index_panic, f) t = t

abbrev pub take_entry : Option LogEntry → TransportLog → TransportLog
take_entry none t = take_line (read_line t.log) t
take_entry (some e) t = t

-- The entry is put back, at the end, unless the buffer is full.
abbrev pub put_back : LogEntry → Option Err × FifoLog → TransportLog → TransportLog
put_back e (none, f) t = record t { log = f; held = none }
put_back e (some full, f) t = record t { log = f; held = none; dropped = t.dropped ++ e ∷ [] }

-- The entry is sent, or put back.
abbrev pub deliver_entry : Option LogEntry → Bool → TransportLog → TransportLog
deliver_entry none sends t = t
deliver_entry (some e) true t = record t { held = none; sent = t.sent ++ e ∷ [] }
deliver_entry (some e) false t = put_back e (write (some e) t.log) t

-- What happens: a writer adds an entry, the goroutine takes one, and delivers it or fails.
pub data Event : Type 0 where
  adds : LogEntry → Event
  takes : Event
  delivers : (sends : Bool) → Event

unfoldable pub happen_one : Event → TransportLog → TransportLog
happen_one (adds e) t = record t { log = (write (some e) t.log).1 }
happen_one takes t = take_entry t.held t
happen_one (delivers sends) t = deliver_entry t.held sends t

unfoldable pub happen : List Event → TransportLog → TransportLog
unfolding happen_one
happen [] t = t
happen (e ∷ es) t = happen es (happen_one e t)

-- Whether some of the tries from the n-th on succeeds.
unfoldable pub some_succeeds : (writes : ℕ → Bool) → (tries n : ℕ) → Bool
some_succeeds writes zero n = false
some_succeeds writes (suc tries) n = writes n || some_succeeds writes tries (suc n)

-- The number of entries of a kind in a list.
unfoldable pub count : (LogEntry → Bool) → List LogEntry → ℕ
count p [] = 0
count p (e ∷ es) = (if p e then 1 else 0) + count p es

abbrev pub held_list : Option LogEntry → List LogEntry
held_list none = []
held_list (some e) = e ∷ []

-- The entries of a kind that are somewhere.
abbrev pub total : (LogEntry → Bool) → TransportLog → ℕ
total p t =
    count p t.sent + (count p (held_list t.held) + (count p t.log.entries + count p t.dropped))

-- An entry that a writer adds, if it is accepted.
abbrev pub accepted : LogEntry → Option Err → List LogEntry
accepted e none = e ∷ []
accepted e (some full) = []

abbrev pub accepted_one : Event → TransportLog → List LogEntry
accepted_one (adds e) t = accepted e (write (some e) t.log).0
accepted_one takes t = []
accepted_one (delivers sends) t = []

unfoldable pub all_accepted : List Event → TransportLog → List LogEntry
all_accepted [] t = []
all_accepted (e ∷ es) t = accepted_one e t ++ all_accepted es (happen_one e t)

-- ===== src/Logs/Transport/Kept.antt =====
-- No log entry is lost on its way, or doubled: the goroutine of internal/logs/workload.go with the buffer of
-- internal/logs/log_container.go, and the tries of internal/logs/syslog_transport.go.
use flotta_device_worker.Prelude.{
  ◌&&◌, ℕ, zero, suc, ◌+◌, ◌≡◌, refl, sym, ◌∙◌, Bool, true, false, Option, none, some, List, [],
  ◌∷◌, ◌++◌, arith, ltb, string_eq, Bool-cases, inl, inr,
}
use flotta_device_worker.Logs.{
  LogEntry, FifoLog, Err, Line, no_line, line, index_panic, write, read_line,
}
use flotta_device_worker.Logs.Transport.{
  write_and_retry, write_log, some_succeeds, TransportLog, take_line, take_entry, put_back,
  deliver_entry, Event, adds, takes, delivers, happen_one, happen, count, total, accepted,
  accepted_one, all_accepted,
}

write_and_retry_lem :
    (writes : ℕ → Bool) (tries n : ℕ)
    → write_and_retry writes true tries n ≡ some_succeeds writes tries n
unfolding write_and_retry some_succeeds
write_and_retry_lem writes zero n = refl
write_and_retry_lem writes (suc tries) n = ground (arith, write_and_retry_lem writes tries (suc n))

no_connection : (writes : ℕ → Bool) (tries n : ℕ) → write_and_retry writes false tries n ≡ false
unfolding write_and_retry
no_connection writes zero n = refl
no_connection writes (suc tries) n = no_connection writes tries (suc n)

-- A line is written if there is a connection and one of the first 11 tries succeeds.
write_log_lem :
    (writes : ℕ → Bool) (connected : Bool)
    → write_log writes connected ≡ (connected && some_succeeds writes 11 0)
unfolding write_log
write_log_lem writes true = write_and_retry_lem writes 11 0
write_log_lem writes false = no_connection writes 11 0

count-append :
    (p : LogEntry → Bool) (a b : List LogEntry) → count p (a ++ b) ≡ count p a + count p b
unfolding count
count-append p [] b = omega arith
count-append p (e ∷ a) b = ground (arith, count-append p a b)

count-write :
    (p : LogEntry → Bool) (e : LogEntry) (f : FifoLog)
    → count p (write (some e) f).1.entries
      ≡ count p f.entries + count p (accepted e (write (some e) f).0)
unfolding write count
count-write p e f = elim (Bool-cases (ltb f.max_len f.current_size)) [
  | inl b ↦ rw b (omega arith)
  | inr b ↦ rw b (count-append p f.entries (e ∷ []))
]

-- What a read line and the rest of the buffer have to do with the buffer before.
abbrev IsTaken : (LogEntry → Bool) → FifoLog → Line × FifoLog → Type 0
IsTaken p f (no_line, f') = Unit
IsTaken p f (index_panic, f') = Unit
IsTaken p f (line e, f') = count p f.entries ≡ count p (e ∷ []) + count p f'.entries

count-first :
    (p : LogEntry → Bool) (e : LogEntry) (es : List LogEntry)
    → count p (e ∷ es) ≡ count p (e ∷ []) + count p es
unfolding count
count-first p e es = omega arith

read_line-IsTaken :
    (p : LogEntry → Bool) (entries : List LogEntry) (max_len size : ℕ)
    → let f : FifoLog = record { max_len = max_len; entries = entries; current_size = size } in
      IsTaken p f (read_line f)
unfolding read_line
read_line-IsTaken p [] max_len size = elim (Bool-cases (ltb 0 size)) [
  | inl b ↦ rw b tt
  | inr b ↦ rw b tt
]
read_line-IsTaken p (e ∷ rest) max_len size = elim (Bool-cases (ltb 0 size)) [
  | inl b ↦ rw b (count-first p e rest)
  | inr b ↦ rw b tt
]

take_line-total :
    (p : LogEntry → Bool) (r : Line × FifoLog) (t : TransportLog)
    → t.held ≡ none
    → IsTaken p t.log r
    → total p (take_line r t) ≡ total p t
unfolding count
take_line-total p (no_line, f) t h k = refl
take_line-total p (index_panic, f) t h k = refl
take_line-total p (line e, f) t h k = rw h (omega (arith, k))

put_back-total :
    (p : LogEntry → Bool) (e : LogEntry) (r : Option Err × FifoLog) (t : TransportLog)
    → t.held ≡ some e
    → count p r.1.entries ≡ count p t.log.entries + count p (accepted e r.0)
    → total p (put_back e r t) ≡ total p t
unfolding count
put_back-total p e (none, f) t h k = rw h (omega (arith, k))
put_back-total p e (some full, f) t h k =
    rw (h, count-append p t.dropped (e ∷ [])) (omega (arith, k))

deliver_entry-total :
    (p : LogEntry → Bool) (h : Option LogEntry) (sends : Bool) (t : TransportLog)
    → t.held ≡ h
    → total p (deliver_entry h sends t) ≡ total p t
unfolding count
deliver_entry-total p none sends t h = refl
deliver_entry-total p (some e) true t h = rw (h, count-append p t.sent (e ∷ [])) (omega arith)
deliver_entry-total p (some e) false t h =
    put_back-total p e (write (some e) t.log) t h (count-write p e t.log)

take_entry-total :
    (p : LogEntry → Bool) (h : Option LogEntry) (t : TransportLog)
    → t.held ≡ h
    → total p (take_entry h t) ≡ total p t
take_entry-total p none t h =
    take_line-total p (read_line t.log) t h
      (read_line-IsTaken p t.log.entries t.log.max_len t.log.current_size)
take_entry-total p (some e) t h = refl

add_nothing : (a : ℕ) → a + 0 ≡ a
add_nothing a = omega arith

count-happen_one :
    (p : LogEntry → Bool) (e : Event) (t : TransportLog)
    → total p (happen_one e t) ≡ total p t + count p (accepted_one e t)
unfolding happen_one count
count-happen_one p (adds e) t = ground (arith, count-write p e t.log)
count-happen_one p takes t = take_entry-total p t.held t refl ∙ sym (add_nothing (total p t))
count-happen_one p (delivers sends) t =
    deliver_entry-total p t.held sends t refl ∙ sym (add_nothing (total p t))

-- Whatever the order in which entries are added, taken and delivered, the entries of any kind that were
-- sent, that the goroutine has in hand, that wait in the buffer or that could be neither sent nor put back
-- are in number those that there were before and those that the buffer accepted: none is doubled, and
-- none is lost in another way.
pub happen-total :
    (p : LogEntry → Bool) (es : List Event) (t : TransportLog)
    → total p (happen es t) ≡ total p t + count p (all_accepted es t)
unfolding happen all_accepted count
happen-total p [] t = sym (add_nothing (total p t))
happen-total p (e ∷ es) t = omega (
  arith,
  happen-total p es (happen_one e t),
  count-happen_one p e t,
  count-append p (accepted_one e t) (all_accepted es (happen_one e t)),
)

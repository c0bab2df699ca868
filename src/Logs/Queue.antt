-- ===== src/Logs/Queue.antt =====
-- The buffer of internal/logs/log_container.go is a queue.
use flotta_device_worker.Prelude.{
  ℕ, ◌+◌, ◌≤◌, ◌≡◌, ◌≢◌, refl, ◌∙◌, ap, sym, Option, none, some, List, [], ◌∷◌, ◌++◌, arith, All,
}
use mathlib.Core.List.{append_assoc, append-nil}
use flotta_device_worker.Logs.{
  LogEntry, FifoLog, Err, Line, line, index_panic, entry_size, write, read_line,
}

unfoldable pub total : List LogEntry → ℕ
total [] = 0
total (e ∷ rest) = entry_size e + total rest

-- The size is that of the entries.
pub record IsValid (f : FifoLog) : Type 0 where
  pub sized : f.current_size ≡ total f.entries

total-append : (xs ys : List LogEntry) → total (xs ++ ys) ≡ total xs + total ys
unfolding total
total-append [] ys = omega arith
total-append (x ∷ xs) ys = omega (arith, total-append xs ys)

-- A write, accepted or not, keeps the size in step with the entries.
pub write-IsValid : (e : Option LogEntry) (f : FifoLog) → IsValid f → IsValid (write e f).1
unfolding write total
write-IsValid none f h = h
write-IsValid (some e) f h = ground (arith, total-append f.entries (e ∷ []))

-- A read keeps the size in step, and never indexes an empty buffer.
pub read_line-IsValid :
    (f : FifoLog) → IsValid f → IsValid (read_line f).1 × ((read_line f).0 ≢ index_panic)
unfolding read_line total
read_line-IsValid f h = ground arith

pub data Op : Type 0 where
  writes : Option LogEntry → Op
  reads : Op

-- A run of operations: the lines that are read, the entries that are accepted, and the buffer after it.
unfoldable pub accepted : Option LogEntry → Option Err → List LogEntry
accepted (some e) none = e ∷ []
accepted _ _ = []

unfoldable pub shown : Line → List LogEntry
shown (line e) = e ∷ []
shown _ = []

pub record Run : Type 0 where
  pub taken : List LogEntry
  pub given : List LogEntry
  pub after : FifoLog

unfoldable pub run : List Op → FifoLog → Run
run [] f = record { taken = []; given = []; after = f }
run (writes e ∷ ops) f =
    let (failed, f') = write e f in
    let r = run ops f' in record r { taken = accepted e failed ++ r.taken }
run (reads ∷ ops) f =
    let (l, f') = read_line f in let r = run ops f' in record r { given = shown l ++ r.given }

-- One operation: what was buffered, with what is accepted, is what is given out with what stays.
write-order :
    (e : Option LogEntry) (f : FifoLog)
    → (write e f).1.entries ≡ f.entries ++ accepted e (write e f).0
unfolding write accepted
write-order none f = sym (append-nil _)
write-order (some e) f = ground (arith, append-nil f.entries)

read_line-order : (f : FifoLog) → f.entries ≡ shown (read_line f).0 ++ (read_line f).1.entries
unfolding read_line shown
read_line-order f = ground arith

-- Over any operations on a buffer, lines come out in the order in which they were accepted, each once:
-- what is in the buffer first, followed by what is accepted, is what is read followed by what stays.
pub run-order :
    (ops : List Op) (f : FifoLog)
    → f.entries ++ (run ops f).taken ≡ (run ops f).given ++ (run ops f).after.entries
unfolding run
run-order [] f = append-nil _
run-order (writes e ∷ ops) f =
    let (failed, f') = write e f in
    sym (append_assoc f.entries (accepted e failed) (run ops f').taken)
    ∙ ap (λ t. t ++ (run ops f').taken) (sym (write-order e f))
    ∙ run-order ops f'
run-order (reads ∷ ops) f =
    let (l, f') = read_line f in
    ap (λ t. t ++ (run ops f').taken) (read_line-order f)
    ∙ append_assoc (shown l) f'.entries (run ops f').taken
    ∙ ap (λ t. shown l ++ t) (run-order ops f')
    ∙ sym (append_assoc (shown l) (run ops f').given _)

abbrev pub IsSmall : ℕ → Op → Type 0
IsSmall k (writes (some e)) = entry_size e ≤ k
IsSmall k _ = Unit

write_bounded :
    (e : Option LogEntry) (k : ℕ) (f : FifoLog)
    → IsSmall k (writes e)
    → f.current_size ≤ f.max_len + k
    → ((write e f).1.current_size ≤ f.max_len + k) × ((write e f).1.max_len ≡ f.max_len)
unfolding write
write_bounded none k f small h = (h, refl)
write_bounded (some e) k f small h = ground arith

read_line_bounded :
    (k : ℕ) (f : FifoLog)
    → f.current_size ≤ f.max_len + k
    → ((read_line f).1.current_size ≤ f.max_len + k) × ((read_line f).1.max_len ≡ f.max_len)
unfolding read_line
read_line_bounded k f h = ground arith

-- The soft limit: from a buffer within it, over any operations whose entries have at most `k` bytes, the
-- buffer holds at most `k` bytes more than its limit, and its size is that of its entries.
pub run_bounded :
    (ops : List Op) (k : ℕ) (f : FifoLog)
    → All (IsSmall k) ops
    → IsValid f
    → f.current_size ≤ f.max_len + k
    → IsValid (run ops f).after
      × ((run ops f).after.current_size ≤ f.max_len + k)
      × ((run ops f).after.max_len ≡ f.max_len)
unfolding run
run_bounded [] k f small h bound = (h, bound, refl)
run_bounded (writes e ∷ ops) k f small h bound =
    let f' = (write e f).1 in
    let (step, same) = write_bounded e k f small.0 bound in
    let (a, b, c) =
      run_bounded ops k f' small.1 (write-IsValid e f h) (omega (arith, step, same)) in
    (a, omega (arith, b, same), c ∙ same)
run_bounded (reads ∷ ops) k f small h bound =
    let f' = (read_line f).1 in
    let (step, same) = read_line_bounded k f bound in
    let (a, b, c) =
      run_bounded ops k f' small.1 (read_line-IsValid f h).0 (omega (arith, step, same)) in
    (a, omega (arith, b, same), c ∙ same)

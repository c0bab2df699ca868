-- ===== src/WorkloadWrapper/PodLogs.antt =====
-- `Logs` and `containerLog` of internal/workload/podman/podman.go: the lines of a pod's containers, each
-- with the name of its container, go to one writer.
pub mod Lines
pub mod Rounds
mod Tests
use flotta_device_worker.Prelude.{
  drop, ◌-◌, ◌||◌, zero, ℕ, suc, ◌≤◌, ◌≡◌, refl, ◌∙◌, sym, ap, Bool, true, false, Option, none,
  some, String, List, [], ◌∷◌, ◌++◌, map, Map, insert, lookup, lookup-insert, All, if◌then◌else◌,
  string_eq, ◌==◌, ◌≢◌, Bool-cases, inl, inr, arith, length,
}
use mathlib.Core.List.{append_assoc, append-nil}

-- The lines that each container's buffer holds, those that were handed to the writer, with their
-- containers, and those of them that it took.
pub record Logs : Type 0 where
  pub buffers : Map String (List String)
  pub handed : List (String × String)
  pub written : List (String × String)

abbrev pub lines : Option (List String) → List String
lines none = []
lines (some l) = l

-- The lines that wait in the buffer of a container.
abbrev pub waiting : String → Logs → List String
waiting container s = lines (lookup container s.buffers)

-- What `Logs` begins with, for the containers of the pod: empty buffers. `none` if the pod cannot be
-- inspected.
unfoldable pub start_logs : Option (List String) → Option Logs
start_logs none = none
start_logs (some containers) =
    some (record { buffers = map (λ c. (c, [])) containers; handed = []; written = [] })

-- The goroutine of `containerLog` writes a line to the container's buffer. The buffer has no lock: that a
-- write of a line and a read of one do not overlap is assumed here.
unfoldable pub arrive : String → String → Logs → Logs
arrive container line s = record s {
  buffers = insert container (waiting container s ++ line ∷ []) s.buffers;
}

-- `accepts` says whether `res.Write` takes the next line, by those that were handed to it before. If not,
-- the code only logs the error, and the line is lost.
module _ (accepts : List (String × String) → Bool) where
  -- A round of the inner loop of `Logs`: a line is read, if there is one, and handed to the writer.
  unfoldable pub read_line : String → List String → Logs → Bool × Logs
  read_line container [] s = (false, s)
  read_line container (line ∷ rest) s = (
    true,
    record {
      buffers = insert container rest s.buffers;
      handed = s.handed ++ (container, line) ∷ [];
      written = if accepts s.handed then s.written ++ (container, line) ∷ [] else s.written;
    },
  )

  unfoldable pub read : String → Logs → Bool × Logs
  unfolding read_line
  read container s = read_line container (waiting container s) s

  -- The inner loop, over the containers in any order: whether there were lines.
  unfoldable pub pass : List String → Logs → Bool × Logs
  unfolding read
  pass [] s = (false, s)
  pass (c ∷ cs) s =
      let first = read c s in
      let rest = pass cs first.1 in ((if first.0 then true else rest.0), rest.1)

  -- `n` rounds of the outer loop, in which no line arrives.
  unfoldable pub passes : ℕ → List String → Logs → Logs
  unfolding pass
  passes zero cs s = s
  passes (suc n) cs s = passes n cs (pass cs s).1

-- What happens: a line arrives, or the loop reads from a container.
pub data Event : Type 0 where
  arrives : (container line : String) → Event
  reads : (container : String) → Event

unfoldable pub happen : (List (String × String) → Bool) → List Event → Logs → Logs
unfolding arrive read
happen accepts [] s = s
happen accepts (arrives container line ∷ es) s = happen accepts es (arrive container line s)
happen accepts (reads container ∷ es) s = happen accepts es (read accepts container s).1

-- The lines of a container in a list.
unfoldable pub lines_of : String → List (String × String) → List String
lines_of container [] = []
lines_of container ((c, line) ∷ rest) =
    let ls = lines_of container rest in if c == container then line ∷ ls else ls

-- The lines of a container that arrive in a sequence of events.
unfoldable pub arrived : String → List Event → List String
arrived container [] = []
arrived container (arrives c line ∷ es) =
    let ls = arrived container es in if c == container then line ∷ ls else ls
arrived container (reads c ∷ es) = arrived container es

-- A container's lines, handed to the writer and waiting.
abbrev pub all_lines : String → Logs → List String
all_lines container s = lines_of container s.handed ++ waiting container s

-- Those of the lines handed to the writer that it takes, by what was handed to it before each.
unfoldable pub taken :
    (List (String × String) → Bool)
    → (before handed : List (String × String)) → List (String × String)
taken accepts before [] = []
taken accepts before (l ∷ ls) =
    let rest = taken accepts (before ++ l ∷ []) ls in if accepts before then l ∷ rest else rest

-- What was written is what the writer took.
abbrev pub IsTaken : (List (String × String) → Bool) → Logs → Type 0
IsTaken accepts s = s.written ≡ taken accepts [] s.handed

abbrev pub is_in : String → List String → Bool
is_in container [] = false
is_in container (c ∷ cs) = c == container || is_in container cs

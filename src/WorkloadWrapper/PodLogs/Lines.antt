-- ===== src/WorkloadWrapper/PodLogs/Lines.antt =====
-- `Logs` of internal/workload/podman/podman.go: which lines are written, and in which order.
use flotta_device_worker.Prelude.{
  ◌≡◌, refl, ◌∙◌, sym, ap, Bool, true, false, String, List, [], ◌∷◌, ◌++◌, lookup-insert,
  if◌then◌else◌, string_eq, ◌==◌, Bool-cases, inl, inr, arith,
}
use mathlib.Core.List.{append_assoc, append-nil}
use flotta_device_worker.WorkloadWrapper.PodLogs.{
  Logs, waiting, arrive, read_line, read, Event, arrives, reads, happen, lines_of, arrived,
  all_lines, taken, IsTaken,
}

lines_of-append :
    (container : String) (a b : List (String × String))
    → lines_of container (a ++ b) ≡ lines_of container a ++ lines_of container b
unfolding lines_of
lines_of-append container [] b = refl
lines_of-append container ((c, line) ∷ a) b = ground (arith, lines_of-append container a b)

pub waiting_same :
    (container c : String) (s : Logs) → (c == container) ≡ true → waiting container s ≡ waiting c s
waiting_same container c s e = ap (λ x. waiting x s) (sym ((string_eq.equal_iff c container).0 e))

lines_of-single :
    (container c line : String)
    → lines_of container ((c, line) ∷ []) ≡ (if c == container then line ∷ [] else [])
unfolding lines_of
lines_of-single container c line = refl

all_lines-arrive :
    (container c line : String) (s : Logs)
    → all_lines container (arrive c line s)
      ≡ all_lines container s ++ (if c == container then line ∷ [] else [])
unfolding arrive
all_lines-arrive container c line s =
    rw (lookup-insert c container (waiting c s ++ line ∷ []) s.buffers)
      (elim (Bool-cases (c == container)) [
        | inl e ↦ rw (e, waiting_same container c s e) (sym (append_assoc _ _ (line ∷ [])))
        | inr e ↦ rw e (sym (append-nil _))
      ])

if-append :
    (b : Bool) (line : String) (ls : List String)
    → (if b then line ∷ [] else []) ++ ls ≡ (if b then line ∷ ls else ls)
if-append true line ls = refl
if-append false line ls = refl

if-split :
    {A : Type 0} (b : Bool) (x : A) (ls rest : List A)
    → (if b then x ∷ (ls ++ rest) else ls ++ rest) ≡ (if b then x ∷ ls else ls) ++ rest
if-split true x ls rest = refl
if-split false x ls rest = refl

if-written :
    {A : Type 0} (b : Bool) (ls : List A) (x : A)
    → (if b then ls ++ x ∷ [] else ls) ≡ ls ++ (if b then x ∷ [] else [])
if-written true ls x = refl
if-written false ls x = sym (append-nil ls)

module _ (accepts : List (String × String) → Bool) where
  all_lines-read_line :
      (container c : String) (ls : List String) (s : Logs)
      → waiting c s ≡ ls
      → all_lines container (read_line accepts c ls s).1 ≡ all_lines container s
  unfolding read_line
  all_lines-read_line container c [] s h = refl
  all_lines-read_line container c (line ∷ rest) s h =
      rw
        (
          lookup-insert c container rest s.buffers,
          lines_of-append container s.handed ((c, line) ∷ []),
          lines_of-single container c line,
        )
        (elim (Bool-cases (c == container)) [
          | inl e ↦ rw (e, waiting_same container c s e, h) (append_assoc _ (line ∷ []) rest)
          | inr e ↦ rw (e, append-nil (lines_of container s.handed)) refl
        ])

  pub all_lines-read :
      (container c : String) (s : Logs)
      → all_lines container (read accepts c s).1 ≡ all_lines container s
  unfolding read
  all_lines-read container c s = all_lines-read_line container c (waiting c s) s refl

  taken-append :
      (before ls : List (String × String)) (l : String × String)
      → taken accepts before (ls ++ l ∷ [])
        ≡ taken accepts before ls ++ (if accepts (before ++ ls) then l ∷ [] else [])
  unfolding taken
  taken-append before [] l = rw append-nil refl
  taken-append before (x ∷ ls) l =
      rw (taken-append (before ++ x ∷ []) ls l, append_assoc before (x ∷ []) ls)
        (if-split (accepts before) x _ _)

  read_line-IsTaken :
      (c : String) (ls : List String) (s : Logs)
      → IsTaken accepts s
      → IsTaken accepts (read_line accepts c ls s).1
  unfolding read_line
  read_line-IsTaken c [] s h = h
  read_line-IsTaken c (line ∷ rest) s h =
      rw (taken-append [] s.handed (c, line), sym h)
        (if-written (accepts s.handed) s.written (c, line))

  pub read-IsTaken :
      (c : String) (s : Logs) → IsTaken accepts s → IsTaken accepts (read accepts c s).1
  unfolding read
  read-IsTaken c s h = read_line-IsTaken c (waiting c s) s h

  happen-IsTaken :
      (es : List Event) (s : Logs) → IsTaken accepts s → IsTaken accepts (happen accepts es s)
  unfolding happen arrive
  happen-IsTaken [] s h = h
  happen-IsTaken (arrives c line ∷ es) s h = happen-IsTaken es (arrive c line s) h
  happen-IsTaken (reads c ∷ es) s h = happen-IsTaken es (read accepts c s).1 (read-IsTaken c s h)

  happen-handed :
      (container : String) (es : List Event) (s : Logs)
      → all_lines container (happen accepts es s) ≡ all_lines container s ++ arrived container es
  unfolding happen arrived
  happen-handed container [] s = sym (append-nil _)
  happen-handed container (arrives c line ∷ es) s =
      happen-handed container es (arrive c line s)
      ∙ rw (all_lines-arrive container c line s) (
          append_assoc (all_lines container s) (if c == container then line ∷ [] else [])
            (arrived container es))
      ∙ ap (λ x. all_lines container s ++ x)
          (if-append (c == container) line (arrived container es))
  happen-handed container (reads c ∷ es) s =
      happen-handed container es (read accepts c s).1
      ∙ ap (λ x. x ++ arrived container es) (all_lines-read container c s)

  -- Whatever the order in which lines arrive and are read, where no write of a buffer overlaps a read of
  -- it: the lines of a container that are handed to the writer, followed by those that wait in its buffer,
  -- are those there were before, and then those that arrived, in their order; and what is written is just
  -- what the writer takes of the lines handed to it, if it was so before.
  pub happen-all_lines :
      (container : String) (es : List Event) (s : Logs)
      → IsTaken accepts s
      → (all_lines container (happen accepts es s) ≡ all_lines container s ++ arrived container es)
        × IsTaken accepts (happen accepts es s)
  happen-all_lines container es s h = (happen-handed container es s, happen-IsTaken es s h)

-- ===== src/WorkloadWrapper/PodLogs/Rounds.antt =====
-- `Logs` of internal/workload/podman/podman.go: how many rounds it takes to write the lines that wait.
use flotta_device_worker.Prelude.{
  drop, ◌-◌, zero, ℕ, suc, ◌≤◌, ◌≡◌, refl, ◌∙◌, sym, ap, Bool, true, String, List, [], ◌∷◌, ◌++◌,
  lookup-insert, if◌then◌else◌, string_eq, ◌==◌, Bool-cases, inl, inr, arith, length,
}
use mathlib.Core.List.{append-nil}
use flotta_device_worker.WorkloadWrapper.PodLogs.{
  Logs, waiting, read_line, read, pass, lines_of, all_lines, passes, is_in, IsTaken,
}
use flotta_device_worker.WorkloadWrapper.PodLogs.Lines.{waiting_same, all_lines-read, read-IsTaken}

length-drop_one : (ls : List String) → length (drop 1 ls) ≡ length ls - 1
length-drop_one [] = refl
length-drop_one (l ∷ ls) = omega arith

length-zero : (ls : List String) → length ls ≡ 0 → ls ≡ []
length-zero [] h = refl
length-zero (l ∷ ls) h = absurd (omega (arith, h))

module _ (accepts : List (String × String) → Bool) where
  waiting-read_line :
      (container c : String) (ls : List String) (s : Logs)
      → waiting c s ≡ ls
      → waiting container (read_line accepts c ls s).1
        ≡ (if c == container then drop 1 (waiting container s) else waiting container s)
  unfolding read_line
  waiting-read_line container c [] s h = elim (Bool-cases (c == container)) [
    | inl e ↦ rw (e, waiting_same container c s e, h) refl
    | inr e ↦ rw e refl
  ]
  waiting-read_line container c (line ∷ rest) s h =
      rw (lookup-insert c container rest s.buffers) (elim (Bool-cases (c == container)) [
        | inl e ↦ rw (e, waiting_same container c s e, h) refl
        | inr e ↦ rw e refl
      ])

  length-waiting-read :
      (container c : String) (s : Logs)
      → length (waiting container (read accepts c s).1) ≡ (
          if c == container then length (waiting container s) - 1 else length (waiting container s))
  unfolding read
  length-waiting-read container c s =
      rw (waiting-read_line container c (waiting c s) s refl) (elim (Bool-cases (c == container)) [
        | inl e ↦ rw e (length-drop_one (waiting container s))
        | inr e ↦ rw e refl
      ])

  length-waiting-pass :
      (container : String) (cs : List String) (s : Logs)
      → length (waiting container (pass accepts cs s).1)
        ≤ length (waiting container s) - (if is_in container cs then 1 else 0)
  unfolding pass
  length-waiting-pass container [] s = omega arith
  length-waiting-pass container (c ∷ cs) s = ground (
    arith,
    length-waiting-read container c s,
    length-waiting-pass container cs (read accepts c s).1,
  )

  length-waiting-passes :
      (container : String) (n : ℕ) (cs : List String) (s : Logs)
      → is_in container cs ≡ true
      → length (waiting container (passes accepts n cs s)) ≤ length (waiting container s) - n
  unfolding passes
  length-waiting-passes container zero cs s h = omega arith
  length-waiting-passes container (suc n) cs s h = ground (
    arith,
    h,
    length-waiting-passes container n cs (pass accepts cs s).1 h,
    length-waiting-pass container cs s,
  )

  all_lines-pass :
      (container : String) (cs : List String) (s : Logs)
      → all_lines container (pass accepts cs s).1 ≡ all_lines container s
  unfolding pass
  all_lines-pass container [] s = refl
  all_lines-pass container (c ∷ cs) s =
      all_lines-pass container cs (read accepts c s).1 ∙ all_lines-read accepts container c s

  all_lines-passes :
      (container : String) (n : ℕ) (cs : List String) (s : Logs)
      → all_lines container (passes accepts n cs s) ≡ all_lines container s
  unfolding passes
  all_lines-passes container zero cs s = refl
  all_lines-passes container (suc n) cs s =
      all_lines-passes container n cs (pass accepts cs s).1 ∙ all_lines-pass container cs s

  pass-IsTaken :
      (cs : List String) (s : Logs) → IsTaken accepts s → IsTaken accepts (pass accepts cs s).1
  unfolding pass
  pass-IsTaken [] s h = h
  pass-IsTaken (c ∷ cs) s h = pass-IsTaken cs (read accepts c s).1 (read-IsTaken accepts c s h)

  passes-IsTaken :
      (n : ℕ) (cs : List String) (s : Logs)
      → IsTaken accepts s
      → IsTaken accepts (passes accepts n cs s)
  unfolding passes
  passes-IsTaken zero cs s h = h
  passes-IsTaken (suc n) cs s h = passes-IsTaken n cs (pass accepts cs s).1 (pass-IsTaken cs s h)

  -- As many rounds as a container of the pod has lines waiting are enough to hand all of them to the writer,
  -- in order, after those that were handed to it before, whatever the other containers have; and what is
  -- written is just what the writer takes of them, if it was so before.
  pub passes-all_lines :
      (container : String) (n : ℕ) (cs : List String) (s : Logs)
      → is_in container cs ≡ true
      → length (waiting container s) ≤ n
      → IsTaken accepts s
      → (lines_of container (passes accepts n cs s).handed ≡ all_lines container s)
        × IsTaken accepts (passes accepts n cs s)
  passes-all_lines container n cs s h enough t = (
    sym (append-nil _)
        ∙ ap (λ x. lines_of container (passes accepts n cs s).handed ++ x)
            (sym (length-zero _ (ground (arith, length-waiting-passes container n cs s h, enough))))
        ∙ all_lines-passes container n cs s,
    passes-IsTaken n cs s t,
  )

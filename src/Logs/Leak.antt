-- ===== src/Logs/Leak.antt =====
-- The goroutines that send the log lines of internal/logs/workload.go.
use flotta_device_worker.Prelude.{
  ℕ, ◌≡◌, ◌≤◌, refl, sym, ap, ◌∙◌, inl, inr, Bool, String, List, [], ◌∷◌, ◌++◌, if◌then◌else◌, Map,
  insert, string_eq, ◌==◌, All, arith, Bool-cases, suc, length,
}
use mathlib.Core.List.{append_assoc, append-nil}
use flotta_device_worker.Logs.Target.{
  Kind, syslog, other_kind, Workload, Target, Made, make, make_transports, update,
}

-- The log targets for which a transport can be made.
abbrev pub accepted : (String → Bool) → Map String Kind → ℕ
accepted connects [] = 0
accepted connects ((key, syslog) ∷ rest) =
    if connects key then suc (accepted connects rest) else accepted connects rest
accepted connects ((key, other_kind k) ∷ rest) = accepted connects rest

insert-All :
    (bound : ℕ) (key : String) (k : ℕ) (m : Map String ℕ)
    → bound ≤ k
    → All (λ (b : String × ℕ). bound ≤ b.1) m
    → All (λ (b : String × ℕ). bound ≤ b.1) (insert key k m)
unfolding insert
insert-All bound key k [] h a = (h, tt)
insert-All bound key k ((j, n) ∷ m) h a = elim (Bool-cases (j == key)) [
  | inl same ↦ rw same (h, a.1)
  | inr other ↦ rw other (a.0, insert-All bound key k m h a.1)
]

-- From one state of the loop to another: goroutines were added, and transports numbered from a bound on.
abbrev IsMade : ℕ → ℕ → Made → Made → Type 0
IsMade bound count m m' =
    All (λ (b : String × ℕ). bound ≤ b.1) m'.transports
    × (more : List ℕ) × (m'.senders ≡ m.senders ++ more)
    × (length more ≡ count)

module _ (connects : String → Bool) (bound : ℕ) where
  make_transports-IsMade :
      (targets : Map String Kind) (m : Made)
      → bound ≤ m.next
      → All (λ (b : String × ℕ). bound ≤ b.1) m.transports
      → IsMade bound (accepted connects targets) m (make_transports connects targets m)
  unfolding make_transports
  make_transports-IsMade [] m h a = (a, [], sym (append-nil m.senders), refl)
  make_transports-IsMade ((key, other_kind k) ∷ rest) m h a = make_transports-IsMade rest m h a
  make_transports-IsMade ((key, syslog) ∷ rest) m h a = elim (Bool-cases (connects key)) [
    | inr no' ↦ rw (make_transports, no') (make_transports-IsMade rest m h a)
    | inl yes' ↦
        let m' = make connects key m in
        let (all, more, e, l) =
          make_transports-IsMade rest m' (omega (arith, h))
            (insert-All bound key m.next m.transports h a) in
        rw (make_transports, yes')
          (all, m.next ∷ more, e ∙ append_assoc m.senders (m.next ∷ []) more, ap suc l)
  ]

-- An update stops no goroutine that sends log lines. It starts one more for each log target for which a
-- transport can be made, also if it was there before, and all the transports have buffers that are new;
-- so the writers that stay go on writing to buffers that are no longer those of the transports.
pub update-senders :
    (connects : String → Bool) (targets : Map String Kind) (ws : List Workload) (t : Target)
    → let t' = update connects targets ws t in
      All (λ (b : String × ℕ). t.next ≤ b.1) t'.transports
      × (more : List ℕ) × (t'.senders ≡ t.senders ++ more)
      × (length more ≡ accepted connects targets)
unfolding update
update-senders connects targets ws t =
    make_transports-IsMade connects t.next targets
      (record { transports = []; senders = t.senders; next = t.next }) (omega arith) tt

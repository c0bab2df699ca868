-- ===== src/Registration/Deregister.antt =====
-- The retries, and the end of a registration (internal/registration/registration.go).
use flotta_device_worker.Prelude.{
  ℕ, zero, suc, ◌≡◌, refl, ◌⊎◌, inl, inr, true, false, String, List, [], ◌∷◌, ◌++◌, Option, some,
  none, sym, ◌∙◌,
}
use mathlib.Core.Path.{subst}
use mathlib.Core.List.{append_assoc, append-nil}
use flotta_device_worker.Prelude.Action.{Result, ok, err}
use flotta_device_worker.Registration.{
  Outside, State, Err, register_device_once, register_device_with_retries, register_device,
}
use flotta_device_worker.Registration.Once.{IsLeft, Registers, register_device_once-Registers}

-- The parts of the program that `DeregisterLater` lists, each with its name and its `Deregister` on
-- the state `W` of them all: an error or none, and the state after.
abbrev pub Deregistrable : Type 0 → Type 0
Deregistrable W = String × (W → Option String × W)

-- `DeregisterLater`
unfoldable pub deregister_later :
    {W : Type 0} → List (Deregistrable W) → List (Deregistrable W) → List (Deregistrable W)
deregister_later deregistrables more = deregistrables ++ more

unfoldable pub add_failure :
    String → Option String → List (String × String) → List (String × String)
add_failure name none errors = errors
add_failure name (some e) errors = errors ++ (name, e) ∷ []

-- The loop of `Deregister`.
unfoldable pub close_all :
    {W : Type 0} → List (Deregistrable W) → List (String × String) → W → List (String × String) × W
close_all [] errors w = (errors, w)
close_all (closer ∷ rest) errors w =
    let r = closer.1 w in close_all rest (add_failure closer.0 r.0 errors) r.1

-- `Deregister`: the errors it returns, the state of the parts, and the registration.
unfoldable pub deregister :
    {W C K : Type 0}
    → List (Deregistrable W)
    → W
    → State C K
    → List (String × String) × W × State C K
deregister deregistrables w s =
    let r = close_all deregistrables [] w in (r.0, r.1, record s { registered = false })

-- `Closes parts w errors w'`: each part in turn was deregistered in the state that the one before
-- left, also after a failure, `errors` are those of the parts that failed, and `w'` is what is left.
pub data Closes {W : Type 0}
    : List (Deregistrable W) → W → List (String × String) → W → Type 0 where
  done : {w : W} → Closes [] w [] w
  closed :
      {closer : Deregistrable W} {rest : List (Deregistrable W)} {w w' : W}
      {errors : List (String × String)}
      → (closer.1 w).0 ≡ none
      → Closes rest (closer.1 w).1 errors w'
      → Closes (closer ∷ rest) w errors w'
  failed :
      {closer : Deregistrable W} {rest : List (Deregistrable W)} {w w' : W}
      {errors : List (String × String)} {e : String}
      → (closer.1 w).0 ≡ some e
      → Closes rest (closer.1 w).1 errors w'
      → Closes (closer ∷ rest) w ((closer.0, e) ∷ errors) w'

extend :
    {W : Type 0} {closer : Deregistrable W} {rest : List (Deregistrable W)} {w w' : W}
    {more all : List (String × String)} (errors : List (String × String)) (o : Option String)
    → (closer.1 w).0 ≡ o
    → all ≡ add_failure closer.0 o errors ++ more
    → Closes rest (closer.1 w).1 more w'
    → (m : List (String × String)) × (all ≡ errors ++ m) × Closes (closer ∷ rest) w m w'
unfolding add_failure
extend errors none h e c = (_, e, closed h c)
extend {closer = closer} {more = more} errors (some x) h e c =
    ((closer.0, x) ∷ more, e ∙ append_assoc errors ((closer.0, x) ∷ []) more, failed h c)

close_all-Closes :
    {W : Type 0} (parts : List (Deregistrable W)) (errors : List (String × String)) (w : W)
    → let r = close_all parts errors w in
      (more : List (String × String)) × (r.0 ≡ errors ++ more) × Closes parts w more r.1
unfolding close_all
close_all-Closes [] errors w = ([], sym (append-nil errors), done)
close_all-Closes (closer ∷ rest) errors w =
    let (more, e, c) =
      close_all-Closes rest (add_failure closer.0 (closer.1 w).0 errors) (closer.1 w).1 in
    extend errors (closer.1 w).0 refl e c

-- `deregister` calls every part once and in order, whatever the parts before it answered, returns the
-- errors of those that failed, and the device no longer counts as registered; the certificate written
-- and the messages sent are left alone.
pub deregister-Closes :
    {W C K : Type 0} (parts : List (Deregistrable W)) (w : W) (s : State C K)
    → let r = deregister parts w s in
      Closes parts w r.0 r.1
      × (r.2.registered ≡ false)
      × (r.2.written ≡ s.written)
      × (r.2.outbox ≡ s.outbox)
unfolding deregister
deregister-Closes parts w s =
    let (more, e, c) = close_all-Closes parts [] w in
    (subst (λ x. Closes parts w x (close_all parts [] w).1) (sym e) c, refl, refl, refl)

-- Every part that is added later is deregistered after those that were there.
close_all-deregister_later :
    {W : Type 0} (parts more : List (Deregistrable W)) (errors : List (String × String)) (w : W)
    → let r = close_all parts errors w in
      close_all (deregister_later parts more) errors w ≡ close_all more r.0 r.1
unfolding close_all deregister_later
close_all-deregister_later [] more errors w = refl
close_all-deregister_later (closer ∷ rest) more errors w = close_all-deregister_later rest more _ _

module _ {C K : Type 0} (out : Outside C K) where
  -- What attempts that fail, one after the other, may leave of what the files held.
  pub data Leaves : Option (String × K) → Option (String × K) → Type 0 where
    nothing_failed : {before : Option (String × K)} → Leaves before before
    then_left :
        {before between after : Option (String × K)}
        → Leaves before between
        → IsLeft out between after
        → Leaves before after

  -- What several attempts amount to: there was a last successful one, which left `u`, or none.
  abbrev pub Attempted : State C K → State C K → Type 0
  Attempted s t =
      ((past u : State C K) × Registers out past (ok tt) u
        × Leaves u.written t.written
        × (t.registered ≡ true))
      ⊎ (Leaves s.written t.written × (t.registered ≡ s.registered))

  attempt-cases :
      (s t t' : State C K) (r : Result Err (Unit {0}))
      → Registers out t r t'
      → Attempted s t
      → Attempted s t'
  attempt-cases s t t' (ok u) g a = inl (t, t', g, nothing_failed, g.10)
  attempt-cases s t t' (err e) (same, left) (inl (past, u, g, w, yes')) =
      inl (past, u, g, then_left w left, same ∙ yes')
  attempt-cases s t t' (err e) (same, left) (inr (w, as_before)) =
      inr (then_left w left, same ∙ as_before)

  attempt : (s t : State C K) → Attempted s t → Attempted s (register_device_once out t).1
  attempt s t = attempt-cases s t _ _ (register_device_once-Registers out t)

  retries :
      (ticks : ℕ) (s t : State C K)
      → Attempted s t
      → Attempted s (register_device_with_retries out ticks t)
  unfolding register_device_with_retries
  retries zero s t a = a
  retries (suc ticks) s t a =
      let r = register_device_once out t in
      elim r.0
        as (λ x.
          Attempted s
            (elim x [ ok _ ↦ r.1 | err _ ↦ register_device_with_retries out ticks r.1 ])) [
              | ok u ↦ attempt s t a
              | err e ↦ retries ticks s r.1 (attempt s t a)
            ]

  -- Whatever number of ticks come, after `RegisterDevice` either an attempt succeeded and the device
  -- counts as registered, or none did, and whether it counts as registered is as before; and the files
  -- hold the certificate of the last success, or the one before, as far as later failed writes leave it.
  pub register_device-Attempted :
      (ticks : ℕ) (s : State C K) → Attempted s (register_device out ticks s)
  unfolding register_device
  register_device-Attempted ticks s = retries ticks s _ (attempt s s (inr (nothing_failed, refl)))

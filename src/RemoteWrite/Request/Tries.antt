-- ===== src/RemoteWrite/Request/Tries.antt =====
-- What the tries of `writeRequest` (internal/metrics/remote_write.go) leave in the history.
use flotta_device_worker.Prelude.{
  ℕ, zero, suc, ◌+◌, ◌≤◌, ◌≡◌, refl, ◌∙◌, Bool, true, false, List, [], ◌∷◌, ◌++◌, arith, length,
  length-append, Option-cases, inl, inr,
}
use mathlib.Core.List.{append-nil}
use flotta_device_worker.RemoteWrite.Series.{Series}
use flotta_device_worker.RemoteWrite.Request.{
  WriteResult, accepted, recoverable, rejected, Attempt, Receiver, num_tries, write_tries,
  write_request, settled,
}

module _ {P : Type 0} where
  settled-append : (a b : List (Attempt P)) → settled (a ++ b) ≡ settled a ++ settled b
  unfolding settled
  settled-append [] b = refl
  settled-append (x ∷ a) b = ground (arith, settled-append a b)

  -- One attempt more.
  settled-recoverable :
      (log : List (Attempt P)) (request : List (Series P))
      → settled (log ++ record { request = request; result = recoverable } ∷ []) ≡ settled log
  unfolding settled
  settled-recoverable log request = settled-append log _ ∙ append-nil _

  settled-accepted :
      (log : List (Attempt P)) (request : List (Series P))
      → settled (log ++ record { request = request; result = accepted } ∷ [])
        ≡ settled log ++ request ∷ []
  unfolding settled
  settled-accepted log request = settled-append log _

  settled-rejected :
      (log : List (Attempt P)) (request : List (Series P))
      → settled (log ++ record { request = request; result = rejected } ∷ [])
        ≡ settled log ++ request ∷ []
  unfolding settled
  settled-rejected log request = settled-append log _

-- What a request adds to the settled ones: itself exactly if `true` is returned.
abbrev pub added : {P : Type 0} → Bool → List (Series P) → List (List (Series P))
added true request = request ∷ []
added false request = []

module _ {P B : Type 0} (r : Receiver P B) (request : List (Series P)) where
  write_tries-settled :
      (left : ℕ) (body : B) (log : List (Attempt P))
      → let out = write_tries r (suc left) request body log in
        settled out.1 ≡ settled log ++ added out.0 request
  unfolding write_tries
  write_tries-settled zero body log = ground (
    arith,
    settled-accepted log request,
    settled-recoverable log request,
    settled-rejected log request,
    append-nil (settled log),
  )
  write_tries-settled (suc left) body log = ground (
    arith,
    settled-accepted log request,
    settled-recoverable log request,
    settled-rejected log request,
    write_tries-settled left body (log ++ record { request = request; result = recoverable } ∷ []),
  )

  -- A request settles nothing but itself, and at most once: it is settled exactly if `writeRequest`
  -- returns true, and the requests that were settled before stay so.
  pub write_request-settled :
      (log : List (Attempt P))
      → let out = write_request r request log in settled out.1 ≡ settled log ++ added out.0 request
  unfolding write_request
  write_request-settled log = elim (Option-cases (r.encode request)) [
    | inl e ↦ ground (arith, append-nil (settled log))
    | inr (body, e) ↦ ground (arith, write_tries-settled 2 body log)
  ]

  -- The attempts that a request makes.
  write_tries_bounded :
      (left : ℕ) (body : B) (log : List (Attempt P))
      → length (write_tries r left request body log).1 ≤ length log + left
  unfolding write_tries
  write_tries_bounded zero body log = omega arith
  write_tries_bounded (suc left) body log =
      let next =
        λ (answer : WriteResult). log ++ record { request = request; result = answer } ∷ [] in
      ground (
        arith,
        write_tries_bounded left body (next recoverable),
        length-append log (record { request = request; result = accepted } ∷ []),
        length-append log (record { request = request; result = recoverable } ∷ []),
        length-append log (record { request = request; result = rejected } ∷ []),
      )

  -- A request makes at most three attempts.
  pub write_request_bounded :
      (log : List (Attempt P)) → length (write_request r request log).1 ≤ length log + num_tries
  unfolding write_request
  write_request_bounded log = elim (Option-cases (r.encode request)) [
    | inl e ↦ ground arith
    | inr (body, e) ↦ ground (arith, write_tries_bounded num_tries body log)
  ]

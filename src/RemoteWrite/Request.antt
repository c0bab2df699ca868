-- ===== src/RemoteWrite/Request.antt =====
-- `writeRequest` of internal/metrics/remote_write.go: one request, tried at most three times.
pub mod Tries
use flotta_device_worker.Prelude.{
  ℕ, zero, suc, ◌+◌, ◌≤◌, ◌≡◌, refl, Bool, true, false, Option, none, some, List, [], ◌∷◌, ◌++◌,
  arith, length, length-append, if◌then◌else◌, nat_beq,
}
use flotta_device_worker.RemoteWrite.Series.{Series}

-- What `client.Write` answers: nil, a RemoteRecoverableError, or any other error.
pub data WriteResult : Type 0 where
  accepted recoverable rejected : WriteResult

-- One call of `client.Write`, with the request whose encoding it carried.
pub record Attempt (P : Type 0) : Type 0 where
  pub request : List (Series P)
  pub result : WriteResult

-- The code outside src/: prompb's Marshal followed by snappy's Encode (`none` if Marshal fails),
-- and the receiver, whose answer may depend on all that it was sent before.
pub record Receiver (P B : Type 0) : Type 0 where
  pub encode : List (Series P) → Option B
  pub write : List (Attempt P) → B → WriteResult

abbrev pub num_tries : ℕ
num_tries = 3

module _ {P B : Type 0} (r : Receiver P B) where
  open r use {encode, write}

  -- The loop over `try`, by the tries that are left; `log` is the history of attempts.
  unfoldable pub write_tries : ℕ → List (Series P) → B → List (Attempt P) → Bool × List (Attempt P)
  write_tries zero request body log = (true, log)
  write_tries (suc left) request body log =
      let answer : WriteResult = write log body in
      let log' = log ++ record { request = request; result = answer } ∷ [] in
      elim answer [
        | accepted ↦ (true, log')
        | recoverable ↦ if nat_beq left 0 then (false, log') else write_tries left request body log'
        | rejected ↦ (true, log')
      ]

  unfoldable pub write_request : List (Series P) → List (Attempt P) → Bool × List (Attempt P)
  unfolding write_tries
  write_request request log = elim (encode request) [
    | none ↦ (false, log)
    | some body ↦ write_tries num_tries request body log
  ]

-- The requests that are done with, in order: those accepted, and those given up as not recoverable.
unfoldable pub settled : {P : Type 0} → List (Attempt P) → List (List (Series P))
settled [] = []
settled (a ∷ rest) = elim a.result [ recoverable ↦ settled rest | _ ↦ a.request ∷ settled rest ]

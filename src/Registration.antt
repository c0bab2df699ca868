-- ===== src/Registration.antt =====
-- internal/registration/registration.go: enrolment, registration, and taking it back.
pub mod Once
pub mod Certificates
mod Tests
pub mod Deregister
use flotta_device_worker.Prelude.{
  ℕ, zero, suc, Bool, true, false, Option, none, some, String, List, [], ◌∷◌, ◌++◌, if◌then◌else◌,
  string_eq, ◌==◌, nat_beq, leb, Map, lookup,
}
use flotta_device_worker.Prelude.Action.{Result, ok, err, Action, ◌>>=◌, pure, raise}

-- `getTargetNamespace`: `none` is a tags file that cannot be read.
unfoldable pub get_target_namespace : Option (Map String String) → String
get_target_namespace none = "default"
get_target_namespace (some tags) = elim (lookup "namespace" tags) [
  | none ↦ "default"
  | some val ↦ if val == "" then "default" else val
]

-- The body of an answer, as `parseRegistrationResponse` takes it apart.
pub data Body : Type 0 where
  not_json content_not_map no_certificate certificate_not_string : Body
  certificate : String → Body

-- The answer of the dispatcher: an error of `Send`, bytes that `NewYGGDResponse` cannot parse, or a
-- status code with a body.
pub data Reply : Type 0 where
  send_failed unparsable : Reply
  response : ℕ → Body → Reply

-- A message to the dispatcher; a certificate request is of a type `C`.
pub data Sent (C : Type 0) : Type 0 where
  enrolment : Sent C
  registration : C → Sent C

pub data Err : Type 0 where
  hardware_failed marshal_failed cannot_send cannot_parse not_enrolled : Err
  certificate_failed create_certs_failed no_current_key renew_failed : Err
  status_refused bad_body write_failed : Err

-- The code outside this file: `GetHardwareInformation` and json.Marshal (whether they succeed, given
-- the messages so far), the dispatcher, and the client certificate of certs.go, whose requests and keys
-- are of types `C` and `K`: also what its files hold after a `WriteCertificate` that fails, over what
-- they held before.
pub record Outside (C K : Type 0) : Type 0 where
  pub hardware_ok : List (Sent C) → Bool
  pub marshals : List (Sent C) → Bool
  pub send : List (Sent C) → Reply
  pub is_register_cert : Option Bool
  pub create_device_certs : Option (C × K)
  pub current_key : Option K
  pub renew : K → Option (C × K)
  pub writes_certificate : String → K → Bool
  pub left_certificate : String → K → Option (String × K) → Option (String × K)

-- The fields that change: the messages sent, the certificate with its key that the files hold, and
-- `registered`.
pub record State (C K : Type 0) : Type 0 where
  pub outbox : List (Sent C)
  pub written : Option (String × K)
  pub registered : Bool

module _ {C K : Type 0} (out : Outside C K) where
  unfoldable pub require : Bool → Err → Action (State C K) Err (Unit {0})
  require true e = pure tt
  require false e = raise e

  unfoldable pub given : {A : Type 0} → Option A → Err → Action (State C K) Err A
  given none e = raise e
  given (some a) e = pure a

  -- dispatcherClient.Send
  unfoldable pub send_message : Sent C → Action (State C K) Err (ℕ × Body)
  send_message message s =
      let s' = record s { outbox = s.outbox ++ message ∷ [] } in
      elim (out.send s.outbox) [
        | send_failed ↦ (err cannot_send, s')
        | unparsable ↦ (err cannot_parse, s')
        | response status body ↦ (ok (status, body), s')
      ]

  -- The hardware information and its encoding, before a message.
  unfoldable pub prepare : Action (State C K) Err (Unit {0})
  unfolding require
  prepare s =
      (do
        _ ← require (out.hardware_ok s.outbox) hardware_failed
        require (out.marshals s.outbox) marshal_failed)
        s

  -- `enrol`
  unfoldable pub enrol : Action (State C K) Err Bool
  unfolding prepare send_message
  enrol = do _ ← prepare; answer ← send_message enrolment; pure (nat_beq answer.0 208)

  -- The two ways to a certificate request and its key.
  unfoldable pub request_certificate : Bool → Action (State C K) Err (C × K)
  unfolding given
  request_certificate true = given out.create_device_certs create_certs_failed
  request_certificate false = do
    key ← given out.current_key no_current_key
    given (out.renew key) renew_failed

  -- `renewCertificate`
  unfoldable pub renew_certificate : Action (State C K) Err (C × K)
  unfolding request_certificate
  renew_certificate = do
    is_register ← given out.is_register_cert certificate_failed
    request_certificate is_register

  -- `parseRegistrationResponse`
  unfoldable pub parse_registration_response : ℕ × Body → K → Action (State C K) Err (Unit {0})
  parse_registration_response (status, body) key s =
      if leb 300 status then (err status_refused, s) else elim body [
        | certificate cert ↦
            if out.writes_certificate cert key
            then (ok tt, record s { written = some (cert, key) })
            else (err write_failed, record s { written = out.left_certificate cert key s.written })
        | _ ↦ (err bad_body, s)
      ]

  unfoldable pub set_registered : Action (State C K) Err (Unit {0})
  set_registered s = (ok tt, record s { registered = true })

  -- `sendRegistrationRequest` and what follows it in `registerDeviceOnce`.
  unfoldable pub request_registration : C × K → Action (State C K) Err (Unit {0})
  unfolding set_registered
  request_registration pair = do
    _ ← prepare
    answer ← send_message (registration pair.0)
    _ ← parse_registration_response answer pair.1
    set_registered

  -- `registerDeviceOnce`
  unfoldable pub register_device_once : Action (State C K) Err (Unit {0})
  unfolding require
  register_device_once = do
    enrolled ← enrol
    _ ← require enrolled not_enrolled
    pair ← renew_certificate
    request_registration pair

  -- The rounds of `registerDeviceWithRetries` at the ticks of its ticker, by the ticks that come. The
  -- first success stops the ticker.
  unfoldable pub register_device_with_retries : ℕ → State C K → State C K
  register_device_with_retries zero s = s
  register_device_with_retries (suc ticks) s =
      let r = register_device_once s in
      elim r.0 [ ok _ ↦ r.1 | err _ ↦ register_device_with_retries ticks r.1 ]

  -- `RegisterDevice`: one attempt, and the retries whatever came of it.
  unfoldable pub register_device : ℕ → State C K → State C K
  unfolding register_device_with_retries
  register_device ticks s = register_device_with_retries ticks (register_device_once s).1

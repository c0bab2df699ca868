-- ===== src/Registration/Once.antt =====
-- When a device counts as registered (internal/registration/registration.go).
use flotta_device_worker.Prelude.{
  ◌⊎◌, Option, false, leb, ℕ, ◌<◌, ◌≡◌, refl, ap, ◌∙◌, inl, inr, Bool, true, some, String, [], ◌∷◌,
  ◌++◌, arith, Bool-cases, nat_beq_iff,
}
use mathlib.Core.Path.{subst}
use flotta_device_worker.Prelude.Action.{Result, ok, err, >>=-post}
use flotta_device_worker.Registration.{
  Outside, State, Sent, enrolment, registration, response, Body, certificate, Err, send_message,
  prepare, enrol, renew_certificate, parse_registration_response, request_registration,
  register_device_once,
}

module _ {C K : Type 0} (out : Outside C K) where
  prepare-state : (s : State C K) → (prepare out s).1 ≡ s
  unfolding prepare
  prepare-state s = ground arith

  renew_certificate-state : (s : State C K) → (renew_certificate out s).1 ≡ s
  unfolding renew_certificate
  renew_certificate-state s = ground arith

  -- The state with one message more.
  abbrev with_message : Sent C → State C K → State C K
  with_message message s = record s { outbox = s.outbox ++ message ∷ [] }

  send_message-state :
      (message : Sent C) (s : State C K) → (send_message out message s).1 ≡ with_message message s
  unfolding send_message
  send_message-state message s = ground arith

  send_message-ok :
      (message : Sent C) (s : State C K) (answer : ℕ × Body)
      → (send_message out message s).0 ≡ ok answer
      → out.send s.outbox ≡ response answer.0 answer.1
  unfolding send_message
  send_message-ok message s answer h = ground arith

  -- What an outcome says of the certificate and of `registered`: an error leaves them alone.
  abbrev Enrols : State C K → Result Err Bool → State C K → Type 0
  Enrols s (err e) t = (t.registered ≡ s.registered) × (t.written ≡ s.written)
  Enrols s (ok enrolled) t =
      (t ≡ with_message enrolment s)
      × (enrolled ≡ true → (body : Body) × (out.send s.outbox ≡ response 208 body))

  enrol_lem : (s : State C K) → Enrols s (enrol out s).0 (enrol out s).1
  unfolding enrol
  enrol_lem s =
      >>=-post (Enrols s) (prepare out) _ s (λ e h. rw (prepare-state s) (refl, refl))
        (λ u h. rw (prepare-state s) (
          >>=-post (Enrols s) (send_message out enrolment) _ s
            (λ e k. rw (send_message-state enrolment s) (refl, refl))
            (λ answer k. (
              send_message-state enrolment s,
              λ yes'. (
                answer.1,
                send_message-ok enrolment s answer k
                    ∙ ap (λ n. response n answer.1) ((nat_beq_iff answer.0 208).0 yes'),
              ),
            ))))

  parse-ok :
      (answer : ℕ × Body) (key : K) (s : State C K)
      → (parse_registration_response out answer key s).0 ≡ ok tt
      → (cert : String) × (answer.1 ≡ certificate cert)
        × (answer.0 < 300)
        × ((parse_registration_response out answer key s).1
            ≡ record s { written = some (cert, key) })
  unfolding parse_registration_response
  parse-ok (status, certificate cert) key s h = (cert, refl, ground arith, ground arith)
  parse-ok (status, body) key s h = absurd (ground arith)

  -- The files hold what they did, or what a `WriteCertificate` that failed has left.
  abbrev pub IsLeft : Option (String × K) → Option (String × K) → Type 0
  IsLeft before after =
      (after ≡ before)
      ⊎ ((cert : String) × (key : K) × (out.writes_certificate cert key ≡ false)
          × (after ≡ out.left_certificate cert key before))

  parse-err :
      (answer : ℕ × Body) (key : K) (s : State C K) (e : Err)
      → (parse_registration_response out answer key s).0 ≡ err e
      → let t = (parse_registration_response out answer key s).1 in
        (t.registered ≡ s.registered) × IsLeft s.written t.written
  unfolding parse_registration_response
  parse-err (status, certificate cert) key s e h = elim (Bool-cases (leb 300 status)) [
    | inl high ↦ rw high (refl, inl refl)
    | inr low ↦ elim (Bool-cases (out.writes_certificate cert key)) [
      | inl done ↦ absurd (ground (arith, h, low, done))
      | inr bad ↦ rw (low, bad) (refl, inr (cert, key, bad, refl))
    ]
  ]
  parse-err (status, body) key s e h = elim (Bool-cases (leb 300 status)) [
    | inl high ↦ rw high (refl, inl refl)
    | inr low ↦ rw low (refl, inl refl)
  ]

  -- The request for a certificate and its key: new ones while the device has the certificate for the
  -- registration, and those of a renewal with the key in use after that.
  abbrev pub IsRequested : C × K → Type 0
  IsRequested pair =
      ((out.is_register_cert ≡ some true) × (out.create_device_certs ≡ some pair))
      ⊎ ((out.is_register_cert ≡ some false)
          × ((key : K) × (out.current_key ≡ some key) × (out.renew key ≡ some pair)))

  -- What one attempt to register amounts to. If it fails, the device counts as registered if it did
  -- before, and the files hold the certificate that they held, or what a write that failed has left. If
  -- it succeeds, the enrolment was answered by 208, after it the request for a certificate, made with its
  -- key as `IsRequested` says, by a status below 300 with a certificate, which has been written with the
  -- key of the request, nothing else was sent, and the device counts as registered.
  abbrev pub Registers : State C K → Result Err (Unit {0}) → State C K → Type 0
  Registers s (err e) t = (t.registered ≡ s.registered) × IsLeft s.written t.written
  Registers s (ok u) t =
      (body : Body) × (pair : C × K) × (status : ℕ) × (cert : String) × IsRequested pair
      × (out.send s.outbox ≡ response 208 body)
      × (out.send (s.outbox ++ enrolment ∷ []) ≡ response status (certificate cert))
      × (status < 300)
      × (t.outbox ≡ (s.outbox ++ enrolment ∷ []) ++ registration pair.0 ∷ [])
      × (t.written ≡ some (cert, pair.1))
      × (t.registered ≡ true)

  requested_lem :
      (s : State C K) (pair : C × K) → (renew_certificate out s).0 ≡ ok pair → IsRequested pair
  unfolding renew_certificate
  requested_lem s pair h = ground (arith, h)

  request_registration-Registers :
      (s : State C K) (body : Body) (pair : C × K)
      → IsRequested pair
      → out.send s.outbox ≡ response 208 body
      → let s1 = with_message enrolment s in
        Registers s (request_registration out pair s1).0 (request_registration out pair s1).1
  unfolding request_registration
  request_registration-Registers s body pair requested enrolled =
      let s1 = with_message enrolment s in
      let s2 = with_message (registration pair.0) s1 in
      >>=-post (Registers s) (prepare out) _ s1 (λ e h. rw (prepare-state s1) (refl, inl refl))
        (λ u h. rw (prepare-state s1) (
          >>=-post (Registers s) (send_message out (registration pair.0)) _ s1
            (λ e k. rw (send_message-state (registration pair.0) s1) (refl, inl refl))
            (λ answer k. rw (send_message-state (registration pair.0) s1) (
              >>=-post (Registers s) (parse_registration_response out answer pair.1) _ s2
                (λ e j. parse-err answer pair.1 s2 e j)
                (λ v j.
                  let (cert, b, low, t) = parse-ok answer pair.1 s2 j in
                  rw t (
                    body,
                    pair,
                    answer.0,
                    cert,
                    requested,
                    enrolled,
                    send_message-ok (registration pair.0) s1 answer k
                        ∙ ap (λ c. response answer.0 c) b,
                    low,
                    refl,
                    refl,
                    refl,
                  ))))))

  pub register_device_once-Registers :
      (s : State C K) → Registers s (register_device_once out s).0 (register_device_once out s).1
  unfolding register_device_once
  register_device_once-Registers s =
      >>=-post (Registers s) (enrol out) _ s
        (λ e h.
          let (same, kept) = subst (λ r. Enrols s r (enrol out s).1) h (enrol_lem s) in
          (same, inl kept))
        (λ enrolled h.
          let (sent, answered) = subst (λ r. Enrols s r (enrol out s).1) h (enrol_lem s) in
          rw sent (elim (Bool-cases enrolled) [
            | inr no' ↦ rw no' (refl, inl refl)
            | inl yes' ↦
                let (body, q) = answered yes' in
                rw yes' (
                  >>=-post (Registers s) (renew_certificate out) _ (with_message enrolment s)
                    (λ e k.
                      rw (renew_certificate-state (with_message enrolment s)) (refl, inl refl))
                    (λ pair k. rw (renew_certificate-state (with_message enrolment s)) (
                      request_registration-Registers s body pair
                        (requested_lem (with_message enrolment s) pair k) q)))
          ]))

-- ===== src/Heartbeat/Push.antt =====
-- What heartbeats carry until one is accepted, and after one is lost (internal/heartbeat/heartbeat.go).
use flotta_device_worker.Prelude.{
  Bool, if◌then◌else◌, nat_beq, ◌∷◌, ◌≡◌, ◌≢◌, refl, ap, ◌∙◌, inl, inr, true, false, none, some,
  List, [], ◌++◌, arith, Bool-cases, eq_iff, string_eq,
}
use text.Mathlib.TextPositions.{eq_refl}
use flotta_device_worker.Hardware.{HardwareInfo, get_mutable_hardware_info_delta}
use flotta_device_worker.Heartbeat.Beat.{
  Beat, Outside, Pusher, Reply, failed, answered, Result, ok, marshal_error, send_error, panics,
  new_heartbeat_service, build_hardware_info, retrieve_info, send, settle, push_information,
  scope_delta,
}

-- Until a heartbeat is accepted no hardware information counts as sent.
abbrev pub IsFull : {X M E T : Type 0} → Pusher X M E T → Type 0
IsFull s = s.first_heartbeat ≡ true → s.previous_mutable_hardware_info ≡ none

module _ {X M E T : Type 0} (out : Outside X M E T) where
  send-fields :
      (beat : Beat X M E T) (s : Pusher X M E T)
      → let s' = (send out beat s).1 in
        (s'.first_heartbeat ≡ s.first_heartbeat)
        × (s'.previous_mutable_hardware_info ≡ s.previous_mutable_hardware_info)
        × (s'.reg ≡ s.reg)
        × (s'.workload_events ≡ s.workload_events)
        × (s'.ansible_events ≡ s.ansible_events)
  unfolding send
  send-fields beat s = ground arith

  settle-IsFull :
      (r : Result) (s : Pusher X M E T)
      → r ≢ panics
      → r ≢ marshal_error
      → IsFull (settle out (r, s)).1
  unfolding settle
  settle-IsFull ok s a b = λ e. cc
  settle-IsFull send_error s a b = λ e. ground arith
  settle-IsFull marshal_error s a b = absurd (b refl)
  settle-IsFull panics s a b = absurd (a refl)

  -- `send` reports no error of the encoding.
  send-ne-marshal : (beat : Beat X M E T) (s : Pusher X M E T) → (send out beat s).0 ≢ marshal_error
  unfolding send
  send-ne-marshal beat s = ground arith

  settle-result : (r : Result) (s : Pusher X M E T) → (settle out (r, s)).0 ≡ r
  unfolding settle
  settle-result ok s = refl
  settle-result send_error s = refl
  settle-result marshal_error s = refl
  settle-result panics s = refl

  settle-events :
      (r : Result) (s : Pusher X M E T)
      → let s' = (settle out (r, s)).1 in
        (s'.workload_events ≡ s.workload_events) × (s'.ansible_events ≡ s.ansible_events)
  unfolding settle
  settle-events ok s = (refl, refl)
  settle-events send_error s = ground arith
  settle-events marshal_error s = (refl, refl)
  settle-events panics s = (refl, refl)

  settle-old :
      (r : Result) (s : Pusher X M E T)
      → s.first_heartbeat ≡ false
      → (settle out (r, s)).1.previous_mutable_hardware_info ≡ s.previous_mutable_hardware_info
  unfolding settle
  settle-old ok s e = refl
  settle-old send_error s e = ground arith
  settle-old marshal_error s e = refl
  settle-old panics s e = refl

  delta_again :
      (current : HardwareInfo X M) (s : Pusher X M E T)
      → out.mutable_info ≡ some current
      → out.include ≡ true
      → out.scope ≡ scope_delta
      → s.previous_mutable_hardware_info ≡ some current
      → (retrieve_info out s).0.hardware
        ≡ some (get_mutable_hardware_info_delta out.same_interfaces current current)
  unfolding retrieve_info build_hardware_info
  delta_again current s c inc sc p = ground (arith, eq_iff out.scope scope_delta)

  push_lem :
      (s : Pusher X M E T)
      → out.marshals ≡ true
      → push_information out s
        ≡ settle out (send out (retrieve_info out s).0 (retrieve_info out s).1)
  unfolding push_information
  push_lem s m = ground arith

  -- Whether the dispatcher takes a message, by its answer: with a status that is not 401, or with 401
  -- and, once the device has registered again, no error of the second attempt.
  abbrev pub is_answered : Reply → Bool
  is_answered failed = false
  is_answered _ = true

  abbrev pub is_taken : Reply → Reply → Bool
  is_taken (answered code) second = if nat_beq code 401 then is_answered second else true
  is_taken _ second = false

  abbrev pub is_accepted : Pusher X M E T → Bool
  is_accepted s =
      is_taken (out.replies s.outbox) (out.replies (s.outbox ++ (retrieve_info out s).0 ∷ []))

  -- After a push: once a heartbeat is taken it is not the first any more; after one that is not taken,
  -- the next is the first if this one was, and then no hardware information counts as sent.
  abbrev pub Pushed : Bool → Pusher X M E T → Pusher X M E T → Type 0
  Pushed true s s' = s'.first_heartbeat ≡ false
  Pushed false s s' =
      (s'.first_heartbeat ≡ s.first_heartbeat)
      × (s.first_heartbeat ≡ true → s'.previous_mutable_hardware_info ≡ none)

  -- What `send` reports, by whether the message is taken.
  abbrev Sends : Bool → Result → Type 0
  Sends taken r = (r ≡ ok → taken ≡ true) × (r ≡ send_error → taken ≡ false) × (r ≢ marshal_error)

  send-Sends :
      (beat : Beat X M E T) (s : Pusher X M E T)
      → Sends
          (is_taken (out.replies s.outbox) (out.replies (s.outbox ++ beat ∷ [])))
          (send out beat s).0
  unfolding send
  send-Sends beat s = (ground arith, ground arith, ground arith)

  settle-Pushed :
      (taken : Bool) (r : Result) (s0 s : Pusher X M E T)
      → r ≢ panics
      → Sends taken r
      → s.first_heartbeat ≡ s0.first_heartbeat
      → Pushed taken s0 (settle out (r, s)).1
  unfolding settle
  settle-Pushed taken ok s0 s alive sent same = rw (sent.0 refl) refl
  settle-Pushed taken send_error s0 s alive sent same =
      rw (sent.1 refl) (ground (arith, same), λ first. ground (arith, same, first))
  settle-Pushed taken marshal_error s0 s alive sent same = absurd (sent.2 refl)
  settle-Pushed taken panics s0 s alive sent same = absurd (alive refl)

  -- After a push whose message can be encoded and that does not crash: if the dispatcher took the
  -- heartbeat, the next is not the first; if it did not, the next is the first if this one was, and then
  -- no hardware information counts as sent, so that all of it is sent again.
  pub push_information-Pushed :
      (s : Pusher X M E T)
      → out.marshals ≡ true
      → (push_information out s).0 ≢ panics
      → Pushed (is_accepted s) s (push_information out s).1
  unfolding retrieve_info
  push_information-Pushed s m alive =
      let (beat, s') = retrieve_info out s in
      let (r, s'') = send out beat s' in
      rw (push_lem s m) (
        settle-Pushed (is_accepted s) r s s''
          (λ e. alive (ap (λ t. t.0) (push_lem s m) ∙ settle-result r s'' ∙ e)) (send-Sends beat s')
          (send-fields beat s').0)

  -- After a push whose message can be encoded, and that does not crash, either a heartbeat has been
  -- accepted or no hardware information counts as sent.
  pub push_information-IsFull :
      (s : Pusher X M E T)
      → out.marshals ≡ true
      → (push_information out s).0 ≢ panics
      → IsFull (push_information out s).1
  push_information-IsFull s m alive =
      let (beat, s') = retrieve_info out s in
      let (r, s'') = send out beat s' in
      rw (push_lem s m) (
        settle-IsFull r s'' (λ e. alive (ap (λ t. t.0) (push_lem s m) ∙ settle-result r s'' ∙ e))
          (send-ne-marshal beat s'))

  -- In a state in which no hardware information counts as sent until a heartbeat is accepted, a
  -- heartbeat before the first acceptance carries all that `GetHardwareInformation` gave, not only what
  -- changes, if hardware is to be included and the mutable information can be read.
  pub retrieve_info-full :
      (s : Pusher X M E T)
      → IsFull s
      → s.first_heartbeat ≡ true
      → out.include ≡ true
      → out.mutable_info ≢ none
      → (retrieve_info out s).0.hardware ≡ out.full_info
  unfolding retrieve_info build_hardware_info
  retrieve_info-full s h first inc some_info = ground (arith, h first)

  -- A heartbeat carries all events that waited, those of the workload manager first, and they wait no
  -- more: if the dispatcher does not take it, they are in no queue.
  pub push_information-events :
      (s : Pusher X M E T)
      → let s' = (push_information out s).1 in
        ((retrieve_info out s).0.events ≡ s.workload_events ++ s.ansible_events)
        × (s'.workload_events ≡ [])
        × (s'.ansible_events ≡ [])
  unfolding push_information
  push_information-events s = elim (Bool-cases out.marshals) [
    | inr bad ↦ ground arith
    | inl m ↦
        let (beat, s') = retrieve_info out s in
        let (r, s'') = send out beat s' in
        let f = send-fields beat s' in
        let e = settle-events r s'' in rw (push_lem s m) (refl, e.0 ∙ f.3 ∙ refl, e.1 ∙ f.4 ∙ refl)
  ]

  -- A service as it is constructed crashes when a heartbeat is answered by 401, the answer on which the
  -- device is to register again.
  pub push_information-unauthorized :
      (workload_events ansible_events : List E)
      → out.marshals ≡ true
      → out.replies [] ≡ answered 401
      → (push_information out (new_heartbeat_service workload_events ansible_events)).0 ≡ panics
  unfolding push_information new_heartbeat_service
  push_information-unauthorized workload_events ansible_events m r =
      let s : Pusher X M E T = new_heartbeat_service workload_events ansible_events in
      let (beat, s') = retrieve_info out s in
      let crash : (send out beat s').0 ≡ panics = unfold send in ground arith in
      rw (push_lem s m) (settle-result (send out beat s').0 (send out beat s').1 ∙ crash)

  -- A service past its first heartbeat that fails to send a change of the hardware takes the change for
  -- sent: the next delta, against the same hardware, has neither a host name nor an interface.
  push_information-lost_delta :
      (s : Pusher X M E T) (previous current : HardwareInfo X M)
      → s.first_heartbeat ≡ false
      → s.previous_mutable_hardware_info ≡ some previous
      → out.mutable_info ≡ some current
      → out.include ≡ true
      → out.scope ≡ scope_delta
      → out.marshals ≡ true
      → out.replies s.outbox ≡ failed
      → out.same_interfaces current.interfaces current.interfaces ≡ true
      → (delta : HardwareInfo X M) × ((push_information out s).0 ≡ send_error)
        × ((retrieve_info out (push_information out s).1).0.hardware ≡ some delta)
        × (delta.hostname ≡ "")
        × (delta.interfaces ≡ [])
  unfolding retrieve_info
  push_information-lost_delta s previous current old p c inc sc m f same =
      let (beat, s') = retrieve_info out s in
      let (r, s'') = send out beat s' in
      let taken : s'.previous_mutable_hardware_info ≡ some current =
        unfold retrieve_info build_hardware_info in ground arith in
      let refused : r ≡ send_error = unfold send retrieve_info in ground arith in
      let kept = settle-old r s'' ((send-fields beat s').0 ∙ old) in
      (
        get_mutable_hardware_info_delta out.same_interfaces current current,
        ap (λ t. t.0) (push_lem s m) ∙ settle-result r s'' ∙ refused,
        delta_again current (push_information out s).1 c inc sc (
            ap (λ t. t.1.previous_mutable_hardware_info) (push_lem s m)
            ∙ kept
            ∙ (send-fields beat s').1
            ∙ taken),
        unfold get_mutable_hardware_info_delta in ground (arith, eq_refl current.hostname),
        unfold get_mutable_hardware_info_delta in ground arith,
      )

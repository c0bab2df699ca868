-- ===== src/Server/Order.antt =====
-- Which messages internal/server/deviceserver.go hands on, and in which order.
use flotta_device_worker.Prelude.{◌≡◌, refl, sym, Option, List, [], ◌∷◌, ◌++◌, map}
use mathlib.Core.Path.{subst}
use mathlib.Core.List.{Perm, append_assoc, map-append}
use mathlib.Core.List.Perm
use flotta_device_worker.Server.{
  Server, new_device_server, message_of, send, Step, sends, takes, Steps, here, later,
}

perm_to_middle :
    {A : Type 0} (a : A) (before after : List A) → Perm (a ∷ before ++ after) (before ++ a ∷ after)
perm_to_middle a [] after = Perm.refl (a ∷ after)
perm_to_middle a (b ∷ before) after =
    Perm.trans (Perm.swap b a (before ++ after)) (Perm.cons b (perm_to_middle a before after))

module _ {C M : Type 0} (decode : C → Option M) (left : C → M) where
  -- What was handed on and what waits is what was sent, in some order.
  abbrev pub IsComplete : Server C M → Type 0
  IsComplete s = Perm (s.updated ++ s.waiting) (map (message_of decode left) s.sent)

  Step-IsComplete : {s t : Server C M} → Step decode left s t → IsComplete s → IsComplete t
  unfolding send
  Step-IsComplete {s} (sends c) h =
      subst (λ l. Perm l (map (message_of decode left) (s.sent ++ c ∷ [])))
        (append_assoc s.updated s.waiting (message_of decode left c ∷ []))
        (subst (λ l. Perm ((s.updated ++ s.waiting) ++ message_of decode left c ∷ []) l)
          (sym (map-append (message_of decode left) s.sent (c ∷ [])))
          (Perm.append_right (message_of decode left c ∷ []) h))
  Step-IsComplete {s} (takes before m after e) h =
      subst (λ l. Perm l (map (message_of decode left) s.sent))
        (sym (append_assoc s.updated (m ∷ []) (before ++ after)))
        (Perm.trans (Perm.append_left s.updated (perm_to_middle m before after))
          (subst (λ w. Perm (s.updated ++ w) (map (message_of decode left) s.sent)) e h))

  -- Whatever the order of the steps, no message is lost and none is handed on twice: those that were
  -- handed on and those that wait are, up to their order, the messages of the contents that were sent.
  pub Steps-IsComplete : {s : Server C M} → Steps decode left new_device_server s → IsComplete s
  Steps-IsComplete here = Perm.nil
  Steps-IsComplete (later r st) = Step-IsComplete st (Steps-IsComplete r)

  -- The order of the messages is not kept: of two that are sent one after the other, the second may be
  -- handed on first, so that the configuration in force at the end is that of the first.
  pub send-send_reordered :
      (a b : C)
      → (s : Server C M) × Steps decode left new_device_server s
        × (s.sent ≡ a ∷ b ∷ [])
        × (s.updated ≡ message_of decode left b ∷ message_of decode left a ∷ [])
  unfolding send
  send-send_reordered a b =
      let m = message_of decode left a in
      let n = message_of decode left b in
      (
        _,
        later (later (later (later here (sends a)) (sends b)) (takes (m ∷ []) n [] refl))
            (takes [] m [] refl),
        refl,
        refl,
      )
